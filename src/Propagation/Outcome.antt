-- ===== src/Propagation/Outcome.antt =====
-- A simulation always returns, and its scores are numbers from 0 to 1.
use Prim.Native.String.append
use Prim.Native.String.{◌++◌ as str_append}
use rumor_mill_ai.Prelude.{
  ℕ, suc, ◌+◌, ◌≡◌, refl, subst, String, Bool, true, false, Option, none, some, List, [], ◌∷◌,
  length, ◌==◌, Result, ok, arith, Bool-cases, inl, inr, All, All-append, max, take, ◌/◌,
}
use rumor_mill_ai.Floats.{Floats, is_unit, fmin, fmax}
use rumor_mill_ai.Floats.Laws.{Laws}
use rumor_mill_ai.Beliefs.Confidence.{unit_lower, unit_upper, round6-IsUnit}
use rumor_mill_ai.Propagation.Rumors.{
  MutationKind, unchanged, omission, exaggeration, reinterpretation, RumorSeed,
  PropagationOpportunity, Retelling, PropagationGraph, Characters,
}
use rumor_mill_ai.Propagation.Retell.{
  Random, split, join, rstrip_dots, mutate, choose_mutation, transmission_score,
}
use rumor_mill_ai.Propagation.Simulate.{
  lookup, statement_of, Loop, start, retelling, remember, retell, tell, is_heard, consider_found,
  loop, graph, simulate,
}

abbrev pub is_empty_text : String → Bool
is_empty_text String.[] = true
is_empty_text (String.◌∷◌ c s) = false

append_filled : (a b : String) → is_empty_text b ≡ false → is_empty_text (str_append a b) ≡ false
append_filled String.[] b h = rw (append.nil b) h
append_filled (String.◌∷◌ c a) b h = rw (append.cons c a b) refl

append_prefixed : (a b : String) → is_empty_text a ≡ false → is_empty_text (str_append a b) ≡ false
append_prefixed String.[] b h = cc h
append_prefixed (String.◌∷◌ c a) b h = rw (append.cons c a b) refl

-- A statement that is not empty is retold as one.
mutate-filled :
    (chars : Characters) (s : String) (kind : MutationKind)
    → is_empty_text s ≡ false
    → (s' : String) × (mutate chars s kind ≡ ok s') × (is_empty_text s' ≡ false)
unfolding mutate
mutate-filled chars s unchanged h = (s, refl, h)
mutate-filled chars s omission h = (
  _,
  refl,
  append_filled (join (take (max 1 ((length (split chars s) + 1) / 2)) (split chars s))) "…" refl,
)
mutate-filled chars s exaggeration h =
    (_, refl, append_filled "Apparently, " _ (append_filled (rstrip_dots s) _ refl))
mutate-filled chars String.[] reinterpretation h = cc h
mutate-filled chars (String.◌∷◌ c s) reinterpretation h =
    (_, refl, append_prefixed "It may mean that " (str_append (chars.lower c) s) refl)

module _ (F : Floats) (R : Random (F.Carrier)) (chars : Characters) (fresh : ℕ → ℕ → ℕ → ℕ)
    (rumor : RumorSeed (F.Carrier)) where
  open F use {Carrier, le}

  -- Everybody has heard something.
  abbrev HasText : ℕ × Option (Retelling Carrier) → Type 0
  HasText e = is_empty_text (statement_of rumor e.1) ≡ false

  lookup-HasText :
      (i : ℕ) (h : List (ℕ × Option (Retelling Carrier))) {source : Option (Retelling Carrier)}
      → All HasText h
      → lookup i h ≡ some source
      → is_empty_text (statement_of rumor source) ≡ false
  lookup-HasText i [] all e = cc e
  lookup-HasText i ((j, r) ∷ h) {source} all e = elim (Bool-cases (j == i)) [
    | inl hit ↦
        let same : r ≡ source = cc (rw hit at e) in
        subst (λ o. is_empty_text (statement_of rumor o) ≡ false) same all.0
    | inr miss ↦ lookup-HasText i h all.1 (rw miss at e)
  ]

  -- One more state that returns and in which everybody has heard something.
  abbrev Returns : Result (Loop Carrier (R.State)) → Type 0
  Returns m = (s' : Loop Carrier (R.State)) × (m ≡ ok s') × All HasText s'.heard

  retell-Returns :
      (candidate : PropagationOpportunity Carrier) (source : Option (Retelling Carrier))
      (s : Loop Carrier (R.State)) (g : R.State)
      → All HasText s.heard
      → is_empty_text (statement_of rumor source) ≡ false
      → Returns (retell F R chars fresh rumor candidate source g s)
  unfolding retell
  retell-Returns candidate source s g all filled =
      let (mutation, g') = choose_mutation F R rumor candidate g in
      let (statement, mutated, kept) =
        mutate-filled chars (statement_of rumor source) mutation filled in
      let r =
        retelling F R chars fresh rumor candidate source (length s.records) mutation statement in
      rw mutated (
        remember F R chars fresh rumor r g' s,
        refl,
        All-append HasText s.heard ((r.listener_id, some r) ∷ []) all (kept, tt),
      )

  next-Returns :
      (candidate : PropagationOpportunity Carrier) (s : Loop Carrier (R.State))
      → All HasText s.heard
      → Returns
          (consider_found F R chars fresh rumor (lookup candidate.speaker_id s.heard) candidate s)
  unfolding consider_found tell
  next-Returns candidate s all = by_speaker (lookup candidate.speaker_id s.heard) refl
    where
      counted : Loop Carrier (R.State)
      counted = record s { attempts = suc s.attempts }

      by_speaker :
          (o : Option (Option (Retelling Carrier)))
          → lookup candidate.speaker_id s.heard ≡ o
          → Returns (consider_found F R chars fresh rumor o candidate s)
      by_speaker none e = (s, refl, all)
      by_speaker (some source) e =
          elim (Bool-cases
            (is_heard F R chars fresh rumor (lookup candidate.listener_id s.heard))) [
              | inl old ↦ rw old (_, refl, all)
              | inr new ↦
                  rw new
                    (elim (Bool-cases
                      (le (transmission_score F rumor candidate) (R.random s.generator).0)) [
                        | inl silent ↦ rw silent (_, refl, all)
                        | inr told ↦ rw told (
                            retell-Returns candidate source counted (R.random s.generator).1 all
                              (lookup-HasText candidate.speaker_id s.heard all e))
                      ])
            ]

  loop-Returns :
      (candidates : List (PropagationOpportunity Carrier)) (s : Loop Carrier (R.State))
      → All HasText s.heard
      → Returns (loop F R chars fresh rumor candidates s)
  unfolding loop
  loop-Returns [] s all = (s, refl, all)
  loop-Returns (candidate ∷ candidates) s all =
      let (next, moved, kept) = next-Returns candidate s all in
      rw moved (loop-Returns candidates next kept)

  -- Where the seed's statement is not empty, a simulation returns a graph: no retelling, by
  -- whatever chain of mutations, leaves an empty statement that the next one would fail on.
  pub simulate-total :
      (opportunities : List (PropagationOpportunity Carrier)) (g : R.State)
      → is_empty_text rumor.statement ≡ false
      → (result : PropagationGraph Carrier) × (simulate F R chars fresh rumor opportunities g
          ≡ ok result)
  unfolding simulate
  simulate-total opportunities g filled =
      let (s, looped, kept) =
        loop-Returns opportunities (start F R chars fresh rumor g) (filled, tt) in
      rw looped (graph F R chars fresh rumor s, refl)

module _ (F : Floats) (laws : Laws F) where
  open F use {Carrier, le, lt, of_ℕ, round6}
  open laws use {le_refl, lt-le, zero-le-one, round6_mono, round6_zero, round6_one}

  clamped : (x : Carrier) → is_unit F (fmin F (of_ℕ 1) (fmax F (of_ℕ 0) x)) ≡ true
  clamped x = ground (
    arith,
    zero-le-one,
    le_refl (of_ℕ 0),
    le_refl (of_ℕ 1),
    lt-le (of_ℕ 0) x,
    lt-le (of_ℕ 0) (of_ℕ 1),
    lt-le x (of_ℕ 1),
  )

  -- A transmission score is between 0 and 1, whatever the rumor and the opportunity.
  pub transmission_score-IsUnit :
      (rumor : RumorSeed Carrier) (candidate : PropagationOpportunity Carrier)
      → is_unit F (transmission_score F rumor candidate) ≡ true
  unfolding transmission_score
  transmission_score-IsUnit rumor candidate =
      round6-IsUnit F laws _ (unit_lower F laws _ (clamped _)) (unit_upper F laws _ (clamped _))
