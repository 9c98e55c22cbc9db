-- ===== src/Propagation/Traced.antt =====
-- Every retelling can be traced to the seed of the rumor, and nobody hears it twice.
use rumor_mill_ai.Prelude.{
  ℕ, suc, ◌+◌, ◌-◌, ◌≤◌, ◌≡◌, refl, ap, sym, ◌∙◌, subst, String, true, false, ◌||◌, Option, none,
  some, List, [], ◌∷◌, ◌++◌, map, map-append, length, length-append, length-map, contains, unique,
  if◌then◌else◌, ok, >>=-eq-ok, arith, Bool-cases, inl, inr,
}
use rumor_mill_ai.Floats.{Floats}
use rumor_mill_ai.Propagation.Rumors.{
  RumorSeed, PropagationOpportunity, Retelling, PropagationGraph, Characters, MutationKind,
}
use rumor_mill_ai.Propagation.Retell.{Random, mutate, choose_mutation, transmission_score}
use rumor_mill_ai.Propagation.Simulate.{
  lookup, depth_of, id_of, statement_of, Loop, start, retelling, remember, retell, tell, is_heard,
  consider_found, loop, graph, simulate,
}

module _ {C : Type 0} (rumor : RumorSeed C) where
  abbrev pub entry : Retelling C → ℕ × Option (Retelling C)
  entry r = (r.listener_id, some r)

  -- Who has heard the rumor after the retellings: the first speaker, and each listener.
  abbrev pub heard_of : List (Retelling C) → List (ℕ × Option (Retelling C))
  heard_of rs = (rumor.speaker_id, none) ∷ map entry rs

  -- Each retelling, in its order, is by somebody who has heard the rumor before to somebody who
  -- has not; it points to the retelling that its speaker heard, one level above it.
  pub data Told : List (Retelling C) → Type 0 where
    nobody : Told []
    then_told :
        (rs : List (Retelling C)) (r : Retelling C) (source : Option (Retelling C))
        → Told rs
        → lookup r.speaker_id (heard_of rs) ≡ some source
        → lookup r.listener_id (heard_of rs) ≡ none
        → r.parent_id ≡ id_of source
        → r.depth ≡ suc (depth_of source)
        → r.root_claim_id ≡ rumor.claim_id
        → Told (rs ++ r ∷ [])

  abbrev pub listeners : List (Retelling C) → List ℕ
  listeners = map (λ r. r.listener_id)

  absent :
      (i : ℕ) (rs : List (Retelling C))
      → lookup i (map entry rs) ≡ none
      → contains i (listeners rs) ≡ false
  absent i [] h = refl
  absent i (r ∷ rs) h = ground (arith, absent i rs)

  contains-snoc :
      (i : ℕ) (xs : List ℕ) (j : ℕ)
      → contains i (xs ++ j ∷ []) ≡ (contains i xs || contains i (j ∷ []))
  contains-snoc i [] j = refl
  contains-snoc i (x ∷ xs) j = ground (arith, contains-snoc i xs j)

  unique-snoc :
      (xs : List ℕ) (j : ℕ)
      → unique xs ≡ true
      → contains j xs ≡ false
      → unique (xs ++ j ∷ []) ≡ true
  unique-snoc [] j u h = refl
  unique-snoc (x ∷ xs) j u h = ground (arith, contains-snoc x xs j, unique-snoc xs j)

  -- The people that have heard the rumor are all different.
  pub Told-unique :
      {rs : List (Retelling C)} → Told rs → unique (rumor.speaker_id ∷ listeners rs) ≡ true
  Told-unique nobody = refl
  Told-unique (then_told rs r source t spoken new parent deep root) =
      let before = Told-unique t in
      rw (map-append (λ x. x.listener_id) rs (r ∷ [])) (
        unique-snoc (rumor.speaker_id ∷ listeners rs) r.listener_id before
          (ground (arith, absent r.listener_id rs)))

module _ (F : Floats) (R : Random (F.Carrier)) (chars : Characters) (fresh : ℕ → ℕ → ℕ → ℕ)
    (rumor : RumorSeed (F.Carrier)) where
  open F use {Carrier, le}

  -- What holds between two opportunities.
  record IsTraced (s : Loop Carrier (R.State)) : Type 0 where
    heard_is : s.heard ≡ heard_of rumor s.records
    told : Told rumor s.records
    counted : length s.records + s.suppressions ≤ s.attempts

  remember-IsTraced :
      (candidate : PropagationOpportunity Carrier) (source : Option (Retelling Carrier))
      (s : Loop Carrier (R.State)) (g : R.State) (mutation : MutationKind) (statement : String)
      → IsTraced s
      → lookup candidate.speaker_id s.heard ≡ some source
      → lookup candidate.listener_id s.heard ≡ none
      → IsTraced (
          remember F R chars fresh rumor
            (retelling F R chars fresh rumor candidate source (length s.records) mutation statement)
            g
            (record s { attempts = suc s.attempts }))
  remember-IsTraced candidate source s g mutation statement v spoken new =
      let r =
        retelling F R chars fresh rumor candidate source (length s.records) mutation statement in
      record {
        heard_is =
            ap (λ h. h ++ entry rumor r ∷ []) v.heard_is
            ∙ ap (λ h. (rumor.speaker_id, none) ∷ h)
                (sym (map-append (entry rumor) s.records (r ∷ [])));
        told =
            then_told s.records r source v.told
              (ap (lookup candidate.speaker_id) (sym v.heard_is) ∙ spoken)
              (ap (lookup candidate.listener_id) (sym v.heard_is) ∙ new) refl refl refl;
        counted = omega (arith, length-append {0} s.records (r ∷ []), v.counted);
      }

  -- What one opportunity does.
  record IsNext (s s' : Loop Carrier (R.State)) : Type 0 where
    kept : IsTraced s'
    tried : s'.attempts ≤ s.attempts + 1

  abbrev counted_loop : Loop Carrier (R.State) → Loop Carrier (R.State)
  counted_loop s = record s { attempts = suc s.attempts }

  unheard-IsNext :
      (s : Loop Carrier (R.State)) (g : R.State) (k : ℕ)
      → IsTraced s
      → length s.records + k ≤ suc s.attempts
      → IsNext s (record s { attempts = suc s.attempts; generator = g; suppressions = k })
  unheard-IsNext s g k v h = record {
    kept = record { heard_is = v.heard_is; told = v.told; counted = h };
    tried = omega arith;
  }

  retell-IsNext :
      (candidate : PropagationOpportunity Carrier) (source : Option (Retelling Carrier))
      (s s' : Loop Carrier (R.State)) (g : R.State)
      → IsTraced s
      → lookup candidate.speaker_id s.heard ≡ some source
      → lookup candidate.listener_id s.heard ≡ none
      → retell F R chars fresh rumor candidate source g (counted_loop s) ≡ ok s'
      → IsNext s s'
  unfolding retell
  retell-IsNext candidate source s s' g v spoken new h =
      let (mutation, g') = choose_mutation F R rumor candidate g in
      let after : String → Loop Carrier (R.State) = λ statement.
        remember F R chars fresh rumor
          (retelling F R chars fresh rumor candidate source (length s.records) mutation statement)
          g' (counted_loop s) in
      let (statement, mutated, last) =
        >>=-eq-ok (mutate chars (statement_of rumor source) mutation) (λ x. ok (after x)) h in
      let same : after statement ≡ s' = cc last in
      subst (IsNext s) same (record {
        kept = remember-IsTraced candidate source s g' mutation statement v spoken new;
        tried = omega arith;
      })

  tell-IsNext :
      (candidate : PropagationOpportunity Carrier) (source : Option (Retelling Carrier))
      (s s' : Loop Carrier (R.State))
      → IsTraced s
      → lookup candidate.speaker_id s.heard ≡ some source
      → lookup candidate.listener_id s.heard ≡ none
      → tell F R chars fresh rumor candidate source (counted_loop s) ≡ ok s'
      → IsNext s s'
  unfolding tell
  tell-IsNext candidate source s s' v spoken new h =
      let (x, g) = R.random s.generator in
      elim (Bool-cases (le (transmission_score F rumor candidate) x)) [
        | inl silent ↦
            let same : record (counted_loop s) { generator = g } ≡ s' = cc (rw silent at h) in
            subst (IsNext s) same (unheard-IsNext s g s.suppressions v (omega (arith, v.counted)))
        | inr told ↦ retell-IsNext candidate source s s' g v spoken new (rw told at h)
      ]

  consider_found-IsNext :
      (candidate : PropagationOpportunity Carrier) (s s' : Loop Carrier (R.State))
      → IsTraced s
      → consider_found F R chars fresh rumor (lookup candidate.speaker_id s.heard) candidate s
        ≡ ok s'
      → IsNext s s'
  unfolding consider_found
  consider_found-IsNext candidate s s' v h = by_speaker (lookup candidate.speaker_id s.heard) refl h
    where
      by_listener :
          (source : Option (Retelling Carrier)) (o : Option (Option (Retelling Carrier)))
          → lookup candidate.speaker_id s.heard ≡ some source
          → lookup candidate.listener_id s.heard ≡ o
          → (if is_heard F R chars fresh rumor o
              then ok (record (counted_loop s) { suppressions = suc s.suppressions })
              else tell F R chars fresh rumor candidate source (counted_loop s))
            ≡ ok s'
          → IsNext s s'
      by_listener source none spoken new e = tell-IsNext candidate source s s' v spoken new e
      by_listener source (some r) spoken old e =
          let same : record (counted_loop s) { suppressions = suc s.suppressions } ≡ s' = cc e in
          subst (IsNext s) same
            (unheard-IsNext s s.generator (suc s.suppressions) v (omega (arith, v.counted)))

      by_speaker :
          (o : Option (Option (Retelling Carrier)))
          → lookup candidate.speaker_id s.heard ≡ o
          → consider_found F R chars fresh rumor o candidate s ≡ ok s'
          → IsNext s s'
      by_speaker none e k =
          let same : s ≡ s' = cc k in
          subst (IsNext s) same (record { kept = v; tried = omega arith })
      by_speaker (some source) e k =
          by_listener source (lookup candidate.listener_id s.heard) e refl k

  loop-IsTraced :
      (candidates : List (PropagationOpportunity Carrier)) (s s' : Loop Carrier (R.State))
      → IsTraced s
      → loop F R chars fresh rumor candidates s ≡ ok s'
      → IsTraced s' × (s'.attempts ≤ s.attempts + length candidates)
  unfolding loop
  loop-IsTraced [] s s' v h =
      let same : s ≡ s' = cc h in (subst IsTraced same v, omega (arith, ap (λ x. x.attempts) same))
  loop-IsTraced (candidate ∷ candidates) s s' v h =
      let (next, moved, rest) =
        >>=-eq-ok
          (consider_found F R chars fresh rumor (lookup candidate.speaker_id s.heard) candidate s)
          (λ x. loop F R chars fresh rumor candidates x) h in
      let n = consider_found-IsNext candidate s next v moved in
      let done = loop-IsTraced candidates next s' n.kept rest in
      (done.0, omega (arith, n.tried, done.1))

  -- A simulation that returns: every retelling can be traced to the seed, whose first speaker
  -- and all listeners are different people; there are as many recipients as transmissions, and
  -- transmissions and suppressed repetitions are among the attempts, of which there is at most
  -- one for each opportunity.
  pub simulate_lem :
      (opportunities : List (PropagationOpportunity Carrier)) (g : R.State)
      (result : PropagationGraph Carrier)
      → simulate F R chars fresh rumor opportunities g ≡ ok result
      → Told rumor result.retellings
        × (unique (rumor.speaker_id ∷ listeners rumor result.retellings) ≡ true)
        × (result.metrics.unique_recipients ≡ result.metrics.transmissions)
        × (result.metrics.transmissions + result.metrics.loop_suppressions
            ≤ result.metrics.attempts)
        × (result.metrics.attempts ≤ length opportunities)
  unfolding simulate
  simulate_lem opportunities g result h =
      let (s, looped, last) =
        >>=-eq-ok (loop F R chars fresh rumor opportunities (start F R chars fresh rumor g))
          (λ x. ok (graph F R chars fresh rumor x)) h in
      let same : graph F R chars fresh rumor s ≡ result = cc last in
      let fresh_start : IsTraced (start F R chars fresh rumor g) = record {
        heard_is = refl;
        told = nobody;
        counted = omega arith;
      } in
      let (v, bound) =
        loop-IsTraced opportunities (start F R chars fresh rumor g) s fresh_start looped in
      let recipients : length s.heard - 1 ≡ length s.records =
        omega (arith, ap (λ l. length l) v.heard_is, length-map s.records (entry rumor)) in
      rw (← same) (v.told, Told-unique rumor v.told, recipients, v.counted, omega (arith, bound))
