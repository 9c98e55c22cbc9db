-- ===== src/Propagation/Retell.antt =====
-- RumorPropagation.transmission_score, _choose_mutation and _mutate
-- (src/rumor_mill/engine/propagation.py). The generator `Random(seed)` is a parameter: a state,
-- and what `random()` and `choice` of three make of it.
use Prim.Native.Char.{Char}
use Prim.Native.String.{◌++◌ as str_append}
use rumor_mill_ai.Prelude.{
  ◌+◌, ◌/◌, max, String, Bool, true, false, List, [], ◌∷◌, length, take, if◌then◌else◌, Result, ok,
  raise, other, str_eq,
}
use rumor_mill_ai.Floats.{Floats, fmin, fmax}
use rumor_mill_ai.Propagation.Rumors.{
  MutationKind, unchanged, omission, exaggeration, reinterpretation, RumorSeed,
  PropagationOpportunity, Characters,
}

pub record Random (C : Type 0) : Type 1 where
  pub State : Type 0
  pub random : State → C × State
  pub choice : State → MutationKind → MutationKind → MutationKind → MutationKind × State

-- `str.split()`: the word that is being read, and the words after it.
abbrev pub flush : String × List String → List String
flush (String.[], words) = words
flush (String.◌∷◌ c s, words) = String.◌∷◌ c s ∷ words

abbrev pub add_char : Bool → Char → String × List String → String × List String
add_char true c r = ("", flush r)
add_char false c (word, words) = (String.◌∷◌ c word, words)

unfoldable pub words_of : Characters → String → String × List String
words_of chars String.[] = ("", [])
words_of chars (String.◌∷◌ c s) = add_char (chars.is_space c) c (words_of chars s)

unfoldable pub split : Characters → String → List String
unfolding words_of
split chars s = flush (words_of chars s)

-- `' '.join(words)`
unfoldable pub join : List String → String
join [] = ""
join (w ∷ []) = w
join (w ∷ v ∷ ws) = str_append w (str_append " " (join (v ∷ ws)))

-- `s.rstrip('.')`
abbrev pub keep_char : Char → String → String
keep_char c String.[] = let s : String = String.◌∷◌ c String.[] in if str_eq s "." then "" else s
keep_char c (String.◌∷◌ d s) = String.◌∷◌ c (String.◌∷◌ d s)

unfoldable pub rstrip_dots : String → String
rstrip_dots String.[] = ""
rstrip_dots (String.◌∷◌ c s) = keep_char c (rstrip_dots s)

-- `statement[0].lower() + statement[1:]`
abbrev pub lower_first : Characters → String → Result String
lower_first chars String.[] = raise (other "IndexError")
lower_first chars (String.◌∷◌ c s) = ok (str_append (chars.lower c) s)

abbrev pub reinterpreted : Result String → Result String
reinterpreted (raise e) = raise e
reinterpreted (ok s) = ok (str_append "It may mean that " s)

-- `_mutate`
unfoldable pub mutate : Characters → String → MutationKind → Result String
unfolding split join rstrip_dots
mutate chars statement unchanged = ok statement
mutate chars statement omission =
    let words = split chars statement in
    ok (str_append (join (take (max 1 ((length words + 1) / 2)) words)) "…")
mutate chars statement exaggeration = ok (
    str_append "Apparently, "
      (str_append (rstrip_dots statement) " — and it is more serious than it sounds."))
mutate chars statement reinterpretation = reinterpreted (lower_first chars statement)

module _ (F : Floats) where
  open F use {Carrier, add, sub, mul, le, of_ℕ, decimal, round6}

  unfoldable pub transmission_score : RumorSeed Carrier → PropagationOpportunity Carrier → Carrier
  transmission_score rumor candidate =
      let disclosure = add (sub (of_ℕ 1) rumor.secrecy) (mul rumor.secrecy candidate.motive) in
      let score =
        mul
          (mul (mul candidate.opportunity candidate.trust)
            (add (decimal 25 2) (mul (decimal 75 2) rumor.salience)))
          disclosure in
      round6 (fmin F (of_ℕ 1) (fmax F (of_ℕ 0) score))

  -- `_choose_mutation`
  unfoldable pub choose_mutation :
      (R : Random Carrier)
      → RumorSeed Carrier
      → PropagationOpportunity Carrier
      → R.State
      → MutationKind × R.State
  choose_mutation R rumor candidate g =
      let chance = fmin F (decimal 9 1) (
        add (add (decimal 1 1) (mul (decimal 35 2) rumor.salience))
          (mul (decimal 25 2) candidate.motive)) in
      let (x, g') = R.random g in
      if le chance x then (unchanged, g') else R.choice g' omission exaggeration reinterpretation
