-- ===== src/Text/Slices.antt =====
-- Slices of consecutive ranges make the whole text again.
use Prim.Native.String.{◌++◌ as str_append}
use text.Mathlib.TextLemmas.{nil-append, cons-append}
use rumor_mill_ai.Prelude.{
  ℕ, zero, suc, ◌+◌, ◌-◌, ◌≤◌, ◌<◌, ◌≡◌, refl, ap, sym, ◌∙◌, String, List, map, All, ltb, arith,
  Bool-cases, inl, inr, min,
}
use rumor_mill_ai.Domain.Base.{text_length}
use rumor_mill_ai.Text.{take_text, drop_text, slice, range_from, range, concat}

pub append-take-drop : (n : ℕ) (s : String) → str_append (take_text n s) (drop_text n s) ≡ s
unfolding take_text drop_text
append-take-drop zero s = nil-append s
append-take-drop (suc n) String.[] = nil-append ""
append-take-drop (suc n) (String.◌∷◌ c s) =
    cons-append c (take_text n s) (drop_text n s) ∙ ap (String.◌∷◌ c) (append-take-drop n s)

drop_nil : (n : ℕ) → drop_text n "" ≡ ""
unfolding drop_text
drop_nil zero = refl
drop_nil (suc n) = refl

drop-drop : (m n : ℕ) (s : String) → drop_text n (drop_text m s) ≡ drop_text (m + n) s
unfolding drop_text
drop-drop zero n s = ap (λ (k : ℕ). drop_text k s) (omega arith)
drop-drop (suc m) n String.[] = drop_nil n ∙ sym (drop_nil (suc m + n))
drop-drop (suc m) n (String.◌∷◌ c s) =
    let shift : suc (m + n) ≡ suc m + n = omega arith in
    drop-drop m n s ∙ ap (λ (k : ℕ). drop_text k (String.◌∷◌ c s)) shift

drop_beyond : (m : ℕ) (s : String) → text_length s ≤ m → drop_text m s ≡ ""
unfolding drop_text text_length
drop_beyond zero String.[] h = refl
drop_beyond (suc m) String.[] h = refl
drop_beyond zero (String.◌∷◌ c s) h = absurd (omega arith)
drop_beyond (suc m) (String.◌∷◌ c s) h = drop_beyond m s (omega arith)

length-take : (n : ℕ) (s : String) → text_length (take_text n s) ≡ min n (text_length s)
unfolding take_text text_length
length-take zero s = omega arith
length-take (suc n) String.[] = omega arith
length-take (suc n) (String.◌∷◌ c s) = omega (arith, length-take n s)

length-drop : (n : ℕ) (s : String) → text_length (drop_text n s) ≡ text_length s - n
unfolding drop_text text_length
length-drop zero s = omega arith
length-drop (suc n) String.[] = omega arith
length-drop (suc n) (String.◌∷◌ c s) = omega (arith, length-drop n s)

-- A slice of `step` characters.
slice_step :
    (start step : ℕ) (s : String)
    → slice start (start + step) s ≡ take_text step (drop_text start s)
unfolding slice
slice_step start step s = ap (λ (k : ℕ). take_text k (drop_text start s)) (omega arith)

module _ (step : ℕ) (s : String) where
  abbrev pub pieces : List ℕ → List String
  pieces offsets = map (λ i. slice i (i + step) s) offsets

  concat_from :
      (fuel start : ℕ)
      → 0 < step
      → text_length s ≤ fuel + start
      → concat (pieces (range_from fuel start (text_length s) step)) ≡ drop_text start s
  unfolding range_from
  concat_from zero start pos h = sym (drop_beyond start s (omega arith))
  concat_from (suc fuel) start pos h = elim (Bool-cases (ltb start (text_length s))) [
    | inl more ↦
        rw
          (
            more,
            slice_step start step s,
            concat_from fuel (start + step) pos (omega arith),
            ← drop-drop start step s,
          )
          (append-take-drop step (drop_text start s))
    | inr done ↦ rw done (sym (drop_beyond start s (ground arith)))
  ]

  -- The pieces of `step` characters that a text is cut into make the text again.
  pub concat-pieces : 0 < step → concat (pieces (range 0 (text_length s) step)) ≡ s
  unfolding range drop_text
  concat-pieces pos = concat_from (text_length s - 0) 0 pos (omega arith)

  piece_bounds :
      (fuel start : ℕ)
      → 0 < step
      → All
          (λ piece. (0 < text_length piece) × (text_length piece ≤ step))
          (pieces (range_from fuel start (text_length s) step))
  unfolding range_from
  piece_bounds zero start pos = tt
  piece_bounds (suc fuel) start pos = elim (Bool-cases (ltb start (text_length s))) [
    | inl more ↦
        let here : (0 < text_length (slice start (start + step) s))
            × (text_length (slice start (start + step) s) ≤ step) =
          rw (slice_step start step s, length-take step (drop_text start s), length-drop start s)
            (ground arith) in
        rw more (here, piece_bounds fuel (start + step) pos)
    | inr done ↦ rw done tt
  ]

  -- No piece is empty or longer than `step`.
  pub pieces_bounds :
      0 < step
      → All
          (λ piece. (0 < text_length piece) × (text_length piece ≤ step))
          (pieces (range 0 (text_length s) step))
  unfolding range
  pieces_bounds pos = piece_bounds (text_length s - 0) 0 pos
