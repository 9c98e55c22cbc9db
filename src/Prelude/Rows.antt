-- ===== src/Prelude/Rows.antt =====
-- What an UPDATE does to a table whose rows satisfy a predicate or carry a key.
use mathlib.Core.Path.{◌≡◌, refl}
use mathlib.Core.Bool.{Bool, true}
use mathlib.Core.Option.{some}
use mathlib.Core.List.{List, [], ◌∷◌, map}
use native.Mathlib.Omega.{arith}
use mathlib.Core.Path.{subst}
use mathlib.Core.Logic.{inl, inr}
use rumor_mill_ai.Prelude.Tests.{Bool-cases}
use rumor_mill_ai.Prelude.Query.{All, find_first, update_where, count_where}

module _ {ℓ} {A : Type ℓ} where
  pub All-update_where {κ} :
      (P : A → Type κ) (p : A → Bool) (f : A → A)
      → ((x : A) → P x → p x ≡ true → P (f x))
      → (xs : List A) → All P xs
      → All P (update_where p f xs)
  All-update_where P p f keep [] h = tt
  All-update_where P p f keep (x ∷ xs) h =
      ground (arith, keep x h.0, All-update_where P p f keep xs h.1)

  -- The same, where a second predicate is known of every row before the update.
  pub All-update_where_given {κ μ} :
      (P : A → Type κ) (R : A → Type μ) (p : A → Bool) (f : A → A)
      → ((x : A) → P x → R x → p x ≡ true → P (f x))
      → (xs : List A) → All P xs
      → All R xs
      → All P (update_where p f xs)
  All-update_where_given P R p f keep [] h k = tt
  All-update_where_given P R p f keep (x ∷ xs) h k =
      ground (arith, keep x h.0 k.0, All-update_where_given P R p f keep xs h.1 k.1)

  pub map-update_where {κ} :
      {B : Type κ} (g : A → B) (p : A → Bool) (f : A → A)
      → ((x : A) → g (f x) ≡ g x)
      → (xs : List A) → map g (update_where p f xs) ≡ map g xs
  map-update_where g p f same [] = refl
  map-update_where g p f same (x ∷ xs) = ground (arith, same x, map-update_where g p f same xs)

  -- An update that meets no row changes nothing.
  pub update_where_none :
      (p : A → Bool) (f : A → A) (xs : List A) → count_where p xs ≡ 0 → update_where p f xs ≡ xs
  update_where_none p f [] h = refl
  update_where_none p f (x ∷ xs) h = ground (arith, update_where_none p f xs)

  pub find_first_sound :
      (p : A → Bool) (xs : List A) {a : A} → find_first p xs ≡ some a → p a ≡ true
  find_first_sound p [] h = cc
  find_first_sound p (x ∷ xs) {a} h = ground (arith, find_first_sound p xs {a = a})

  pub find_first-All {κ} :
      (P : A → Type κ) (p : A → Bool) (xs : List A) {a : A}
      → All P xs
      → find_first p xs ≡ some a
      → P a
  find_first-All P p [] h e = cc
  find_first-All P p (x ∷ xs) {a} h e = elim (Bool-cases (p x)) [
    | inl hit ↦ let same : x ≡ a = ground arith in subst P same h.0
    | inr miss ↦ find_first-All P p xs h.1 (ground arith)
  ]
