-- ===== src/Prelude/Member.antt =====
-- Membership of a list as data (the library's `Memᴰ`).
pub use mathlib.Core.List.{Memᴰ as Member}
use mathlib.Core.List.Memᴰ.{head, tail, not-nil}
use mathlib.Core.Path.{◌≡◌, refl, sym, subst, ap}
use mathlib.Core.Bool.{Bool, true}
use mathlib.Core.Logic.{inl, inr}
use mathlib.Core.List.{List, [], ◌∷◌, map}
use native.Mathlib.Omega.{arith}
use rumor_mill_ai.Prelude.Tests.{Bool-cases}
use rumor_mill_ai.Prelude.Query.{All, any, select}
use rumor_mill_ai.Prelude.Order.{insert_by, sort_by}

module _ {ℓ} {A : Type ℓ} where
  pub All-Member {κ} : (P : A → Type κ) {x : A} {xs : List A} → All P xs → Member x xs → P x
  All-Member P h (head e) = subst P (sym e) h.0
  All-Member P h (tail m) = All-Member P h.1 m

  pub any-Member : (p : A → Bool) {x : A} {xs : List A} → Member x xs → p x ≡ true → any p xs ≡ true
  any-Member p (head e) h = ground (arith, subst (λ y. p y ≡ true) e h)
  any-Member p (tail m) h = ground (arith, any-Member p m h)

  pub Member-select :
      (p : A → Bool) {x : A} (xs : List A) → Member x xs → p x ≡ true → Member x (select p xs)
  Member-select p [] m h = absurd (not-nil m)
  Member-select p (y ∷ xs) (head e) h = rw (subst (λ z. p z ≡ true) e h) (head e)
  Member-select p (y ∷ xs) (tail m) h = elim (Bool-cases (p y)) [
    | inl kept ↦ rw kept (tail (Member-select p xs m h))
    | inr dropped ↦ rw dropped (Member-select p xs m h)
  ]

  pub Member-map {κ} :
      {B : Type κ} (f : A → B) {x : A} {xs : List A} → Member x xs → Member (f x) (map f xs)
  Member-map f (head e) = head (ap f e)
  Member-map f (tail m) = tail (Member-map f m)

  insert_by-self : (before : A → A → Bool) (x : A) (ys : List A) → Member x (insert_by before x ys)
  unfolding insert_by
  insert_by-self before x [] = head refl
  insert_by-self before x (y ∷ ys) = elim (Bool-cases (before x y)) [
    | inl first ↦ rw first (head refl)
    | inr later ↦ rw later (tail (insert_by-self before x ys))
  ]

  insert_by-Member :
      (before : A → A → Bool) (x : A) {z : A} (ys : List A)
      → Member z ys
      → Member z (insert_by before x ys)
  unfolding insert_by
  insert_by-Member before x [] m = absurd (not-nil m)
  insert_by-Member before x (y ∷ ys) m = elim (Bool-cases (before x y)) [
    | inl first ↦ rw first (tail m)
    | inr later ↦
        rw later (elim m [ head e ↦ head e | tail k ↦ tail (insert_by-Member before x ys k) ])
  ]

  -- Sorting loses nothing.
  pub sort_by-Member :
      (before : A → A → Bool) {z : A} (xs : List A) → Member z xs → Member z (sort_by before xs)
  unfolding sort_by
  sort_by-Member before [] m = absurd (not-nil m)
  sort_by-Member before (x ∷ xs) (head e) =
      subst (λ w. Member w (insert_by before x (sort_by before xs))) (sym e)
        (insert_by-self before x (sort_by before xs))
  sort_by-Member before (x ∷ xs) (tail m) =
      insert_by-Member before x (sort_by before xs) (sort_by-Member before xs m)
