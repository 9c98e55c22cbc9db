-- ===== src/Prelude/Order.antt =====
-- Python's `sorted`, a stable sort, as insertion by a Boolean order.
use rumor_mill_ai.Prelude.Tests.{if◌then◌else◌}
use mathlib.Core.Bool.{Bool}
use mathlib.Core.List.{List, [], ◌∷◌, Perm}
use mathlib.Core.List.Perm
use mathlib.Core.Path.{◌≡◌, refl, sym, subst}
use mathlib.Core.Bool.{true, false}
use mathlib.Core.Logic.{◌≢◌, inl, inr}
use native.Mathlib.Omega.{arith}
use rumor_mill_ai.Prelude.Tests.{Bool-cases}
use rumor_mill_ai.Prelude.Query.{All, All-weaken}

module _ {ℓ} {A : Type ℓ} (before : A → A → Bool) where
  -- `before x y` says that `x` may stand ahead of `y`.
  unfoldable pub insert_by : A → List A → List A
  insert_by x [] = x ∷ []
  insert_by x (y ∷ ys) = if before x y then x ∷ y ∷ ys else y ∷ insert_by x ys

  unfoldable pub sort_by : List A → List A
  unfolding insert_by
  sort_by [] = []
  sort_by (x ∷ xs) = insert_by x (sort_by xs)

  pub insert_by-perm : (x : A) (ys : List A) → Perm (insert_by x ys) (x ∷ ys)
  unfolding insert_by
  insert_by-perm x [] = Perm.refl (x ∷ [])
  insert_by-perm x (y ∷ ys) = ground (
    arith,
    Perm.refl (x ∷ y ∷ ys),
    Perm.trans (Perm.cons y (insert_by-perm x ys)) (Perm.swap x y ys),
  )

  pub sort_by-perm : (xs : List A) → Perm (sort_by xs) xs
  unfolding sort_by
  sort_by-perm [] = Perm.refl []
  sort_by-perm (x ∷ xs) = Perm.trans (insert_by-perm x (sort_by xs)) (Perm.cons x (sort_by-perm xs))

  pub insert_by-All {κ} :
      (P : A → Type κ) (x : A) (ys : List A) → P x → All P ys → All P (insert_by x ys)
  unfolding insert_by
  insert_by-All P x [] h k = (h, tt)
  insert_by-All P x (y ∷ ys) h k = ground (arith, insert_by-All P x ys h k.1)

  pub sort_by-All {κ} : (P : A → Type κ) (xs : List A) → All P xs → All P (sort_by xs)
  unfolding sort_by
  sort_by-All P [] h = tt
  sort_by-All P (x ∷ xs) h = insert_by-All P x (sort_by xs) h.0 (sort_by-All P xs h.1)

  pub insert_by-ne-nil : (x : A) (ys : List A) → insert_by x ys ≢ []
  unfolding insert_by
  insert_by-ne-nil x [] h = cc
  insert_by-ne-nil x (y ∷ ys) h = ground arith

module _ {ℓ} {A : Type ℓ} (before : A → A → Bool)
    (total : (x y : A) → before x y ≡ false → before y x ≡ true)
    (transitive : (x y z : A) → before x y ≡ true → before y z ≡ true → before x z ≡ true) where
  abbrev LeastOf : List A → List A → Type 0
  LeastOf [] xs = Unit
  LeastOf (y ∷ ys) xs = All (λ x. before y x ≡ true) xs

  before_refl : (x : A) → before x x ≡ true
  before_refl x = elim (Bool-cases (before x x)) [ inl h ↦ h | inr h ↦ total x x h ]

  insert-LeastOf :
      (x : A) (ys xs : List A)
      → (ys ≡ [] → xs ≡ [])
      → LeastOf ys xs
      → LeastOf (insert_by before x ys) (x ∷ xs)
  unfolding insert_by
  insert-LeastOf x [] xs h k =
      (before_refl x, subst (All (λ z. before x z ≡ true)) (sym (h refl)) tt)
  insert-LeastOf x (y ∷ ys) xs h k = elim (Bool-cases (before x y)) [
    | inl first ↦ rw first (
      before_refl x,
      All-weaken (λ z. before y z ≡ true) (λ z. before x z ≡ true) (λ z. transitive x y z first) xs
          k,
    )
    | inr later ↦ rw later (total x y later, k)
  ]

  pub sort_by-eq-nil : (xs : List A) → sort_by before xs ≡ [] → xs ≡ []
  unfolding sort_by
  sort_by-eq-nil [] h = refl
  sort_by-eq-nil (x ∷ xs) h = absurd (insert_by-ne-nil before x (sort_by before xs) h)

  sort_by-LeastOf : (xs : List A) → LeastOf (sort_by before xs) xs
  unfolding sort_by
  sort_by-LeastOf [] = tt
  sort_by-LeastOf (x ∷ xs) =
      insert-LeastOf x (sort_by before xs) xs (sort_by-eq-nil xs) (sort_by-LeastOf xs)

  -- A sort's head stands before every element.
  pub sort_by-least :
      (xs : List A) {y : A} {ys : List A}
      → sort_by before xs ≡ y ∷ ys
      → All (λ x. before y x ≡ true) xs
  sort_by-least xs h = subst (λ l. LeastOf l xs) h (sort_by-LeastOf xs)
