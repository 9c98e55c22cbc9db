-- ===== src/Prelude/Sets.antt =====
-- Boolean tests over lists against membership as data.
use mathlib.Core.List.Memᴰ.{head, tail}
use mathlib.Core.Path.{◌≡◌, refl}
use mathlib.Core.Logic.{inl, inr}
use mathlib.Core.Bool.{Bool, true, false, ◌||◌}
use mathlib.Core.List.{List, [], ◌∷◌, ◌++◌, map}
use Prim.Native.Nat.{ℕ}
use native.Mathlib.Omega.{arith}
use rumor_mill_ai.Prelude.Tests.{Bool-cases, ◌==◌}
use rumor_mill_ai.Prelude.Query.{All, All-weaken, any, concat_map, select, contains, subset}
use rumor_mill_ai.Prelude.Member.{Member}

pub Member_of_contains : (a : ℕ) (xs : List ℕ) → contains a xs ≡ true → Member a xs
Member_of_contains a [] h = absurd (cc)
Member_of_contains a (x ∷ xs) h = elim (Bool-cases (a == x)) [
  | inl same ↦ head (ground (arith, same))
  | inr other ↦ tail (Member_of_contains a xs (ground (arith, h, other)))
]

pub contains_of_Member : {a : ℕ} {xs : List ℕ} → Member a xs → contains a xs ≡ true
contains_of_Member (head e) = ground (arith, e)
contains_of_Member (tail m) = ground (arith, contains_of_Member m)

-- `set(xs) <= set(ys)`: every element is an element.
pub subset_sound : (xs ys : List ℕ) → subset xs ys ≡ true → All (λ x. Member x ys) xs
subset_sound [] ys h = tt
subset_sound (x ∷ xs) ys h =
    (Member_of_contains x ys (ground (arith, h)), subset_sound xs ys (ground (arith, h)))

pub subset_complete : (xs ys : List ℕ) → All (λ x. Member x ys) xs → subset xs ys ≡ true
subset_complete [] ys h = refl
subset_complete (x ∷ xs) ys h = ground (arith, contains_of_Member h.0, subset_complete xs ys h.1)

module _ {ℓ} {A : Type ℓ} where
  pub none_pass : (p : A → Bool) (xs : List A) → any p xs ≡ false → All (λ x. p x ≡ false) xs
  none_pass p [] h = tt
  none_pass p (x ∷ xs) h = (ground (arith, h), none_pass p xs (ground (arith, h)))

  pub any_none : (p : A → Bool) (xs : List A) → All (λ x. p x ≡ false) xs → any p xs ≡ false
  any_none p [] h = refl
  any_none p (x ∷ xs) h = ground (arith, h.0, any_none p xs h.1)

module _ {ℓ} {A : Type ℓ} where
  -- What a test finds among the images of some elements.
  pub none_selected {κ} :
      {B : Type κ} (p : B → Bool) (f : A → B) (q : A → Bool) (xs : List A)
      → any p (map f (select q xs)) ≡ false
      → All (λ x. q x ≡ true → p (f x) ≡ false) xs
  none_selected p f q [] h = tt
  none_selected p f q (x ∷ xs) h = elim (Bool-cases (q x)) [
    | inl chosen ↦
        let split = none_pass p (f x ∷ map f (select q xs)) (rw chosen at h) in
        ((λ _. split.0), none_selected p f q xs (any_none p (map f (select q xs)) split.1))
    | inr left ↦ ((λ chosen. cc), none_selected p f q xs (rw left at h))
  ]

  pub selected_none {κ} :
      {B : Type κ} (p : B → Bool) (f : A → B) (q : A → Bool) (xs : List A)
      → All (λ x. q x ≡ true → p (f x) ≡ false) xs
      → any p (map f (select q xs)) ≡ false
  selected_none p f q [] h = refl
  selected_none p f q (x ∷ xs) h = elim (Bool-cases (q x)) [
    | inl chosen ↦ rw chosen (ground (arith, h.0 chosen, selected_none p f q xs h.1))
    | inr left ↦ rw left (selected_none p f q xs h.1)
  ]

contains-append :
    (a : ℕ) (xs ys : List ℕ) → contains a (xs ++ ys) ≡ (contains a xs || contains a ys)
contains-append a [] ys = refl
contains-append a (x ∷ xs) ys = ground (arith, contains-append a xs ys)

-- An element of a union belongs to one of its sets, and conversely.
pub contains-concat_map :
    {A : Type 0} (a : ℕ) (f : A → List ℕ) (xs : List A)
    → All (λ x. Member a (f x) → contains a (concat_map f xs) ≡ true) xs
contains-concat_map a f [] = tt
contains-concat_map {A} a f (x ∷ xs) = (
  (λ m. rw (contains-append a (f x) (concat_map f xs), contains_of_Member m)),
  All-weaken (λ y. Member a (f y) → contains a (concat_map f xs) ≡ true)
      (λ y. Member a (f y) → contains a (concat_map f (x ∷ xs)) ≡ true)
      (λ y h m. ground (arith, h m, contains-append a (f x) (concat_map f xs))) xs
      (contains-concat_map a f xs),
)

pub concat_map_elim {κ} :
    {A : Type 0} {K : Type κ} (a : ℕ) (f : A → List ℕ) (xs : List A)
    → All (λ x. Member a (f x) → K) xs
    → contains a (concat_map f xs) ≡ true
    → K
concat_map_elim a f [] h m = absurd (cc)
concat_map_elim a f (x ∷ xs) h m = elim (Bool-cases (contains a (f x))) [
  | inl here ↦ h.0 (Member_of_contains a (f x) here)
  | inr later ↦
      concat_map_elim a f xs h.1
        (ground (arith, later, m, contains-append a (f x) (concat_map f xs)))
]
