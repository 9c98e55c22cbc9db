-- ===== src/Prelude/Query.antt =====
-- Boolean tests over lists, and tables as lists of rows: WHERE, UPDATE and row counts.
use Prim.Native.Nat.{ℕ, suc}
use mathlib.Core.Path.{◌≡◌, refl, subst}
use mathlib.Core.Logic.{inl, inr}
use mathlib.Core.Bool.{Bool, true, false, ◌&&◌, ◌||◌, not}
use mathlib.Core.Option.{Option, none, some}
use mathlib.Core.List.{List, [], ◌∷◌, ◌++◌, map}
use native.Mathlib.Omega.{arith}
use rumor_mill_ai.Prelude.Tests.{Bool-cases, if◌then◌else◌, ◌==◌}

module _ {ℓ} {A : Type ℓ} where
  abbrev pub select : (A → Bool) → List A → List A
  select p [] = []
  select p (x ∷ xs) = let rest = select p xs in if p x then x ∷ rest else rest

  abbrev pub any : (A → Bool) → List A → Bool
  any p [] = false
  any p (x ∷ xs) = p x || any p xs

  abbrev pub all : (A → Bool) → List A → Bool
  all p [] = true
  all p (x ∷ xs) = p x && all p xs

  abbrev pub find_first : (A → Bool) → List A → Option A
  find_first p [] = none
  find_first p (x ∷ xs) = if p x then some x else find_first p xs

  -- UPDATE … SET f WHERE p, and its row count.
  abbrev pub update_where : (A → Bool) → (A → A) → List A → List A
  update_where p f [] = []
  update_where p f (x ∷ xs) = (if p x then f x else x) ∷ update_where p f xs

  abbrev pub count_where : (A → Bool) → List A → ℕ
  count_where p [] = 0
  count_where p (x ∷ xs) = let rest = count_where p xs in if p x then suc rest else rest

  abbrev pub filter_map : {B : Type ℓ} → (A → Option B) → List A → List B
  filter_map f [] = []
  filter_map f (x ∷ xs) = elim (f x) [ none ↦ filter_map f xs | some y ↦ y ∷ filter_map f xs ]

  -- Every element satisfies the predicate.
  abbrev pub All {κ} : (A → Type κ) → List A → Type κ
  All P [] = Unit
  All P (x ∷ xs) = P x × All P xs

  pub All-append {κ} : (P : A → Type κ) (xs ys : List A) → All P xs → All P ys → All P (xs ++ ys)
  All-append P [] ys h k = k
  All-append P (x ∷ xs) ys h k = (h.0, All-append P xs ys h.1 k)

  pub All-of_append {κ} : (P : A → Type κ) (xs ys : List A) → All P (xs ++ ys) → All P xs × All P ys
  All-of_append P [] ys h = (tt, h)
  All-of_append P (x ∷ xs) ys h = let rest = All-of_append P xs ys h.1 in ((h.0, rest.0), rest.1)

  pub All-select {κ} :
      (P : A → Type κ) (p : A → Bool) (xs : List A) → All P xs → All P (select p xs)
  All-select P p [] h = tt
  All-select P p (x ∷ xs) h = ground (arith, All-select P p xs h.1)

  pub All-weaken {κ μ} :
      (P : A → Type κ) (Q : A → Type μ)
      → ((x : A) → P x → Q x)
      → (xs : List A) → All P xs
      → All Q xs
  All-weaken P Q weaken [] h = tt
  All-weaken P Q weaken (x ∷ xs) h = (weaken x h.0, All-weaken P Q weaken xs h.1)

  pub All-weaken_both {κ μ ν} :
      (P : A → Type κ) (R : A → Type μ) (Q : A → Type ν)
      → ((x : A) → P x → R x → Q x)
      → (xs : List A) → All P xs
      → All R xs
      → All Q xs
  All-weaken_both P R Q weaken [] h k = tt
  All-weaken_both P R Q weaken (x ∷ xs) h k =
      (weaken x h.0 k.0, All-weaken_both P R Q weaken xs h.1 k.1)

  pub All-of_select {κ} :
      (P : A → Type κ) (p : A → Bool) (xs : List A)
      → All P (select p xs)
      → All (λ x. p x ≡ true → P x) xs
  All-of_select P p [] h = tt
  All-of_select P p (x ∷ xs) h = elim (Bool-cases (p x)) [
    | inl pass ↦
        let split : P x × All P (select p xs) =
          subst (λ b. All P (if b then x ∷ select p xs else select p xs)) pass h in
        ((λ _. split.0), All-of_select P p xs split.1)
    | inr drop ↦ (
      (λ pass. cc),
      All-of_select P p xs (subst (λ b. All P (if b then x ∷ select p xs else select p xs)) drop h),
    )
  ]

  pub select-append :
      (p : A → Bool) (xs ys : List A) → select p (xs ++ ys) ≡ select p xs ++ select p ys
  select-append p [] ys = refl
  select-append p (x ∷ xs) ys = ground (arith, select-append p xs ys)

  -- A test that an element passes is passed by some element.
  pub any_member : (xs : List A) → All (λ x. (q : A → Bool) → q x ≡ true → any q xs ≡ true) xs
  any_member [] = tt
  any_member (x ∷ xs) = (
    λ q h. ground arith,
    All-weaken (λ y. (q : A → Bool) → q y ≡ true → any q xs ≡ true)
        (λ y. (q : A → Bool) → q y ≡ true → any q (x ∷ xs) ≡ true)
        (λ y h q k. ground (arith, h q k)) xs (any_member xs),
  )

  pub any-select_nil : (p : A → Bool) (xs : List A) → select p xs ≡ [] → any p xs ≡ false
  any-select_nil p [] h = refl
  any-select_nil p (x ∷ xs) h = ground (arith, any-select_nil p xs)

  pub select_sound : (p : A → Bool) (xs : List A) → All (λ x. p x ≡ true) (select p xs)
  select_sound p [] = tt
  select_sound p (x ∷ xs) = ground (arith, select_sound p xs)

-- `x in xs` for numbers.
abbrev pub contains : ℕ → List ℕ → Bool
contains a [] = false
contains a (x ∷ xs) = a == x || contains a xs

-- `set(xs) <= set(ys)`
abbrev pub subset : List ℕ → List ℕ → Bool
subset xs ys = all (λ x. contains x ys) xs

-- `len(set(xs)) == len(xs)`
abbrev pub unique : List ℕ → Bool
unique [] = true
unique (x ∷ xs) = not (contains x xs) && unique xs

-- `dict.fromkeys(xs)`: the first occurrences, in order, of what is not yet `seen`.
abbrev pub dedup_from : List ℕ → List ℕ → List ℕ
dedup_from seen [] = []
dedup_from seen (x ∷ xs) =
    let rest = dedup_from seen xs in
    let fresh = x ∷ dedup_from (x ∷ seen) xs in if contains x seen then rest else fresh

abbrev pub concat_map : {A : Type 0} → (A → List ℕ) → List A → List ℕ
concat_map f [] = []
concat_map f (x ∷ xs) = f x ++ concat_map f xs

pub All-map {ℓ μ κ} :
    {A : Type ℓ} {B : Type μ} (P : B → Type κ) (f : A → B) (xs : List A)
    → All (λ x. P (f x)) xs
    → All P (map f xs)
All-map P f [] h = tt
All-map P f (x ∷ xs) h = (h.0, All-map P f xs h.1)
