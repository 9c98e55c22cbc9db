-- ===== src/Scenes/Indexes.antt =====
-- Comprehensions and indexes of Scenes/Build: what each element has, and where an index leads.
use rumor_mill_ai.Prelude.{
  ℕ, zero, suc, ◌-◌, ◌≡◌, true, Option, none, some, List, [], ◌∷◌, map, length, get_elem?, contains,
  Result, ok, ◌>>=◌, >>=-eq-ok, arith, All,
}
use rumor_mill_ai.Prelude.Int.{ℤ, pos, negsuc}
use rumor_mill_ai.Scenes.Build.{item, each, each_from, source}

-- The elements that a comprehension builds have what its function gives to each.
pub each_from-All {κ μ} :
    {A B : Type 0} (P : A → Type κ) (Q : B → Type μ) (f : ℕ → A → Result B)
    → ((n : ℕ) (x : A) (y : B) → P x → f n x ≡ ok y → Q y)
    → (n : ℕ) (xs : List A) {ys : List B} → All P xs
    → each_from f n xs ≡ ok ys
    → All Q ys
each_from-All P Q f step n [] given h = ground arith
each_from-All P Q f step n (x ∷ xs) given h =
    let (y, first, h₁) = >>=-eq-ok (f n x) (λ y. each_from f (suc n) xs >>= λ ys. ok (y ∷ ys)) h in
    let (rest, others, all_built) = >>=-eq-ok (each_from f (suc n) xs) (λ ys. ok (y ∷ ys)) h₁ in
    ground (arith, step n x y given.0 first, each_from-All P Q f step (suc n) xs given.1 others)

any_given : {A : Type 0} (xs : List A) → All (λ x. Unit {0}) xs
any_given [] = tt
any_given (x ∷ xs) = (tt, any_given xs)

-- The same, of whatever elements.
pub each_from-built {κ} :
    {A B : Type 0} (Q : B → Type κ) (f : ℕ → A → Result B)
    → ((n : ℕ) (x : A) (y : B) → f n x ≡ ok y → Q y)
    → (n : ℕ) (xs : List A) {ys : List B} → each_from f n xs ≡ ok ys
    → All Q ys
each_from-built Q f step n xs h =
    each_from-All (λ x. Unit {0}) Q f (λ n x y given built. step n x y built) n xs (any_given xs) h

pub each-All {κ} :
    {A B : Type 0} (Q : B → Type κ) (f : A → Result B)
    → ((x : A) (y : B) → f x ≡ ok y → Q y)
    → (xs : List A) {ys : List B} → each f xs ≡ ok ys
    → All Q ys
each-All Q f step [] h = ground arith
each-All Q f step (x ∷ xs) h =
    let (y, first, h₁) = >>=-eq-ok (f x) (λ y. each f xs >>= λ ys. ok (y ∷ ys)) h in
    let (rest, others, all_built) = >>=-eq-ok (each f xs) (λ ys. ok (y ∷ ys)) h₁ in
    ground (arith, step x y first, each-All Q f step xs others)

get_elem?-contains :
    {A : Type 0} (id : A → ℕ) (xs : List A) (i : ℕ) {x : A}
    → get_elem? xs i ≡ some x
    → contains (id x) (map id xs) ≡ true
get_elem?-contains id [] i h = cc
get_elem?-contains id (y ∷ ys) zero h = ground arith
get_elem?-contains id (y ∷ ys) (suc i) h = ground (arith, get_elem?-contains id ys i h)

item-contains :
    {A : Type 0} (id : A → ℕ) (xs : List A) (i : ℤ) {x : A}
    → item xs i ≡ ok x
    → contains (id x) (map id xs) ≡ true
item-contains id xs (pos i) h = get_elem?-contains id xs i (ground arith)
item-contains id xs (negsuc i) h = get_elem?-contains id xs (length xs - suc i) (ground arith)

pub id_at-contains :
    {A : Type 0} (id : A → ℕ) (xs : List A) (i : ℤ) (n : ℕ)
    → (item xs i >>= λ x. ok (id x)) ≡ ok n
    → contains n (map id xs) ≡ true
id_at-contains id xs i n h =
    let (x, found, same) = >>=-eq-ok (item xs i) (λ x. ok (id x)) h in
    ground (arith, item-contains id xs i found)

-- An identifier, if there is one, is among those of a list.
abbrev pub FromIds : Option ℕ → List ℕ → Type 0
FromIds none ids = Unit
FromIds (some i) ids = contains i ids ≡ true

pub source-FromIds :
    {A : Type 0} (id : A → ℕ) (xs : List A) (i : Option ℕ) {o : Option ℕ}
    → source id xs i ≡ ok o
    → FromIds o (map id xs)
source-FromIds id xs none h = ground arith
source-FromIds id xs (some i) h =
    let (x, found, same) = >>=-eq-ok (item xs (pos i)) (λ x. ok (some (id x))) h in
    ground (arith, item-contains id xs (pos i) found)
