-- ===== src/Jobs/Table.antt =====
-- The `jobs` table as a whole: its keys are unique, and each operation keeps every row valid.
use rumor_mill_ai.Prelude.{
  ℕ, ◌≡◌, refl, ◌∙◌, ap, Bool, true, false, not, ◌&&◌, ◌||◌, some, arith, String, List, [], ◌∷◌,
  ◌++◌, map, All, All-append, All-weaken, sym, map-append, All-update_where, map-update_where,
  update_where, find_first, any, contains, unique, str_eq, eq_iff, Bool-cases, inl, inr, ◌⊎◌,
}
use rumor_mill_ai.Jobs.Model.{JobModel}
use rumor_mill_ai.Jobs.Repo.{Table, has_id, has_key}
use rumor_mill_ai.Jobs.Invariant.{IsValidRow}

abbrev pub ids : Table → List ℕ
ids = map (λ m. m.id)

abbrev pub keys : Table → List String
keys = map (λ m. m.idempotency_key)

abbrev pub has_text : String → List String → Bool
has_text k [] = false
has_text k (x ∷ xs) = str_eq x k || has_text k xs

abbrev pub unique_texts : List String → Bool
unique_texts [] = true
unique_texts (x ∷ xs) = not (has_text x xs) && unique_texts xs

pub record IsValid (t : Table) : Type 0 where
  pub rows : All IsValidRow t
  pub ids_unique : unique (ids t) ≡ true
  pub keys_unique : unique_texts (keys t) ≡ true

-- No row has the identifier.
pub no_row : (i : ℕ) (t : Table) → contains i (ids t) ≡ false → All (λ x. has_id i x ≡ false) t
no_row i [] h = tt
no_row i (x ∷ t) h = (ground arith, no_row i t (ground arith))

found_contains :
    (i : ℕ) (q : JobModel → Bool) (t : Table) {m : JobModel}
    → find_first (λ x. has_id i x && q x) t ≡ some m
    → contains i (ids t) ≡ true
found_contains i q [] e = cc
found_contains i q (x ∷ t) {m} e = ground (arith, found_contains i q t {m = m})

-- With unique identifiers, a row found by its identifier is the only one that carries it.
pub found_unique :
    (i : ℕ) (q : JobModel → Bool) (t : Table) {m : JobModel}
    → unique (ids t) ≡ true
    → find_first (λ x. has_id i x && q x) t ≡ some m
    → All (λ x. (has_id i x ≡ false) ⊎ (x ≡ m)) t
found_unique i q [] u e = cc
found_unique i q (x ∷ t) {m} u e = elim (Bool-cases (has_id i x && q x)) [
  | inl hit ↦ (
    inr (ground arith),
    All-weaken (λ y. has_id i y ≡ false) (λ y. (has_id i y ≡ false) ⊎ (y ≡ m)) (λ y h. inl h) t
        (no_row i t (ground arith)),
  )
  | inr miss ↦ (
    inl (ground (arith, found_contains i q t {m = m})),
    found_unique i q t (ground arith) (ground arith),
  )
]

contains-append :
    (a : ℕ) (xs ys : List ℕ) → contains a (xs ++ ys) ≡ (contains a xs || contains a ys)
contains-append a [] ys = refl
contains-append a (x ∷ xs) ys = ground (arith, contains-append a xs ys)

unique-snoc :
    (xs : List ℕ) (a : ℕ) → unique xs ≡ true → contains a xs ≡ false → unique (xs ++ a ∷ []) ≡ true
unique-snoc [] a u h = refl
unique-snoc (x ∷ xs) a u h = ground (arith, contains-append x xs (a ∷ []), unique-snoc xs a)

has_text-append :
    (a : String) (xs ys : List String) → has_text a (xs ++ ys) ≡ (has_text a xs || has_text a ys)
has_text-append a [] ys = refl
has_text-append a (x ∷ xs) ys = ground (arith, has_text-append a xs ys)

unique_texts-snoc :
    (xs : List String) (a : String)
    → unique_texts xs ≡ true
    → has_text a xs ≡ false
    → unique_texts (xs ++ a ∷ []) ≡ true
unique_texts-snoc [] a u h = refl
unique_texts-snoc (x ∷ xs) a u h =
    ground (arith, has_text-append x xs (a ∷ []), unique_texts-snoc xs a, eq_iff x a, eq_iff a x)

any-has_text : (k : String) (t : Table) → any (has_key k) t ≡ has_text k (keys t)
any-has_text k [] = refl
any-has_text k (x ∷ t) = ap (λ b. str_eq x.idempotency_key k || b) (any-has_text k t)

-- An update that keeps identifiers and keys, and takes valid rows to valid rows.
pub update-IsValid :
    (p : JobModel → Bool) (f : JobModel → JobModel)
    → ((m : JobModel) → (f m).id ≡ m.id)
    → ((m : JobModel) → (f m).idempotency_key ≡ m.idempotency_key)
    → ((m : JobModel) → IsValidRow m → p m ≡ true → IsValidRow (f m))
    → (t : Table) → IsValid t
    → IsValid (update_where p f t)
update-IsValid p f same_id same_key keep t v = record {
  rows = All-update_where IsValidRow p f keep t v.rows;
  ids_unique = ap unique (map-update_where (λ m. m.id) p f same_id t) ∙ v.ids_unique;
  keys_unique =
      ap unique_texts (map-update_where (λ m. m.idempotency_key) p f same_key t) ∙ v.keys_unique;
}

pub append-IsValid :
    (t : Table) (m : JobModel)
    → IsValidRow m
    → contains m.id (ids t) ≡ false
    → any (has_key m.idempotency_key) t ≡ false
    → IsValid t
    → IsValid (t ++ m ∷ [])
append-IsValid t m good new absent v = record {
  rows = All-append IsValidRow t (m ∷ []) v.rows (good, tt);
  ids_unique = rw (map-append (λ x. x.id) t (m ∷ [])) (unique-snoc (ids t) m.id v.ids_unique new);
  keys_unique = rw (map-append (λ x. x.idempotency_key) t (m ∷ [])) (
      unique_texts-snoc (keys t) m.idempotency_key v.keys_unique
        (sym (any-has_text m.idempotency_key t) ∙ absent));
}
