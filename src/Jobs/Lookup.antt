-- ===== src/Jobs/Lookup.antt =====
-- The table as a map from identifiers to rows: what an update by identifier finds and changes.
use rumor_mill_ai.Prelude.{
  ℕ, ◌≡◌, refl, ◌∙◌, ap, Bool, true, false, ◌&&◌, none, some, arith, [], ◌∷◌, update_where,
  count_where, find_first, find_first_sound, update_where_none, contains, unique, if◌then◌else◌,
  Bool-cases, inl, inr,
}
use rumor_mill_ai.Jobs.Model.{JobModel}
use rumor_mill_ai.Jobs.Repo.{Table, has_id, find_row}
use rumor_mill_ai.Jobs.Table.{ids}

find_row-absent : (i : ℕ) (t : Table) → contains i (ids t) ≡ false → find_row i t ≡ none
find_row-absent i [] h = refl
find_row-absent i (x ∷ t) h = ground (arith, find_row-absent i t)

find-absent :
    (i : ℕ) (q : JobModel → Bool) (t : Table)
    → contains i (ids t) ≡ false
    → find_first (λ x. has_id i x && q x) t ≡ none
find-absent i q [] h = refl
find-absent i q (x ∷ t) h = ground (arith, find-absent i q t)

module _ (i : ℕ) (q : JobModel → Bool) where
  abbrev at_id : JobModel → Bool
  at_id m = has_id i m && q m

  count-absent : (t : Table) → contains i (ids t) ≡ false → count_where at_id t ≡ 0
  count-absent [] h = refl
  count-absent (x ∷ t) h = ground (arith, count-absent t)

  -- A test by identifier meets no row but the one that the identifier finds.
  pub count-none : (t : Table) → find_row i t ≡ none → count_where at_id t ≡ 0
  count-none [] h = refl
  count-none (x ∷ t) h = ground (arith, count-none t)

  pub count-some :
      (t : Table) {m : JobModel}
      → unique (ids t) ≡ true
      → find_row i t ≡ some m
      → count_where at_id t ≡ (if q m then 1 else 0)
  count-some [] u h = cc
  count-some (x ∷ t) {m} u h = elim (Bool-cases (has_id i x)) [
    | inl hit ↦ let same : x ≡ m = ground arith in rw (hit, count-absent t (ground arith), same)
    | inr miss ↦ rw miss (count-some t (ground arith) (ground arith))
  ]

module _ (i : ℕ) (q : JobModel → Bool) (f : JobModel → JobModel) where
  update-absent : (t : Table) → contains i (ids t) ≡ false → update_where (has_id i) f t ≡ t
  update-absent [] h = refl
  update-absent (x ∷ t) h = ground (arith, update-absent t)

  -- An update by identifier and test is one by identifier, if the row passes the test.
  pub update-found :
      (t : Table) {m : JobModel}
      → unique (ids t) ≡ true
      → find_row i t ≡ some m
      → q m ≡ true
      → update_where (at_id i q) f t ≡ update_where (has_id i) f t
  update-found [] u h k = refl
  update-found (x ∷ t) {m} u h k = elim (Bool-cases (has_id i x)) [
    | inl hit ↦
        let same : x ≡ m = ground arith in
        let pass : q x ≡ true = ap q same ∙ k in
        rw (
          hit,
          pass,
          update-absent t (ground arith),
          update_where_none (at_id i q) f t (count-absent i q t (ground arith)),
        )
    | inr miss ↦ rw miss (ap (◌∷◌ x) (update-found t (ground arith) (ground arith) k))
  ]

-- What an identifier finds after an update of the rows that pass a test.
pub find_row-update :
    (j : ℕ) (p : JobModel → Bool) (f : JobModel → JobModel)
    → ((m : JobModel) → (f m).id ≡ m.id)
    → (t : Table) {m : JobModel} → find_row j t ≡ some m
    → find_row j (update_where p f t) ≡ some (if p m then f m else m)
find_row-update j p f same [] h = cc
find_row-update j p f same (x ∷ t) {m} h = elim (Bool-cases (has_id j x)) [
  | inl hit ↦ let e : x ≡ m = ground arith in rw (← e) (ground (arith, same x))
  | inr miss ↦ ground (arith, same x, find_row-update j p f same t {m = m} (ground arith))
]

pub has_id-found : (i : ℕ) (t : Table) {m : JobModel} → find_row i t ≡ some m → has_id i m ≡ true
has_id-found i t h = find_first_sound (has_id i) t h

-- A further test that the row passes does not change what is found.
pub find-at :
    (i : ℕ) (q : JobModel → Bool) (t : Table) {m : JobModel}
    → find_row i t ≡ some m
    → q m ≡ true
    → find_first (λ x. has_id i x && q x) t ≡ some m
find-at i q [] h k = cc
find-at i q (x ∷ t) {m} h k = elim (Bool-cases (has_id i x)) [
  | inl hit ↦ let same : x ≡ m = ground arith in rw (hit, ap q same ∙ k, same)
  | inr miss ↦ rw miss (find-at i q t (ground arith) k)
]

-- Nothing is found by the identifier and a test that the row fails.
pub find-none :
    (i : ℕ) (q : JobModel → Bool) (t : Table) {m : JobModel}
    → unique (ids t) ≡ true
    → find_row i t ≡ some m
    → q m ≡ false
    → find_first (λ x. has_id i x && q x) t ≡ none
find-none i q [] u h k = cc
find-none i q (x ∷ t) {m} u h k = elim (Bool-cases (has_id i x)) [
  | inl hit ↦
      let same : x ≡ m = ground arith in rw (hit, ap q same ∙ k) (find-absent i q t (ground arith))
  | inr miss ↦ rw miss (find-none i q t (ground arith) (ground arith) k)
]
