-- ===== src/Jobs/Claim.antt =====
-- What `claim_due` claims: the earliest claimable row, and nothing only if there is none.
use rumor_mill_ai.Prelude.{
  ℕ, ◌≡◌, refl, ◌∙◌, Bool, true, false, ◌&&◌, Option, none, some, arith, String, List, [], ◌∷◌, map,
  All, All-weaken_both, All-select, All-of_select, any-select_nil, select, any, take, select_sound,
  update_where, count_where, find_first_sound, update_where_none, unique, Bool-cases, inl, inr, ◌⊎◌,
  sym, subst,
}
use rumor_mill_ai.Prelude.Order.{sort_by, sort_by-least, sort_by-All, sort_by-eq-nil}
use rumor_mill_ai.Jobs.Model.{JobModel, JobRecord, to_record}
use rumor_mill_ai.Jobs.Repo.{
  Table, has_id, find_row, get, claimable, claimed, claim_order, candidate_ids, claim_first,
  claim_due_from, claim_due,
}
use rumor_mill_ai.Jobs.Table.{ids, no_row}
use rumor_mill_ai.Jobs.Lookup.{count-none, count-some, update-found, find_row-update}

claim_order-total : (a b : JobModel) → claim_order a b ≡ false → claim_order b a ≡ true
claim_order-total a b h = ground arith

claim_order_trans :
    (a b c : JobModel) → claim_order a b ≡ true → claim_order b c ≡ true → claim_order a c ≡ true
claim_order_trans a b c h k = ground arith

-- Each row is the one that its identifier finds.
rows_found : (t : Table) → unique (ids t) ≡ true → All (λ x. find_row x.id t ≡ some x) t
rows_found [] u = tt
rows_found (h ∷ t) u = (
  ground arith,
  All-weaken_both (λ x. has_id h.id x ≡ false) (λ x. find_row x.id t ≡ some x)
      (λ x. find_row x.id (h ∷ t) ≡ some x) (λ x other e. ground arith) t
      (no_row h.id t (ground arith)) (rows_found t (ground arith)),
)

-- What a claim by `worker_id` of the row `m` returns, and what it makes of the table.
abbrev pub ClaimOf : String → ℕ → ℕ → Table → Option JobRecord × Table → JobModel → Type 0
ClaimOf worker_id now lease_until t (found, t') m =
    (find_row m.id t ≡ some m)
    × (claimable now m ≡ true)
    × (found ≡ some (to_record (claimed worker_id now lease_until m)))
    × (t' ≡ update_where (has_id m.id) (claimed worker_id now lease_until) t)

module _ (worker_id : String) (now lease_until : ℕ) where
  -- What the claimed row's identifier finds after the update.
  claimed-found :
      (t : Table) (m : JobModel) (p : JobModel → Bool)
      → find_row m.id t ≡ some m
      → p m ≡ true
      → get m.id (update_where p (claimed worker_id now lease_until) t)
        ≡ some (to_record (claimed worker_id now lease_until m))
  unfolding get
  claimed-found t m p e h = ground (
    arith,
    find_row-update m.id p (claimed worker_id now lease_until) (λ x. unfold claimed in refl) t e,
  )

  -- A candidate that is still claimable is claimed at once.
  claim_first-hit :
      (is : List ℕ) (t : Table) (m : JobModel)
      → unique (ids t) ≡ true
      → find_row m.id t ≡ some m
      → claimable now m ≡ true
      → ClaimOf worker_id now lease_until t (claim_first worker_id now lease_until (m.id ∷ is) t) m
  unfolding claim_first
  claim_first-hit is t m u e h =
      let p : (JobModel → Bool) = λ x. has_id m.id x && claimable now x in
      let one : count_where p t ≡ 1 = count-some m.id (claimable now) t u e ∙ rw h in
      rw one (
        e,
        h,
        claimed-found t m p e (ground arith),
        update-found m.id (claimable now) (claimed worker_id now lease_until) t u e h,
      )

  -- Nothing was claimed and nothing was changed, or one row was claimed.
  abbrev pub Claims : Table → Option JobRecord × Table → Type 0
  Claims t r = (r ≡ (none, t)) ⊎ ((m : JobModel) × ClaimOf worker_id now lease_until t r m)

  -- Whatever the candidates, and whatever has changed since they were selected: what is
  -- returned was claimable when it was claimed, and without a claim the table is unchanged.
  pub claim_first_lem :
      (is : List ℕ) (t : Table)
      → unique (ids t) ≡ true
      → Claims t (claim_first worker_id now lease_until is t)
  unfolding claim_first
  claim_first_lem [] t u = inl refl
  claim_first_lem (i ∷ is) t u = candidate (find_row i t) refl (claim_first_lem is t u)
    where
      p : JobModel → Bool
      p = λ x. has_id i x && claimable now x

      skip :
          count_where p t ≡ 0
          → Claims t (claim_first worker_id now lease_until is t)
          → Claims t (claim_first worker_id now lease_until (i ∷ is) t)
      skip zero_rows rest =
          rw (zero_rows, update_where_none p (claimed worker_id now lease_until) t zero_rows) rest

      candidate :
          (o : Option JobModel)
          → find_row i t ≡ o
          → Claims t (claim_first worker_id now lease_until is t)
          → Claims t (claim_first worker_id now lease_until (i ∷ is) t)
      candidate none e rest = skip (count-none i (claimable now) t e) rest
      candidate (some m) e rest = elim (Bool-cases (claimable now m)) [
        | inl ready ↦
            let same : m.id ≡ i = ground (arith, find_first_sound (has_id i) t e) in
            subst (λ j. Claims t (claim_first worker_id now lease_until (j ∷ is) t)) same
              (inr (
                m,
                claim_first-hit is t m u (subst (λ j. find_row j t ≡ some m) (sym same) e) ready,
              ))
        | inr taken ↦ skip (count-some i (claimable now) t u e ∙ rw taken) rest
      ]

  -- Even where other workers have changed the table since the candidates were selected,
  -- `claim_due` claims at most one row, one that is claimable in the table that it meets.
  pub claim_due_from-Claims :
      (snapshot t : Table)
      → unique (ids t) ≡ true
      → Claims t (claim_due_from snapshot worker_id now lease_until t)
  unfolding claim_due_from
  claim_due_from-Claims snapshot t u = claim_first_lem (candidate_ids now snapshot) t u

  -- Nothing is claimable and nothing is done, or the earliest claimable row is claimed.
  abbrev pub ClaimsEarliest : Table → Option JobRecord × Table → Type 0
  ClaimsEarliest t r =
      (r ≡ (none, t)) × (any (claimable now) t ≡ false)
      ⊎ ((m : JobModel) × ClaimOf worker_id now lease_until t r m
          × All (λ x. claimable now x ≡ true → claim_order m x ≡ true) t)

  -- Where nothing else writes the table, `claim_due` returns nothing exactly if no row is
  -- claimable, and otherwise claims a row that comes first by available_at and created_at.
  pub claim_due-earliest :
      (t : Table) → unique (ids t) ≡ true → ClaimsEarliest t (claim_due worker_id now lease_until t)
  unfolding claim_due claim_due_from candidate_ids
  claim_due-earliest t u = ordered (sort_by claim_order ready) refl
    where
      ready : Table
      ready = select (claimable now) t

      ordered :
          (l : Table)
          → sort_by claim_order ready ≡ l
          → ClaimsEarliest t (claim_first worker_id now lease_until (map (λ m. m.id) (take 10 l)) t)
      ordered [] e = inl (
        unfold claim_first in refl,
        any-select_nil (claimable now) t
            (sort_by-eq-nil claim_order claim_order-total claim_order_trans ready e),
      )
      ordered (m ∷ later) e =
          let found = subst (All (λ x. find_row x.id t ≡ some x)) e (
            sort_by-All claim_order (λ x. find_row x.id t ≡ some x) ready
              (All-select (λ x. find_row x.id t ≡ some x) (claimable now) t (rows_found t u))) in
          let passed = subst (All (λ x. claimable now x ≡ true)) e (
            sort_by-All claim_order (λ x. claimable now x ≡ true) ready
              (select_sound (claimable now) t)) in
          inr (
            m,
            claim_first-hit (map (λ x. x.id) (take 9 later)) t m u found.0 passed.0,
            All-of_select (λ x. claim_order m x ≡ true) (claimable now) t
                (sort_by-least claim_order claim_order-total claim_order_trans ready e),
          )
