-- ===== src/Jobs/Leases.antt =====
-- Leases: who may write a claimed row, and for how long.
use rumor_mill_ai.Prelude.{
  ℕ, ◌≡◌, ◌≢◌, refl, ap, sym, ◌∙◌, ◌&&◌, String, Bool, true, false, Option, some, raise, arith, inl,
  inr, Bool-cases, value_error, unique, update_where_none, map-update_where, eq_iff, count_where,
}
use rumor_mill_ai.Json.{Json}
use rumor_mill_ai.Jobs.Model.{JobModel, JobRecord}
use rumor_mill_ai.Jobs.Repo.{
  Table, find_row, has_id, leased_by, is_running, holds, fail_row, claimable, claim_due_from,
  claimed, finished, complete, fail,
}
use rumor_mill_ai.Jobs.Table.{ids}
use rumor_mill_ai.Jobs.Claim.{ClaimOf, claim_due_from-Claims}
use rumor_mill_ai.Jobs.Lookup.{count-some, find_row-update, has_id-found, find-none, find-at}

-- What the claim of `m` leaves in the table.
pub claim-found :
    (worker_id : String) (now lease_until : ℕ) (t : Table) (r : Option JobRecord × Table)
    (m : JobModel)
    → ClaimOf worker_id now lease_until t r m
    → find_row m.id r.1 ≡ some (claimed worker_id now lease_until m)
claim-found worker_id now lease_until t r m c = rw (c.3) (
    find_row-update m.id (has_id m.id) (claimed worker_id now lease_until)
      (λ x. unfold claimed in refl) t (c.0)
    ∙ ground arith)

pub claim-unique :
    (worker_id : String) (now lease_until : ℕ) (t : Table) (r : Option JobRecord × Table)
    (m : JobModel)
    → ClaimOf worker_id now lease_until t r m
    → unique (ids t) ≡ true
    → unique (ids r.1) ≡ true
claim-unique worker_id now lease_until t r m c u = rw (c.3) (
    ap unique (
      map-update_where (λ x. x.id) (has_id m.id) (claimed worker_id now lease_until)
        (λ x. unfold claimed in refl) t)
    ∙ u)

fail-lost :
    (i : ℕ) (worker_id : String) (t : Table) (m : JobModel) (at : ℕ) (error : String)
    → unique (ids t) ≡ true
    → find_row i t ≡ some m
    → (is_running m.status && holds m.locked_by worker_id) ≡ false
    → fail i worker_id at error t ≡ (raise (value_error "job is not leased by this worker"), t)
unfolding fail fail_row
fail-lost i worker_id t m at error u found idle = elim (Bool-cases (holds m.locked_by worker_id)) [
  | inl mine ↦
      let stopped : is_running m.status ≡ false = ground arith in
      rw (find-at i (λ x. holds x.locked_by worker_id) t found mine, fail_row, stopped)
  | inr lost ↦ rw (find-none i (λ x. holds x.locked_by worker_id) t u found lost)
]

-- Who does not hold the lease of a row cannot complete the job, nor write its failure; both
-- leave the table as it was.
pub not_leased :
    (i : ℕ) (worker_id : String) (t : Table) (m : JobModel) (at : ℕ) (value : Json) (error : String)
    → unique (ids t) ≡ true
    → find_row i t ≡ some m
    → leased_by i worker_id m ≡ false
    → (complete i worker_id at value t ≡ (false, t))
      × (fail i worker_id at error t ≡ (raise (value_error "job is not leased by this worker"), t))
unfolding complete fail fail_row
not_leased i worker_id t m at value error u found lost =
    let live : (JobModel → Bool) = λ x. is_running x.status && holds x.locked_by worker_id in
    let idle : live m ≡ false = ground (arith, has_id-found i t found) in
    let none_changed : count_where (leased_by i worker_id) t ≡ 0 =
      count-some i live t u found ∙ rw idle in
    (
      rw (
        none_changed,
        update_where_none (leased_by i worker_id) (finished at value) t none_changed,
      ),
      fail-lost i worker_id t m at error u found idle,
    )

claimed-other :
    (now i : ℕ) (t : Table) (m n : JobModel)
    → find_row i t ≡ some m
    → claimable now m ≡ false
    → find_row n.id t ≡ some n
    → claimable now n ≡ true
    → has_id n.id m ≡ false
claimed-other now i t m n found busy found' ready = elim (Bool-cases (has_id n.id m)) [
  | inr other ↦ other
  | inl same ↦
      let one : n.id ≡ i = ground (arith, has_id-found i t found) in
      let row : some n ≡ some m = sym found' ∙ ap (λ j. find_row j t) one ∙ found in
      let same_row : n ≡ m = cc row in cc (ready, ap (claimable now) same_row, busy)
]

-- A claim does not touch a row whose lease has not run out, nor any other row that is not
-- claimable, whatever the candidates were selected from.
pub claim-keeps :
    (snapshot : Table) (worker_id : String) (now lease_until i : ℕ) (t : Table) (m : JobModel)
    → unique (ids t) ≡ true
    → find_row i t ≡ some m
    → claimable now m ≡ false
    → find_row i (claim_due_from snapshot worker_id now lease_until t).1 ≡ some m
claim-keeps snapshot worker_id now lease_until i t m u found busy =
    elim (claim_due_from-Claims worker_id now lease_until snapshot t u) [
      | inl nothing ↦ rw nothing found
      | inr (n, c) ↦
          let other : has_id n.id m ≡ false = claimed-other now i t m n found busy c.0 c.1 in
          rw (c.3) (
            find_row-update i (has_id n.id) (claimed worker_id now lease_until)
              (λ x. unfold claimed in refl) t found
            ∙ rw other)
    ]

-- Two workers on one job: once the lease has passed to another worker, the first one can
-- neither complete the job nor write its failure.
pub stale_worker :
    (old new : String) (now lease_until : ℕ) (t : Table) (r : Option JobRecord × Table)
    (m : JobModel) (at : ℕ) (value : Json) (error : String)
    → old ≢ new
    → unique (ids t) ≡ true
    → ClaimOf new now lease_until t r m
    → (complete m.id old at value r.1 ≡ (false, r.1))
      × (fail m.id old at error r.1 ≡ (raise (value_error "job is not leased by this worker"), r.1))
stale_worker old new now lease_until t r m at value error ne u c =
    not_leased m.id old r.1 (claimed new now lease_until m) at value error
      (claim-unique new now lease_until t r m c u) (claim-found new now lease_until t r m c)
      (unfold claimed in ground (arith, eq_iff new old))
