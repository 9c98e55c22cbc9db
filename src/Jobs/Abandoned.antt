-- ===== src/Jobs/Abandoned.antt =====
-- A job whose worker has stopped for good: what becomes of it, by the operations that are left.
use rumor_mill_ai.Prelude.{
  ℕ, ◌≡◌, ◌≢◌, refl, ap, ◌∙◌, ◌&&◌, ◌||◌, String, Bool, true, false, Option, none, some, List, [],
  ◌∷◌, arith, inl, inr, ◌⊎◌, Bool-cases, unique, update_where, find_first, find_first_sound,
  find_first-All, eq_iff, any,
}
use rumor_mill_ai.Json.{Json}
use rumor_mill_ai.Jobs.Model.{JobModel, JobRecord, running}
use rumor_mill_ai.Jobs.Repo.{
  Table, find_row, has_id, has_key, leased_by, is_running, is_failed, is_dead, holds, fail_row,
  retry_row, claimable, finished, failed_row, retried, new_row, add_once, claim_due_from, complete,
  fail, retry,
}
use rumor_mill_ai.Jobs.Table.{IsValid, ids, found_unique}
use rumor_mill_ai.Jobs.Leases.{claim-keeps}
use rumor_mill_ai.Jobs.Lookup.{find_row-update, find-at}
use rumor_mill_ai.Jobs.Steps.{
  Op, add_job, claim_job, complete_job, fail_job, retry_job, apply, find_row-append,
}
use rumor_mill_ai.Jobs.Traces.{AreRequests, run, apply-IsValid}

-- No completion and no failure is written by `worker_id`.
abbrev pub IsNotBy : String → Op → Type 0
IsNotBy worker_id (complete_job i other at value) = other ≢ worker_id
IsNotBy worker_id (fail_job i other retry_at error) = other ≢ worker_id
IsNotBy worker_id _ = Unit

abbrev pub AreNotBy : String → List Op → Type 0
AreNotBy worker_id [] = Unit
AreNotBy worker_id (op ∷ ops) = IsNotBy worker_id op × AreNotBy worker_id ops

-- A claim of `worker_id` that was the last one the job had.
pub record IsLastClaim (worker_id : String) (m : JobModel) : Type 0 where
  pub live : m.status ≡ running
  pub owner : m.locked_by ≡ some worker_id
  pub spent : m.attempts ≡ m.max_attempts

module _ (worker_id : String) (i : ℕ) (t : Table) (m : JobModel)
    (unique_ids : unique (ids t) ≡ true) (found : find_row i t ≡ some m)
    (last : IsLastClaim worker_id m) where
  not_mine : (other : String) → other ≢ worker_id → holds m.locked_by other ≡ false
  not_mine other ne = rw (last.owner) (ground (arith, eq_iff worker_id other))

  -- An update of the row that `j` and a test find leaves `m` alone if `m` fails the test.
  other-row :
      (j : ℕ) (q : JobModel → Bool) (f : JobModel → JobModel) (n : JobModel)
      → ((x : JobModel) → (f x).id ≡ x.id)
      → find_first (λ x. has_id j x && q x) t ≡ some n
      → q m ≡ false
      → find_row i (update_where (has_id j) f t) ≡ some m
  other-row j q f n same e miss = find_row-update i (has_id j) f same t found ∙ rw apart
    where
      passed : q n ≡ true
      passed = ground (arith, find_first_sound (λ x. has_id j x && q x) t e)

      apart : has_id j m ≡ false
      apart =
          elim (find_first-All (λ x. (has_id j x ≡ false) ⊎ (x ≡ n)) (has_id i) t
            (found_unique j q t unique_ids e) found) [
              | inl far ↦ far
              | inr one ↦ absurd (cc (passed, miss, ap q one))
            ]

  add-kept : (job : JobRecord) (created_at : ℕ) → find_row i (add_once job created_at t).1 ≡ some m
  unfolding add_once
  add-kept job created_at = elim (Bool-cases (any (has_key job.idempotency_key) t)) [
    | inl old ↦ rw old found
    | inr new ↦ rw new (find_row-append i t (new_row job created_at ∷ []) m found)
  ]

  complete-kept :
      (j : ℕ) (other : String) (at : ℕ) (value : Json)
      → other ≢ worker_id
      → find_row i (complete j other at value t).1 ≡ some m
  unfolding complete finished
  complete-kept j other at value ne =
      let apart : leased_by j other m ≡ false = ground (arith, not_mine other ne) in
      find_row-update i (leased_by j other) (finished at value) (λ x. refl) t found ∙ rw apart

  fail-kept :
      (j : ℕ) (other : String) (retry_at : ℕ) (error : String)
      → other ≢ worker_id
      → find_row i (fail j other retry_at error t).1 ≡ some m
  unfolding fail
  fail-kept j other retry_at error ne =
      by_row (find_first (λ x. has_id j x && holds x.locked_by other) t) refl
    where
      by_row :
          (o : Option JobModel)
          → find_first (λ x. has_id j x && holds x.locked_by other) t ≡ o
          → find_row i (fail_row j retry_at error o t).1 ≡ some m
      by_row none e = found
      by_row (some n) e = elim (Bool-cases (is_running n.status)) [
        | inl live ↦ rw live (
            unfold failed_row in
            other-row j (λ x. holds x.locked_by other) (failed_row retry_at error) n (λ x. refl) e
              (not_mine other ne))
        | inr idle ↦ rw idle found
      ]

  retry-kept : (j now : ℕ) → find_row i (retry j now t).1 ≡ some m
  unfolding retry
  retry-kept j now = by_row (find_row j t) refl
    where
      stuck : JobModel → Bool
      stuck x = is_failed x.status || is_dead x.status

      by_row :
          (o : Option JobModel) → find_row j t ≡ o → find_row i (retry_row j now o t).1 ≡ some m
      by_row none e = found
      by_row (some n) e = elim (Bool-cases (stuck n)) [
        | inl ended ↦ rw ended (
            unfold retried in
            other-row j stuck (retried now) n (λ x. refl) (find-at j stuck t e ended)
              (ground (arith, last.live)))
        | inr live ↦ rw live found
      ]

  claim-kept :
      (snapshot : Table) (other : String) (now lease_until : ℕ)
      → find_row i (claim_due_from snapshot other now lease_until t).1 ≡ some m
  claim-kept snapshot other now lease_until =
      claim-keeps snapshot other now lease_until i t m unique_ids found
        (unfold claimable in ground (arith, last.spent))

  apply-kept : (op : Op) → IsNotBy worker_id op → find_row i (apply op t) ≡ some m
  unfolding apply
  apply-kept (add_job job created_at) h = add-kept job created_at
  apply-kept (claim_job snapshot other now lease_until) h =
      claim-kept snapshot other now lease_until
  apply-kept (complete_job j other at value) h = complete-kept j other at value h
  apply-kept (fail_job j other retry_at error) h = fail-kept j other retry_at error h
  apply-kept (retry_job j now) h = retry-kept j now

-- A job on its last attempt whose worker never writes again: from a valid table, whatever else
-- happens, claims after the lease has run out, retries and another addition of the same job
-- included, its row stays as it is, running. Each job that is added is pending, with some
-- attempts, and with an identifier that is not in the table unless the job's key is.
pub run-abandoned :
    (worker_id : String) (ops : List Op) (t : Table) (i : ℕ) (m : JobModel)
    → AreRequests ops t
    → AreNotBy worker_id ops
    → IsValid t
    → find_row i t ≡ some m
    → IsLastClaim worker_id m
    → find_row i (run ops t) ≡ some m
unfolding run
run-abandoned worker_id [] t i m r h v found last = found
run-abandoned worker_id (op ∷ ops) t i m r h v found last =
    run-abandoned worker_id ops (apply op t) i m r.1 h.1 (apply-IsValid op t r.0 v)
      (apply-kept worker_id i t m v.ids_unique found last op h.0) last
