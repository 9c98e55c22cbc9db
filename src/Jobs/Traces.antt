-- ===== src/Jobs/Traces.antt =====
-- Histories of the jobs table: what holds after any sequence of repository operations.
use rumor_mill_ai.Prelude.{
  ℕ, suc, ◌+◌, ◌<◌, ◌≤◌, ◌≡◌, refl, String, true, false, some, List, [], ◌∷◌, arith, inl, inr, ◌⊎◌,
  contains, subst, any,
}
use rumor_mill_ai.Json.{Json}
use rumor_mill_ai.Jobs.Model.{JobModel, pending, failed}
use rumor_mill_ai.Jobs.Repo.{
  Table, find_row, has_key, claimable, claimed, finished, failed_row, is_completed, is_running,
}
use rumor_mill_ai.Jobs.Invariant.{
  IsValidRow, claimed-IsValidRow, finished-IsValidRow, failed_row-IsValidRow,
}
use rumor_mill_ai.Jobs.Table.{IsValid, ids}
use rumor_mill_ai.Jobs.Preserve.{
  add_once-IsValid, claim_due_from-IsValid, complete-IsValid, fail-IsValid, retry-IsValid,
}
use rumor_mill_ai.Jobs.Steps.{
  Step, claim, finish, give_up, restart, Op, add_job, claim_job, complete_job, fail_job, retry_job,
  apply, apply-refines,
}

-- What a caller of `add_once` provides: a pending record, some attempts, and an identifier that
-- is not in the table unless the job's key is there. The scheduler's `uuid4` is new; the recap
-- planner's `uuid5` of the key is in the table only with that key.
abbrev pub IsRequest : Op → Table → Type 0
IsRequest (add_job job created_at) t =
    (0 < job.max_attempts)
    × (job.status ≡ pending)
    × ((any (has_key job.idempotency_key) t ≡ true) ⊎ (contains job.id (ids t) ≡ false))
IsRequest _ t = Unit

pub apply-IsValid : (op : Op) (t : Table) → IsRequest op t → IsValid t → IsValid (apply op t)
unfolding apply
apply-IsValid (add_job job created_at) t r v = add_once-IsValid job created_at t r.0 r.1 r.2 v
apply-IsValid (claim_job snapshot worker_id now lease_until) t r v =
    claim_due_from-IsValid snapshot worker_id now lease_until t v
apply-IsValid (complete_job i worker_id at value) t r v = complete-IsValid i worker_id at value t v
apply-IsValid (fail_job i worker_id retry_at error) t r v =
    fail-IsValid i worker_id retry_at error t v
apply-IsValid (retry_job i now) t r v = retry-IsValid i now t v

unfoldable pub run : List Op → Table → Table
run [] t = t
run (op ∷ ops) t = run ops (apply op t)

abbrev pub AreRequests : List Op → Table → Type 0
AreRequests [] t = Unit
AreRequests (op ∷ ops) t = IsRequest op t × AreRequests ops (apply op t)

-- Any history of operations, by any workers and from any older selections, keeps the table
-- valid: identifiers and keys stay unique and every row stays well formed. Jobs are added as often
-- as one likes, each pending, with some attempts, and with an identifier that is not in the table
-- unless the job's key is.
pub run-IsValid : (ops : List Op) (t : Table) → AreRequests ops t → IsValid t → IsValid (run ops t)
unfolding run
run-IsValid [] t r v = v
run-IsValid (op ∷ ops) t r v = run-IsValid ops (apply op t) r.1 (apply-IsValid op t r.0 v)

completed-no_step : (m m' : JobModel) → Step m m' → is_completed m.status ≡ true → ⊥
completed-no_step m m' (claim worker_id now lease_until h) c = unfold claimable in ground arith
completed-no_step m m' (finish at value h) c = ground arith
completed-no_step m m' (give_up retry_at error h) c = ground arith
completed-no_step m m' (restart now h) c = ground arith

-- A completed job is final: from a valid table, no history of operations changes its row. The
-- history may add the same job again; each job that it adds is pending, with some attempts, and
-- with an identifier that is not in the table unless the job's key is.
pub run-completed :
    (ops : List Op) (t : Table) (i : ℕ) (m : JobModel)
    → AreRequests ops t
    → IsValid t
    → find_row i t ≡ some m
    → is_completed m.status ≡ true
    → find_row i (run ops t) ≡ some m
unfolding run
run-completed [] t i m r v found c = found
run-completed (op ∷ ops) t i m r v found c =
    let (m', found', moved) = apply-refines i t m v.ids_unique found op in
    let same : m' ≡ m = elim moved [ inl e ↦ e | inr s ↦ absurd (completed-no_step m m' s c) ] in
    run-completed ops (apply op t) i m r.1 (apply-IsValid op t r.0 v)
      (subst (λ x. find_row i (apply op t) ≡ some x) same found') c

-- A part of a job's life in which nobody retries it, with the number of its claims.
pub data Life (m : JobModel) : ℕ → JobModel → Type 0 where
  born : Life m 0 m
  then_claimed :
      {k : ℕ} {n : JobModel}
      → Life m k n
      → (worker_id : String) (now lease_until : ℕ) → claimable now n ≡ true
      → Life m (suc k) (claimed worker_id now lease_until n)
  then_finished :
      {k : ℕ} {n : JobModel}
      → Life m k n
      → (at : ℕ) (value : Json) → is_running n.status ≡ true
      → Life m k (finished at value n)
  then_failed :
      {k : ℕ} {n : JobModel}
      → Life m k n
      → (retry_at : ℕ) (error : String) → is_running n.status ≡ true
      → Life m k (failed_row retry_at error n)

Life-facts :
    {m : JobModel} {k : ℕ} {n : JobModel}
    → Life m k n
    → IsValidRow m
    → IsValidRow n × (n.attempts ≡ m.attempts + k) × (n.max_attempts ≡ m.max_attempts)
unfolding claimed finished failed_row
Life-facts born v = (v, omega arith, refl)
Life-facts (then_claimed {n = n} life worker_id now lease_until h) v =
    let (v', count, room) = Life-facts life v in
    (claimed-IsValidRow worker_id now lease_until n v' h, omega arith, room)
Life-facts (then_finished {n = n} life at value h) v =
    let (v', count, room) = Life-facts life v in (finished-IsValidRow at value n v' h, count, room)
Life-facts (then_failed {n = n} life retry_at error h) v =
    let (v', count, room) = Life-facts life v in
    (failed_row-IsValidRow retry_at error n v' h, count, room)

-- As long as nobody retries it, a job is claimed at most `max_attempts` times, and once all of
-- these claims are made it is neither failed nor pending, so that no claim is left to make.
pub Life-attempts :
    {m : JobModel} {k : ℕ} {n : JobModel}
    → Life m k n
    → IsValidRow m
    → (m.attempts + k ≤ m.max_attempts)
      × (m.attempts + k ≡ m.max_attempts → (n.status ≡ failed → ⊥) × (n.status ≡ pending → ⊥))
Life-attempts life v = let (v', count, room) = Life-facts life v in ground (arith, v')
