-- ===== src/Jobs/Worker.antt =====
-- DurableJobWorker.run_once (src/rumor_mill/engine/jobs.py). A database holds the jobs table and
-- the rest of the story state, of any type. A transaction is a function from the database that
-- it meets to its result and the database that it leaves; one that raises, or that returns
-- without a commit, leaves what it met. Logging and correlation tokens change no state.
pub mod Atomic
pub mod Outcomes
use rumor_mill_ai.Prelude.{
  ℕ, ◌+◌, ◌*◌, ◌-◌, ◌^◌, String, Bool, true, false, not, Option, none, some, if◌then◌else◌, Result,
  Exc, ok, raise, value_error, lookup_error, key_error, type_error, lease_lost, provider_error,
  other,
}
use rumor_mill_ai.Json.{Json}
use rumor_mill_ai.Jobs.Model.{JobModel, JobRecord}
use rumor_mill_ai.Jobs.Repo.{Table, get, claim_due, complete, fail, is_completed}

pub record WorkerResult : Type 0 where
  pub job : Option JobRecord
  pub done : Bool

pub record Worker : Type 0 where
  pub worker_id : String
  pub lease_duration : ℕ
  pub base_backoff : ℕ

-- `type(exc).__name__[:200]`, and the codes of `_safe_error`. `truncate` is the slice `[:200]`.
unfoldable pub safe_error : (truncate : String → String) → Exc → String
safe_error truncate (provider_error code) = code
safe_error truncate key_error = "unknown_job_kind"
safe_error truncate (value_error _) = truncate "ValueError"
safe_error truncate lookup_error = truncate "LookupError"
safe_error truncate type_error = truncate "TypeError"
safe_error truncate lease_lost = truncate "LeaseLostError"
safe_error truncate (other name) = truncate name

-- `base_backoff * 2 ** max(0, attempts - 1)`
unfoldable pub backoff : Worker → JobRecord → ℕ
backoff w job = w.base_backoff * 2 ^ (job.attempts - 1)

abbrev pub was_completed : Option JobRecord → Bool
was_completed none = false
was_completed (some r) = is_completed r.status

pub record Db (S : Type 0) : Type 0 where
  pub jobs : Table
  pub story : S

-- `PreparedMutation` and `JobHandler`: the handler prepares, the mutation runs inside the
-- completing transaction.
abbrev pub PreparedMutation : Type 0 → Type 0
PreparedMutation S = Db S → Result (Json × Db S)

abbrev pub JobHandler : Type 0 → Type 0
JobHandler S = JobRecord → Result (PreparedMutation S)

-- What the worker reads from its clock, in order, and what other transactions do to the
-- database while the handler runs and before a failure is written.
pub record Surroundings (S : Type 0) : Type 0 where
  pub now : ℕ
  pub completed_at : ℕ
  pub failed_at : ℕ
  pub during : Db S → Db S
  pub before_fail : Db S → Db S

abbrev pub failed_result : Result JobRecord → Result WorkerResult
failed_result (raise e) = raise e
failed_result (ok r) = ok (record { job = some r; done = false })

module _ {S : Type 0} where
  -- `self._handlers[job.kind]`, then the handler.
  unfoldable pub prepare : Option (JobHandler S) → JobRecord → Result (PreparedMutation S)
  prepare none job = raise key_error
  prepare (some handler) job = handler job

  -- After the mutation: complete the job and commit, or raise and roll back to `db`.
  unfoldable pub commit_mutation :
      Worker → JobRecord → ℕ → (db : Db S) → Result (Json × Db S) → Result WorkerResult × Db S
  commit_mutation w job completed_at db (raise e) = (raise e, db)
  commit_mutation w job completed_at db (ok (result, db')) =
      let (leased, jobs') = complete job.id w.worker_id completed_at result db'.jobs in
      if leased
      then (ok (record { job = some job; done = true }), record db' { jobs = jobs' })
      else (raise lease_lost, db)

  -- The completing transaction.
  unfoldable pub finish :
      Worker → JobRecord → ℕ → Result (PreparedMutation S) → Db S → Result WorkerResult × Db S
  unfolding commit_mutation
  finish w job completed_at (raise e) db = (raise e, db)
  finish w job completed_at (ok mutation) db =
      if was_completed (get job.id db.jobs)
      then (ok (record { job = get job.id db.jobs; done = true }), db)
      else commit_mutation w job completed_at db (mutation db)

  unfoldable pub record_failure :
      (String → String) → Worker → JobRecord → ℕ → Exc → Db S → Result WorkerResult × Db S
  unfolding safe_error backoff
  record_failure truncate w job failed_at e db =
      let (r, jobs') =
        fail job.id w.worker_id (failed_at + backoff w job) (safe_error truncate e) db.jobs in
      (failed_result r, record db { jobs = jobs' })

  -- The `except` clauses.
  unfoldable pub settle :
      (String → String)
      → Worker
      → Surroundings S
      → JobRecord
      → Result WorkerResult × Db S
      → Result WorkerResult × Db S
  unfolding record_failure
  settle truncate w env job (ok r, db) = (ok r, db)
  settle truncate w env job (raise lease_lost, db) =
      (ok (record { job = get job.id db.jobs; done = false }), db)
  settle truncate w env job (raise e, db) =
      record_failure truncate w job env.failed_at e (env.before_fail db)

  unfoldable pub run_claimed :
      (String → String)
      → (String → Option (JobHandler S))
      → Worker
      → Surroundings S
      → Option JobRecord
      → Db S
      → Result WorkerResult × Db S
  unfolding prepare finish settle
  run_claimed truncate handlers w env none db = (ok (record { job = none; done = false }), db)
  run_claimed truncate handlers w env (some job) db =
      settle truncate w env job
        (finish w job env.completed_at (prepare (handlers job.kind) job) (env.during db))

  unfoldable pub run_once :
      (String → String)
      → (String → Option (JobHandler S))
      → Worker
      → Surroundings S
      → Db S
      → Result WorkerResult × Db S
  unfolding run_claimed
  run_once truncate handlers w env db =
      let (job, jobs') = claim_due w.worker_id env.now (env.now + w.lease_duration) db.jobs in
      run_claimed truncate handlers w env job (record db { jobs = jobs' })
