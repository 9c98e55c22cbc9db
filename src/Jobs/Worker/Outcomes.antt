-- ===== src/Jobs/Worker/Outcomes.antt =====
-- A run of the worker that keeps its lease, from the claim to the final row. Other transactions
-- may do anything to the database, except that they leave the claimed job's row as it is.
use rumor_mill_ai.Prelude.{
  ℕ, ◌+◌, ◌-◌, ◌*◌, ◌^◌, ◌≡◌, refl, ap, ◌∙◌, ◌&&◌, String, Bool, true, false, Option, some, Result,
  Exc, ok, raise, arith, inl, inr, ◌⊎◌, lease_lost, value_error, lookup_error, key_error,
  type_error, provider_error, other, unique, ◌≢◌, eq_iff, find_first,
}
use rumor_mill_ai.Json.{Json}
use rumor_mill_ai.Jobs.Model.{JobModel, JobRecord, to_record}
use rumor_mill_ai.Jobs.Repo.{
  Table, get, find_row, has_id, leased_by, is_running, holds, fail_row, claim_due, claimed,
  finished, failed_row, complete, fail,
}
use rumor_mill_ai.Jobs.Table.{ids}
use rumor_mill_ai.Jobs.Claim.{ClaimOf}
use rumor_mill_ai.Jobs.Lookup.{count-some, find_row-update, find-at, has_id-found}
use rumor_mill_ai.Jobs.Worker.{
  Worker, Surroundings, Db, JobHandler, PreparedMutation, was_completed, prepare, finish, settle,
  record_failure, run_claimed, run_once, failed_result, backoff, safe_error,
}

module _ (i : ℕ) (worker_id : String) (t : Table) {m : JobModel}
    (unique_ids : unique (ids t) ≡ true) (found : find_row i t ≡ some m)
    (mine : leased_by i worker_id m ≡ true) where
  -- The holder of the lease completes the job.
  pub complete-leased :
      (at : ℕ) (value : Json)
      → ((complete i worker_id at value t).0 ≡ true)
        × (find_row i (complete i worker_id at value t).1 ≡ some (finished at value m))
  unfolding complete
  complete-leased at value =
      let live : (JobModel → Bool) = λ x. is_running x.status && holds x.locked_by worker_id in
      (
        rw (count-some i live t unique_ids found) (ground arith),
        find_row-update i (leased_by i worker_id) (finished at value) (λ x. refl) t found ∙ rw mine,
      )

  pub fail-leased :
      (retry_at : ℕ) (error : String)
      → ((fail i worker_id retry_at error t).0 ≡ ok (to_record (failed_row retry_at error m)))
        × (find_row i (fail i worker_id retry_at error t).1 ≡ some (failed_row retry_at error m))
  unfolding fail
  fail-leased retry_at error =
      let same : find_first (λ x. has_id i x && holds x.locked_by worker_id) t ≡ some m =
        find-at i (λ x. holds x.locked_by worker_id) t found (ground arith) in
      let live : is_running m.status ≡ true = ground arith in
      rw (same, fail_row, live)
        (
          refl,
          find_row-update i (has_id i) (failed_row retry_at error) (λ x. refl) t found
              ∙ rw (has_id-found i t found),
        )

-- A record that was just claimed is of a running job.
claimed-open :
    (worker_id : String) (now lease_until i : ℕ) (t : Table) (m : JobModel)
    → find_row i t ≡ some (claimed worker_id now lease_until m)
    → was_completed (get i t) ≡ false
unfolding get claimed
claimed-open worker_id now lease_until i t m h = rw h

claimed-leased :
    (worker_id : String) (now lease_until : ℕ) (m : JobModel)
    → leased_by m.id worker_id (claimed worker_id now lease_until m) ≡ true
unfolding claimed
claimed-leased worker_id now lease_until m = ground (arith, eq_iff worker_id worker_id)

-- The completing transaction, where the job is open and its lease holds to the end.
finish-success :
    {S : Type 0} (w : Worker) (job : JobRecord) (at : ℕ) (mutation : PreparedMutation S)
    (db after : Db S) (value : Json)
    → was_completed (get job.id db.jobs) ≡ false
    → mutation db ≡ ok (value, after)
    → (complete job.id w.worker_id at value after.jobs).0 ≡ true
    → finish w job at (ok mutation) db ≡ (
      ok (record { job = some job; done = true }),
      record after { jobs = (complete job.id w.worker_id at value after.jobs).1 },
    )
unfolding finish
finish-success w job at mutation db after value open_job applied leased =
    rw (open_job, applied, leased)

-- The failing transaction, for every exception but a lost lease.
settle-failure :
    {S : Type 0} (truncate : String → String) (w : Worker) (env : Surroundings S) (job : JobRecord)
    (e : Exc) (db : Db S)
    → e ≢ lease_lost
    → settle truncate w env job (raise e, db)
      ≡ record_failure truncate w job env.failed_at e (env.before_fail db)
unfolding settle
settle-failure truncate w env job lease_lost db h = absurd (h refl)
settle-failure truncate w env job (value_error s) db h = refl
settle-failure truncate w env job lookup_error db h = refl
settle-failure truncate w env job key_error db h = refl
settle-failure truncate w env job type_error db h = refl
settle-failure truncate w env job (provider_error s) db h = refl
settle-failure truncate w env job (other s) db h = refl

module _ {S : Type 0} (truncate : String → String) (handlers : String → Option (JobHandler S))
    (w : Worker) (env : Surroundings S) (db : Db S) (m : JobModel)
    (due : ClaimOf w.worker_id env.now
      (env.now + w.lease_duration)
      db.jobs
      (claim_due w.worker_id env.now (env.now + w.lease_duration) db.jobs)
      m) where
  abbrev pub claimed_row : JobModel
  claimed_row = claimed w.worker_id env.now (env.now + w.lease_duration) m

  abbrev pub job : JobRecord
  job = to_record claimed_row

  -- The database as the completing transaction meets it, and as a failing one does after that.
  abbrev pub met_db : Db S
  met_db =
      env.during (record db {
        jobs = (claim_due w.worker_id env.now (env.now + w.lease_duration) db.jobs).1;
      })

  abbrev pub late_db : Db S
  late_db = env.before_fail met_db

  -- The job's row is the one that the claim left, in a table with unique identifiers.
  abbrev pub IsKept : Db S → Type 0
  IsKept d = (unique (ids d.jobs) ≡ true) × (find_row m.id d.jobs ≡ some claimed_row)

  run_once-claimed :
      (prepared : Result (PreparedMutation S))
      → prepare (handlers job.kind) job ≡ prepared
      → run_once truncate handlers w env db
        ≡ settle truncate w env job (finish w job env.completed_at prepared met_db)
  unfolding run_once
  run_once-claimed prepared ready =
      ap
        (λ o. run_claimed truncate handlers w env o (record db {
          jobs = (claim_due w.worker_id env.now (env.now + w.lease_duration) db.jobs).1;
        }))
        due.2
      ∙ ap (λ x. settle truncate w env job (finish w job env.completed_at x met_db)) ready

  -- A due job whose mutation succeeds and leaves the jobs alone ends completed, with the
  -- mutation's value as its result, and the story is the mutation's. Until the completing
  -- transaction other transactions may change anything, but the row of the claimed job is as the
  -- claim left it and identifiers are unique.
  pub run_once-success :
      IsKept met_db
      → (mutation : PreparedMutation S) (value : Json) (story : S)
      → prepare (handlers job.kind) job ≡ ok mutation
      → mutation met_db ≡ ok (value, record met_db { story = story })
      → let (r, final) = run_once truncate handlers w env db in
        (r ≡ ok (record { job = some job; done = true }))
        × (final.story ≡ story)
        × (find_row m.id final.jobs ≡ some (finished env.completed_at value claimed_row))
  unfolding settle claimed
  run_once-success kept mutation value story ready applied =
      let leased =
        complete-leased m.id w.worker_id met_db.jobs kept.0 kept.1
          (claimed-leased w.worker_id env.now (env.now + w.lease_duration) m) env.completed_at
          value in
      let still_open =
        claimed-open w.worker_id env.now (env.now + w.lease_duration) m.id met_db.jobs m kept.1 in
      let ended =
        run_once-claimed (ok mutation) ready
        ∙ ap (settle truncate w env job) (
            finish-success w job env.completed_at mutation met_db (record met_db { story = story })
              value still_open applied leased.0) in
      rw ended (refl, refl, leased.1)

  -- The handler, or the mutation on the database that the completing transaction meets, raises.
  abbrev pub Raises : Exc → Type 0
  Raises e =
      (prepare (handlers job.kind) job ≡ raise e)
      ⊎ ((mutation : PreparedMutation S) × (prepare (handlers job.kind) job ≡ ok mutation)
          × (mutation met_db ≡ raise e))

  delay : backoff w job ≡ w.base_backoff * 2 ^ m.attempts
  unfolding backoff claimed
  delay =
      let e : m.attempts + 1 - 1 ≡ m.attempts = omega arith in ap (λ k. w.base_backoff * 2 ^ k) e

  run_once-Raises :
      (e : Exc)
      → IsKept met_db
      → Raises e
      → run_once truncate handlers w env db ≡ settle truncate w env job (raise e, met_db)
  unfolding finish settle get claimed claim_due
  run_once-Raises e kept (inl unprepared) = run_once-claimed (raise e) unprepared
  run_once-Raises e kept (inr (mutation, ready, raised)) =
      run_once-claimed (ok mutation) ready
      ∙ rw (
        claimed-open w.worker_id env.now (env.now + w.lease_duration) m.id met_db.jobs m kept.1,
        raised,
      )

  -- A due job whose handler or mutation raises anything but a lost lease is put back with an
  -- exponential delay, or is dead once its attempts are used up; the story is as other
  -- transactions have left it. Until the failure is written they may change anything, but the row
  -- of the claimed job is as the claim left it and identifiers are unique.
  pub run_once-failure :
      (e : Exc)
      → IsKept met_db
      → IsKept late_db
      → e ≢ lease_lost
      → Raises e
      → let (r, final) = run_once truncate handlers w env db in
        let row =
          failed_row
            (env.failed_at + w.base_backoff * 2 ^ m.attempts)
            (safe_error truncate e)
            claimed_row in
        (r ≡ ok (record { job = some (to_record row); done = false }))
        × (final.story ≡ late_db.story)
        × (find_row m.id final.jobs ≡ some row)
  unfolding record_failure claimed
  run_once-failure e kept still_kept other_error raised =
      let failed' =
        fail-leased m.id w.worker_id late_db.jobs still_kept.0 still_kept.1
          (claimed-leased w.worker_id env.now (env.now + w.lease_duration) m)
          (env.failed_at + backoff w job) (safe_error truncate e) in
      let ended =
        run_once-Raises e kept raised ∙ settle-failure truncate w env job e met_db other_error in
      rw (ended, ← delay) (ap failed_result failed'.0, refl, failed'.1)
