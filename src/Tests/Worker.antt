-- ===== src/Tests/Worker.antt =====
-- A worker with one handler, and the theorems on its runs.
use rumor_mill_ai.Prelude.{
  ℕ, suc, ◌+◌, ◌*◌, ◌^◌, ◌≡◌, ◌≢◌, refl, String, true, false, Option, some, ok, raise, lease_lost,
  other, inl, ◌⊎◌,
}
use rumor_mill_ai.Json.{Json}
use rumor_mill_ai.Jobs.Model.{JobModel, JobRecord, to_record}
use rumor_mill_ai.Jobs.Repo.{find_row, claim_due, add_once, claimed, finished, failed_row}
use rumor_mill_ai.Jobs.Worker.{
  Worker, Surroundings, Db, JobHandler, PreparedMutation, prepare, run_once, safe_error,
}
use rumor_mill_ai.Jobs.Worker.Atomic.{IsCommitted, met, NotApplied, run_once-atomic}
use rumor_mill_ai.Jobs.Worker.Outcomes.{run_once-success, run_once-failure}
use rumor_mill_ai.Tests.Jobs.{queue, waiting_job, new_job, queue-ClaimOf}

abbrev worker : Worker
worker = record { worker_id = "bob"; lease_duration = 300; base_backoff = 30 }

abbrev truncate : String → String
truncate s = s

-- The story is a counter.
abbrev count : PreparedMutation ℕ
count db = ok (Json.null, record db { story = suc db.story })

abbrev handlers : String → Option (JobHandler ℕ)
handlers kind = some (λ job. ok count)

abbrev no_handlers : String → Option (JobHandler ℕ)
no_handlers kind = some (λ job. raise (other "TimeoutError"))

abbrev alone : Surroundings ℕ
alone = record {
  now = 100;
  completed_at = 200;
  failed_at = 200;
  during = λ d. d;
  before_fail = λ d. d;
}

abbrev db : Db ℕ
db = record { jobs = queue; story = 4 }

run_once-atomic_example :
    let (r, final) = run_once truncate handlers worker alone db in
    ((job : JobRecord) × IsCommitted worker job 200
        (prepare (handlers job.kind) job)
        (met truncate worker alone db)
        r
        final)
    ⊎ NotApplied truncate worker alone db final
run_once-atomic_example = run_once-atomic truncate worker alone handlers db

abbrev bob_row : JobModel
bob_row = claimed "bob" 100 400 waiting_job

-- While the handler runs, other transactions move the story on and add a job; before a
-- failure is written the story moves on again.
abbrev busy : Surroundings ℕ
busy = record alone {
  during = λ d. record { jobs = (add_once new_job 150 d.jobs).1; story = suc d.story };
  before_fail = λ d. record d { story = suc d.story };
}

run_once-success_example :
    let (r, final) = run_once truncate handlers worker busy db in
    (r ≡ ok (record { job = some (to_record bob_row); done = true }))
    × (final.story ≡ 6)
    × (find_row 1 final.jobs ≡ some (finished 200 Json.null bob_row))
run_once-success_example =
    run_once-success truncate handlers worker busy db waiting_job queue-ClaimOf
      (unfold claim_due add_once claimed in (refl, refl)) count Json.null 6 (unfold prepare in refl)
      (unfold claim_due add_once in refl)

timeout-ne-lost : other "TimeoutError" ≢ lease_lost
timeout-ne-lost h = cc h

run_once-failure_example :
    let (r, final) = run_once truncate no_handlers worker busy db in
    let row = failed_row (200 + 30 * 2 ^ 0) (safe_error truncate (other "TimeoutError")) bob_row in
    (r ≡ ok (record { job = some (to_record row); done = false }))
    × (final.story ≡ 6)
    × (find_row 1 final.jobs ≡ some row)
run_once-failure_example =
    run_once-failure truncate no_handlers worker busy db waiting_job queue-ClaimOf
      (other "TimeoutError") (unfold claim_due add_once claimed in (refl, refl))
      (unfold claim_due add_once claimed in (refl, refl)) timeout-ne-lost
      (inl (unfold prepare in refl))
