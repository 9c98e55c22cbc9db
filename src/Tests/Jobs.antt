-- ===== src/Tests/Jobs.antt =====
-- A small jobs table, and the theorems on it.
use rumor_mill_ai.Prelude.{
  ◌+◌, ◌≤◌, ◌≡◌, ◌≢◌, refl, String, false, none, some, List, [], ◌∷◌, arith, raise, value_error,
  eq_iff, inl, inr,
}
use rumor_mill_ai.Json.{Json}
use rumor_mill_ai.Jobs.Model.{JobModel, JobRecord, JobStatus, to_record}
use rumor_mill_ai.Jobs.Repo.{
  Table, find_row, claimable, claimed, claim_due, claim_due_from, complete, fail, retry, add_once,
}
use rumor_mill_ai.Jobs.Invariant.{IsValidRow}
use rumor_mill_ai.Jobs.Table.{IsValid}
use rumor_mill_ai.Jobs.Claim.{
  ClaimOf, Claims, ClaimsEarliest, claim_due_from-Claims, claim_due-earliest,
}
use rumor_mill_ai.Jobs.Leases.{stale_worker}
use rumor_mill_ai.Jobs.Steps.{
  Op, add_job, claim_job, complete_job, fail_job, retry_job, apply, MovesIn, apply-refines,
}
use rumor_mill_ai.Jobs.Abandoned.{IsLastClaim, run-abandoned}
use rumor_mill_ai.Jobs.Traces.{
  run, AreRequests, run-IsValid, run-completed, Life, born, then_claimed, Life-attempts,
}

abbrev pub waiting_job : JobModel
waiting_job = record {
  id = 1;
  run_id = 7;
  idempotency_key = "run:7:dawn";
  kind = "scene";
  status = JobStatus.pending;
  scheduled_at = 50;
  available_at = 50;
  locked_at = none;
  lease_expires_at = none;
  locked_by = none;
  attempts = 0;
  max_attempts = 2;
  payload = Json.null;
  error = none;
  result = none;
  completed_at = none;
  created_at = 10;
}

abbrev pub done_job : JobModel
done_job = record waiting_job {
  id = 2;
  idempotency_key = "run:7:noon";
  status = JobStatus.completed;
  attempts = 1;
  result = some Json.null;
  completed_at = some 60;
}

abbrev pub queue : Table
queue = waiting_job ∷ done_job ∷ []

abbrev pub new_job : JobRecord
new_job = record (to_record waiting_job) { id = 3; idempotency_key = "run:7:dusk" }

waiting_job-IsValidRow : IsValidRow waiting_job
waiting_job-IsValidRow = ground arith

done_job-IsValidRow : IsValidRow done_job
done_job-IsValidRow = ground arith

queue-IsValid : IsValid queue
queue-IsValid = record {
  rows = (waiting_job-IsValidRow, (done_job-IsValidRow, tt));
  ids_unique = refl;
  keys_unique = refl;
}

abbrev pub history : List Op
history =
    add_job new_job 20
    ∷ claim_job queue "ada" 100 400
    ∷ fail_job 1 "ada" 500 "TimeoutError"
    ∷ claim_job queue "bob" 600 900
    ∷ complete_job 1 "bob" 700 Json.null
    ∷ retry_job 1 800
    ∷ add_job new_job 900
    ∷ add_job (record (to_record done_job) { status = JobStatus.pending }) 901
    ∷ []

history-AreRequests : AreRequests history queue
unfolding apply retry complete claim_due_from fail add_once
history-AreRequests = (
  (ground arith, refl, inr refl),
  (
    tt,
    (tt, (tt, (tt, (tt, ((ground arith, refl, inl refl), ((ground arith, refl, inl refl), tt)))))),
  ),
)

run-IsValid_example : IsValid (run history queue)
run-IsValid_example = run-IsValid history queue history-AreRequests queue-IsValid

run-completed_example : find_row 2 (run history queue) ≡ some done_job
run-completed_example =
    run-completed history queue 2 done_job history-AreRequests queue-IsValid refl refl

apply-refines_example : MovesIn 1 waiting_job (apply (claim_job queue "ada" 100 400) queue)
apply-refines_example = apply-refines 1 queue waiting_job refl refl (claim_job queue "ada" 100 400)

claim_due-earliest_example : ClaimsEarliest "ada" 100 400 queue (claim_due "ada" 100 400 queue)
claim_due-earliest_example = claim_due-earliest "ada" 100 400 queue refl

claim_due_from-Claims_example : Claims "ada" 100 400 queue (claim_due_from [] "ada" 100 400 queue)
claim_due_from-Claims_example = claim_due_from-Claims "ada" 100 400 [] queue refl

pub queue-ClaimOf : ClaimOf "bob" 100 400 queue (claim_due "bob" 100 400 queue) waiting_job
unfolding claim_due claimable
queue-ClaimOf = (refl, refl, refl, refl)

abbrev ada : String
ada = "ada"

abbrev bob : String
bob = "bob"

ada-ne-bob : ada ≢ bob
ada-ne-bob h = ground (arith, eq_iff ada bob)

stale_worker_example :
    let t = (claim_due "bob" 100 400 queue).1 in
    (complete 1 "ada" 200 Json.null t ≡ (false, t))
    × (fail 1 "ada" 200 "TimeoutError" t
        ≡ (raise (value_error "job is not leased by this worker"), t))
stale_worker_example =
    stale_worker "ada" "bob" 100 400 queue (claim_due "bob" 100 400 queue) waiting_job 200 Json.null
      "TimeoutError" ada-ne-bob refl queue-ClaimOf

done_job-not_claimable : claimable 100 done_job ≡ false
unfolding claimable
done_job-not_claimable = refl

first_claim : Life waiting_job 1 (claimed "ada" 100 400 waiting_job)
first_claim = then_claimed born "ada" 100 400 (unfold claimable in refl)

Life-attempts_example :
    (waiting_job.attempts + 1 ≤ waiting_job.max_attempts)
    × (waiting_job.attempts + 1 ≡ waiting_job.max_attempts
        → ((claimed "ada" 100 400 waiting_job).status ≡ JobStatus.failed → ⊥)
          × ((claimed "ada" 100 400 waiting_job).status ≡ JobStatus.pending → ⊥))
Life-attempts_example = Life-attempts first_claim waiting_job-IsValidRow

-- Bob took the job's last attempt.
abbrev last_job : JobModel
last_job = record (claimed "bob" 100 400 waiting_job) { attempts = 2 }

abbrev last_queue : Table
last_queue = last_job ∷ done_job ∷ []

last_queue-IsValid : IsValid last_queue
unfolding claimed
last_queue-IsValid = record {
  rows = (ground arith, (done_job-IsValidRow, tt));
  ids_unique = refl;
  keys_unique = refl;
}

last_job-IsLastClaim : IsLastClaim bob last_job
unfolding claimed
last_job-IsLastClaim = record { live = refl; owner = refl; spent = refl }

-- Somebody claims, retries and adds the job again.
abbrev abandoned_history : List Op
abandoned_history =
    claim_job last_queue "ada" 900 1200
    ∷ retry_job 1 1000
    ∷ add_job (to_record waiting_job) 1100
    ∷ []

abandoned_history-AreRequests : AreRequests abandoned_history last_queue
unfolding claimed apply retry claim_due_from
abandoned_history-AreRequests = (tt, (tt, ((ground arith, refl, inl refl), tt)))

run-abandoned_example : find_row 1 (run abandoned_history last_queue) ≡ some last_job
run-abandoned_example =
    run-abandoned bob abandoned_history last_queue 1 last_job abandoned_history-AreRequests
      (tt, (tt, (tt, tt))) last_queue-IsValid (unfold claimed in refl) last_job-IsLastClaim
