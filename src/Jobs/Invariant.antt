-- ===== src/Jobs/Invariant.antt =====
-- What holds of every row of the `jobs` table between two transactions.
use rumor_mill_ai.Prelude.{ℕ, ◌≤◌, ◌<◌, ◌≡◌, Bool, true, false, Option, none, some, arith, String}
use rumor_mill_ai.Json.{Json}
use rumor_mill_ai.Jobs.Model.{pending, running, failed, dead, JobModel, JobRecord}
use rumor_mill_ai.Jobs.Repo.{
  is_running, is_completed, new_row, claimable, claimed, finished, failed_row, retried,
}

abbrev pub is_some {ℓ} : {A : Type ℓ} → Option A → Bool
is_some none = false
is_some (some a) = true

pub record IsValidRow (m : JobModel) : Type 0 where
  pub room : 0 < m.max_attempts
  pub within : m.attempts ≤ m.max_attempts
  pub fresh : m.status ≡ pending → m.attempts ≡ 0
  pub tried : m.status ≡ running → 0 < m.attempts
  pub retryable : m.status ≡ failed → (0 < m.attempts) × (m.attempts < m.max_attempts)
  pub exhausted : m.status ≡ dead → m.attempts ≡ m.max_attempts
  pub leased : is_some m.locked_by ≡ is_running m.status
  pub lease_timed : is_some m.lease_expires_at ≡ is_running m.status
  pub lock_timed : is_some m.locked_at ≡ is_running m.status
  pub stamped : is_some m.completed_at ≡ is_completed m.status
  pub answered : is_some m.result ≡ is_completed m.status

pub new_row-IsValidRow :
    (job : JobRecord) (created_at : ℕ)
    → 0 < job.max_attempts
    → job.status ≡ pending
    → IsValidRow (new_row job created_at)
unfolding new_row
new_row-IsValidRow job created_at room p = ground arith

pub claimed-IsValidRow :
    (worker_id : String) (now lease_until : ℕ) (m : JobModel)
    → IsValidRow m
    → claimable now m ≡ true
    → IsValidRow (claimed worker_id now lease_until m)
unfolding claimable claimed
claimed-IsValidRow worker_id now lease_until m v h = ground arith

pub finished-IsValidRow :
    (at : ℕ) (value : Json) (m : JobModel)
    → IsValidRow m
    → is_running m.status ≡ true
    → IsValidRow (finished at value m)
unfolding finished
finished-IsValidRow at value m v h = ground arith

pub failed_row-IsValidRow :
    (retry_at : ℕ) (error : String) (m : JobModel)
    → IsValidRow m
    → is_running m.status ≡ true
    → IsValidRow (failed_row retry_at error m)
unfolding failed_row
failed_row-IsValidRow retry_at error m v h = ground arith

pub retried-IsValidRow :
    (now : ℕ) (m : JobModel)
    → IsValidRow m
    → is_running m.status ≡ false
    → is_completed m.status ≡ false
    → IsValidRow (retried now m)
unfolding retried
retried-IsValidRow now m v h k = ground arith
