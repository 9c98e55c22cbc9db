-- ===== src/Jobs/Model.antt =====
-- Durable jobs: the `jobs` table (src/rumor_mill/adapters/persistence/models.py) and the job
-- record of the repository port (src/rumor_mill/engine/ports/repositories.py). A UUID is a
-- number, of which only equality is used; an instant is a number of microseconds in UTC.
use rumor_mill_ai.Prelude.{ℕ, String, Option, some}
use rumor_mill_ai.Json.{Json}

pub data JobStatus : Type 0 where
  pending running completed failed dead : JobStatus

-- A row of the `jobs` table.
pub record JobModel : Type 0 where
  pub id : ℕ
  pub run_id : ℕ
  pub idempotency_key : String
  pub kind : String
  pub status : JobStatus
  pub scheduled_at : ℕ
  pub available_at : ℕ
  pub locked_at : Option ℕ
  pub lease_expires_at : Option ℕ
  pub locked_by : Option String
  pub attempts : ℕ
  pub max_attempts : ℕ
  pub payload : Json
  pub error : Option String
  pub result : Option Json
  pub completed_at : Option ℕ
  pub created_at : ℕ

pub record JobRecord : Type 0 where
  pub id : ℕ
  pub run_id : ℕ
  pub idempotency_key : String
  pub kind : String
  pub status : JobStatus
  pub scheduled_at : ℕ
  pub payload : Json
  pub attempts : ℕ
  pub max_attempts : ℕ
  pub available_at : Option ℕ
  pub lease_expires_at : Option ℕ
  pub locked_by : Option String
  pub completed_at : Option ℕ
  pub error : Option String
  pub result : Option Json

-- `SqlAlchemyJobRepository._record` of a row that is there.
abbrev pub to_record : JobModel → JobRecord
to_record m = record {
  id = m.id;
  run_id = m.run_id;
  idempotency_key = m.idempotency_key;
  kind = m.kind;
  status = m.status;
  scheduled_at = m.scheduled_at;
  payload = m.payload;
  attempts = m.attempts;
  max_attempts = m.max_attempts;
  available_at = some m.available_at;
  lease_expires_at = m.lease_expires_at;
  locked_by = m.locked_by;
  completed_at = m.completed_at;
  error = m.error;
  result = m.result;
}
