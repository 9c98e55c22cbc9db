-- ===== src/Jobs/Repo.antt =====
-- SqlAlchemyJobRepository (src/rumor_mill/adapters/persistence/repositories.py) over a table
-- that is a list of rows in the order of their insertion. An UPDATE is `update_where` with its
-- row count; a comparison with NULL is not true, so it selects no row.
use rumor_mill_ai.Prelude.{
  ℕ, ◌+◌, String, Bool, true, false, ◌&&◌, ◌||◌, not, Option, none, some, List, [], ◌∷◌, ◌++◌, map,
  ltb, leb, ◌==◌, str_eq, if◌then◌else◌, take, select, any, find_first, update_where, count_where,
  Result, ok, raise, value_error, lookup_error,
}
use rumor_mill_ai.Prelude.Order.{sort_by}
use rumor_mill_ai.Json.{Json}
use rumor_mill_ai.Jobs.Model.{
  JobStatus, pending, running, completed, failed, dead, JobModel, JobRecord, to_record,
}

abbrev pub Table : Type 0
Table = List JobModel

-- Equality of status values, as the SQL compares their strings.
abbrev pub is_pending : JobStatus → Bool
is_pending pending = true
is_pending _ = false

abbrev pub is_running : JobStatus → Bool
is_running running = true
is_running _ = false

abbrev pub is_completed : JobStatus → Bool
is_completed completed = true
is_completed _ = false

abbrev pub is_failed : JobStatus → Bool
is_failed failed = true
is_failed _ = false

abbrev pub is_dead : JobStatus → Bool
is_dead dead = true
is_dead _ = false

-- `column <= now` and `column == name` for nullable columns.
abbrev pub le_now : Option ℕ → ℕ → Bool
le_now none now = false
le_now (some t) now = leb t now

abbrev pub holds : Option String → String → Bool
holds none w = false
holds (some v) w = str_eq v w

abbrev pub or_else : {A : Type 0} → Option A → A → A
or_else none a = a
or_else (some b) a = b

-- `created_at` is the column's default, the database's clock at the insertion.
unfoldable pub new_row : JobRecord → ℕ → JobModel
new_row job created_at = record {
  id = job.id;
  run_id = job.run_id;
  idempotency_key = job.idempotency_key;
  kind = job.kind;
  status = job.status;
  scheduled_at = job.scheduled_at;
  available_at = or_else job.available_at job.scheduled_at;
  locked_at = none;
  lease_expires_at = none;
  locked_by = none;
  attempts = 0;
  max_attempts = job.max_attempts;
  payload = job.payload;
  error = none;
  result = none;
  completed_at = none;
  created_at = created_at;
}

abbrev pub has_key : String → JobModel → Bool
has_key k m = str_eq m.idempotency_key k

unfoldable pub add_once : JobRecord → ℕ → Table → Bool × Table
unfolding new_row
add_once job created_at t =
    if any (has_key job.idempotency_key) t
    then (false, t)
    else (true, t ++ new_row job created_at ∷ [])

abbrev pub has_id : ℕ → JobModel → Bool
has_id i m = m.id == i

abbrev pub find_row : ℕ → Table → Option JobModel
find_row i t = find_first (has_id i) t

abbrev pub record_of : Option JobModel → Option JobRecord
record_of none = none
record_of (some m) = some (to_record m)

unfoldable pub get : ℕ → Table → Option JobRecord
get i t = record_of (find_row i t)

abbrev pub kind_matches : Option String → JobModel → Bool
kind_matches none m = true
kind_matches (some k) m = str_eq m.kind k

unfoldable pub completed_keys : ℕ → Option String → Table → List String
completed_keys run_id kind t =
    map (λ m. m.idempotency_key)
      (select (λ m. m.run_id == run_id && is_completed m.status && kind_matches kind m) t)

-- The WHERE clause shared by the query and the update of `claim_due`.
unfoldable pub claimable : ℕ → JobModel → Bool
claimable now m =
    leb m.available_at now
    && (is_pending m.status
        || is_failed m.status
        || is_running m.status && le_now m.lease_expires_at now)
    && ltb m.attempts m.max_attempts

abbrev pub claim_order : JobModel → JobModel → Bool
claim_order a b =
    ltb a.available_at b.available_at
    || a.available_at == b.available_at && leb a.created_at b.created_at

unfoldable pub claimed : String → ℕ → ℕ → JobModel → JobModel
claimed worker_id now lease_until m = record m {
  status = running;
  locked_at = some now;
  lease_expires_at = some lease_until;
  locked_by = some worker_id;
  attempts = m.attempts + 1;
  error = none;
}

unfoldable pub candidate_ids : ℕ → Table → List ℕ
unfolding claimable sort_by
candidate_ids now t = map (λ m. m.id) (take 10 (sort_by claim_order (select (claimable now) t)))

-- The loop over the candidates. The table may have changed since they were selected.
unfoldable pub claim_first : String → ℕ → ℕ → List ℕ → Table → Option JobRecord × Table
unfolding claimable claimed get
claim_first worker_id now lease_until [] t = (none, t)
claim_first worker_id now lease_until (i ∷ is) t =
    let where_clause : (JobModel → Bool) = λ m. has_id i m && claimable now m in
    let t' = update_where where_clause (claimed worker_id now lease_until) t in
    let rest = claim_first worker_id now lease_until is t' in
    if count_where where_clause t == 1 then (get i t', t') else rest

-- `claim_due`, where other transactions may commit between the query, which reads
-- `snapshot`, and the updates, which meet `t`.
unfoldable pub claim_due_from :
    (snapshot : Table) → String → ℕ → ℕ → Table → Option JobRecord × Table
unfolding candidate_ids claim_first
claim_due_from snapshot worker_id now lease_until t =
    claim_first worker_id now lease_until (candidate_ids now snapshot) t

unfoldable pub claim_due : String → ℕ → ℕ → Table → Option JobRecord × Table
unfolding claim_due_from
claim_due worker_id now lease_until t = claim_due_from t worker_id now lease_until t

abbrev pub leased_by : ℕ → String → JobModel → Bool
leased_by i worker_id m = has_id i m && (is_running m.status && holds m.locked_by worker_id)

unfoldable pub finished : ℕ → Json → JobModel → JobModel
finished at value m = record m {
  status = completed;
  completed_at = some at;
  result = some value;
  locked_at = none;
  locked_by = none;
  lease_expires_at = none;
  error = none;
}

unfoldable pub complete : ℕ → String → ℕ → Json → Table → Bool × Table
unfolding finished
complete i worker_id completed_at result t = (
  count_where (leased_by i worker_id) t == 1,
  update_where (leased_by i worker_id) (finished completed_at result) t,
)

-- The row after `fail`.
unfoldable pub failed_row : ℕ → String → JobModel → JobModel
failed_row retry_at error m = record m {
  status = if leb m.max_attempts m.attempts then dead else failed;
  available_at = retry_at;
  error = some error;
  locked_at = none;
  locked_by = none;
  lease_expires_at = none;
}

-- `model is None or model.status != "running"`
unfoldable pub fail_row : ℕ → ℕ → String → Option JobModel → Table → Result JobRecord × Table
fail_row i retry_at error none t = (raise (value_error "job is not leased by this worker"), t)
fail_row i retry_at error (some m) t =
    if not (is_running m.status)
    then (raise (value_error "job is not leased by this worker"), t)
    else (
      ok (to_record (failed_row retry_at error m)),
      update_where (has_id i) (failed_row retry_at error) t,
    )

unfoldable pub fail : ℕ → String → ℕ → String → Table → Result JobRecord × Table
unfolding fail_row failed_row
fail i worker_id retry_at error t =
    fail_row i retry_at error (find_first (λ m. has_id i m && holds m.locked_by worker_id) t) t

unfoldable pub retried : ℕ → JobModel → JobModel
retried now m = record m {
  status = pending;
  available_at = now;
  attempts = 0;
  error = none;
  completed_at = none;
  result = none;
}

unfoldable pub retry_row : ℕ → ℕ → Option JobModel → Table → Result JobRecord × Table
retry_row i now none t = (raise lookup_error, t)
retry_row i now (some m) t =
    if not (is_failed m.status || is_dead m.status)
    then (raise (value_error "only failed or dead jobs can be retried"), t)
    else (ok (to_record (retried now m)), update_where (has_id i) (retried now) t)

unfoldable pub retry : ℕ → ℕ → Table → Result JobRecord × Table
unfolding retry_row retried
retry i now t = retry_row i now (find_row i t) t
