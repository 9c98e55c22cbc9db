-- ===== src/Scheduling/Advance.antt =====
-- SimulationScheduler (src/rumor_mill/engine/scheduling.py). A source of work reads the
-- committed database, so it is a function of the database at the start of the transaction.
use rumor_mill_ai.Prelude.{
  ℕ, suc, ◌+◌, ◌*◌, ◌-◌, String, Bool, false, not, ◌&&◌, ◌||◌, Option, none, some, List, [], ◌∷◌,
  ltb, leb, ◌==◌, if◌then◌else◌, min, Result, ok, raise, ◌>>=◌, value_error, lookup_error,
}
use rumor_mill_ai.Prelude.Int.{ℤ, pos, negsuc}
use rumor_mill_ai.Floats.{Floats}
use rumor_mill_ai.Json.{Json}
use rumor_mill_ai.Jobs.Model.{JobRecord, JobStatus}
use rumor_mill_ai.Jobs.Repo.{Table, add_once, or_else}
use rumor_mill_ai.Scheduling.Runs.{
  RunModel, RunRecord, get, update_clock, mark_completed, is_running, is_wall,
}

pub record ScheduledWork : Type 0 where
  pub key : String
  pub kind : String
  pub scheduled_at : ℕ
  pub payload : Json

pub record Db (Rate : Type 0) : Type 0 where
  pub runs : List (RunModel Rate)
  pub jobs : Table

pub record WorkSource (Rate : Type 0) : Type 0 where
  pub due_work : Db Rate → RunRecord Rate → (after through : ℕ) → Result (List ScheduledWork)
  pub exhausted : Db Rate → RunRecord Rate → (at : ℕ) → Result Bool

abbrev pub no_scheduled_work : {Rate : Type 0} → WorkSource Rate
no_scheduled_work = record {
  due_work = λ db run after through. ok [];
  exhausted = λ db run at. ok false;
}

pub record AdvanceResult : Type 0 where
  pub previous_time : ℕ
  pub simulation_time : ℕ
  pub ticks : ℕ
  pub jobs_enqueued : ℕ
  pub catch_up_limited : Bool

-- What the clock returns: an instant, and whether it carries a timezone.
pub record Reading : Type 0 where
  pub instant : ℕ
  pub aware : Bool

-- The identifiers that `uuid4` draws, the time stamp of the rows that the transaction inserts,
-- and `f"run:{run.id}:{work.key}"`.
pub record Supplies : Type 0 where
  pub fresh : ℕ → ℕ
  pub created_at : ℕ
  pub run_key : ℕ → String → String

module _ (F : Floats) where
  open F use {Carrier, mul, div, floor_div, le, of_ℕ, trunc, total_seconds, microseconds}

  -- `int(elapsed * run.clock_rate // run.tick_seconds)`; `now - anchor` stops at 0, as
  -- `max(0.0, …)` does.
  unfoldable pub wall_ticks : RunRecord Carrier → (now anchor : ℕ) → ℕ
  wall_ticks run now anchor =
      trunc (floor_div (mul (total_seconds (now - anchor)) run.clock_rate) (of_ℕ run.tick_seconds))

  unfoldable pub ticks_due : RunRecord Carrier → (now anchor manual_ticks : ℕ) → Result (ℕ × Bool)
  ticks_due run now anchor manual_ticks =
      if run.tick_seconds == 0 || le run.clock_rate (of_ℕ 0) || run.max_catch_up_ticks == 0
      then raise (value_error "clock configuration values must be positive")
      else (if not (manual_ticks == 0)
          then ok (manual_ticks, false)
          else (if not (is_wall run.clock_mode)
              then ok (0, false)
              else let due = wall_ticks run now anchor in
                ok (min due run.max_catch_up_ticks, ltb run.max_catch_up_ticks due)))

-- The job of a unit of work, the `n`-th of the transaction.
unfoldable pub job_of : Supplies → ℕ → ℕ → ScheduledWork → JobRecord
job_of sup run_id n work = record {
  id = sup.fresh n;
  run_id = run_id;
  idempotency_key = sup.run_key run_id work.key;
  kind = work.kind;
  status = JobStatus.pending;
  scheduled_at = work.scheduled_at;
  payload = work.payload;
  attempts = 0;
  max_attempts = 5;
  available_at = none;
  lease_expires_at = none;
  locked_by = none;
  completed_at = none;
  error = none;
  result = none;
}

abbrev pub count_added : Bool → ℕ × Table → Result (ℕ × Table)
count_added added (k, t) = ok ((if added then suc k else k), t)

-- The loop over the due work, from the `n`-th job: how many were added, and the table.
unfoldable pub enqueue :
    Supplies → (run_id previous target n : ℕ) → List ScheduledWork → Table → Result (ℕ × Table)
unfolding job_of
enqueue sup run_id previous target n [] t = ok (0, t)
enqueue sup run_id previous target n (work ∷ works) t =
    let (added, t') = add_once (job_of sup run_id n work) sup.created_at t in
    let rest = enqueue sup run_id previous target (suc n) works t' in
    if not (ltb previous work.scheduled_at && leb work.scheduled_at target)
    then raise (value_error "scheduled work lies outside the advanced interval")
    else (rest >>= count_added added)

abbrev pub second : ℕ
second = 1000000

module _ (F : Floats) (source : WorkSource (F.Carrier)) (sup : Supplies) where
  open F use {Carrier, div, of_ℕ, microseconds}

  unfoldable pub clock_moved :
      RunRecord Carrier
      → (anchor ticks target : ℕ) → Db Carrier
      → ℕ × Table
      → Result (ℕ × Db Carrier)
  clock_moved run anchor ticks target db (enqueued, jobs) =
      let consumed = microseconds (div (of_ℕ (ticks * run.tick_seconds)) run.clock_rate) in
      ok (
        enqueued,
        record { runs = update_clock run.id target (anchor + consumed) db.runs; jobs = jobs },
      )

  abbrev pub book :
      RunRecord Carrier
      → (previous anchor ticks target : ℕ) → Db Carrier
      → List ScheduledWork
      → Result (ℕ × Db Carrier)
  book run previous anchor ticks target db works =
      enqueue sup run.id previous target 0 works db.jobs >>= clock_moved run anchor ticks target db

  -- The block under `if ticks`.
  unfoldable pub move_clock :
      RunRecord Carrier → (previous anchor ticks target : ℕ) → Db Carrier → Result (ℕ × Db Carrier)
  unfolding clock_moved
  move_clock run previous anchor ticks target db =
      source.due_work db run previous target >>= book run previous anchor ticks target db

  -- The block under `if run.status is RunStatus.RUNNING and …`.
  unfoldable pub end_run : RunRecord Carrier → ℕ → (start now : Db Carrier) → Result (Db Carrier)
  end_run run target start db =
      if is_running run.status
      then (source.exhausted start run target >>= λ over.
          ok (if over then record db { runs = mark_completed run.id target db.runs } else db))
      else ok db

  abbrev pub report :
      (previous target ticks : ℕ) (limited : Bool) (enqueued : ℕ) (final : Db Carrier)
      → Result (AdvanceResult × Db Carrier)
  report previous target ticks limited enqueued final = ok (
    record {
      previous_time = previous;
      simulation_time = target;
      ticks = ticks;
      jobs_enqueued = enqueued;
      catch_up_limited = limited;
    },
    final,
  )

  abbrev pub after_move :
      RunRecord Carrier
      → (previous target ticks : ℕ) → Bool
      → Db Carrier
      → ℕ × Db Carrier
      → Result (AdvanceResult × Db Carrier)
  after_move run previous target ticks limited db (enqueued, moved) =
      end_run run target db moved >>= report previous target ticks limited enqueued

  abbrev pub after_ticks :
      RunRecord Carrier
      → (previous anchor : ℕ) → Db Carrier
      → ℕ × Bool
      → Result (AdvanceResult × Db Carrier)
  after_ticks run previous anchor db (ticks, limited) =
      let target = previous + ticks * run.tick_seconds * second in
      (if ticks == 0 then ok (0, db) else move_clock run previous anchor ticks target db)
      >>= after_move run previous target ticks limited db

  unfoldable pub advance_run :
      RunRecord Carrier → (now manual_ticks : ℕ) → Db Carrier → Result (AdvanceResult × Db Carrier)
  unfolding move_clock end_run ticks_due
  advance_run run now manual_ticks db =
      let previous = or_else run.simulation_time run.started_at in
      let anchor = or_else run.wall_time_anchor run.started_at in
      ticks_due F run now anchor manual_ticks >>= after_ticks run previous anchor db

  abbrev pub found_run :
      ℕ → ℕ → Option (RunRecord Carrier) → Db Carrier → Result (AdvanceResult × Db Carrier)
  found_run now manual_ticks none db = raise lookup_error
  found_run now manual_ticks (some run) db = advance_run run now manual_ticks db

  -- A transaction that raises leaves the database that it met.
  abbrev pub transact : {A : Type 0} → Db Carrier → Result (A × Db Carrier) → Result A × Db Carrier
  transact db (raise e) = (raise e, db)
  transact db (ok (a, db')) = (ok a, db')

  unfoldable pub advance :
      (run_id : ℕ) → (manual_ticks : ℤ) → Reading → Db Carrier → Result AdvanceResult × Db Carrier
  unfolding advance_run
  advance run_id (negsuc k) reading db = (raise (value_error "manual_ticks cannot be negative"), db)
  advance run_id (pos manual_ticks) reading db =
      if not reading.aware
      then (raise (value_error "clock must return a timezone-aware datetime"), db)
      else transact db (found_run reading.instant manual_ticks (get run_id db.runs) db)
