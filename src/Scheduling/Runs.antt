-- ===== src/Scheduling/Runs.antt =====
-- Simulation runs: the `runs` table, its record and SqlAlchemyRunRepository
-- (src/rumor_mill/adapters/persistence/repositories.py). Instants are microseconds in UTC.
-- `Rate` is the type of a clock rate. Tick sizes and limits are numbers from 0; 0 stands for
-- every value that the code rejects as not positive.
use rumor_mill_ai.Prelude.{
  ℕ, Bool, true, false, ◌&&◌, ◌||◌, Option, none, some, List, [], ◌∷◌, ◌++◌, map, ltb, leb, ◌==◌,
  take, select, find_first, update_where,
}
use rumor_mill_ai.Prelude.Order.{sort_by}
use rumor_mill_ai.Jobs.Repo.{or_else}

pub data RunStatus : Type 0 where
  pending running paused completed failed : RunStatus

pub data ClockMode : Type 0 where
  wall paused manual : ClockMode

pub record RunModel (Rate : Type 0) : Type 0 where
  pub id : ℕ
  pub world_id : ℕ
  pub status : RunStatus
  pub seed : ℕ
  pub started_at : ℕ
  pub ended_at : Option ℕ
  pub clock_mode : ClockMode
  pub simulation_time : ℕ
  pub wall_time_anchor : ℕ
  pub clock_rate : Rate
  pub tick_seconds : ℕ
  pub max_catch_up_ticks : ℕ

pub record RunRecord (Rate : Type 0) : Type 0 where
  pub id : ℕ
  pub world_id : ℕ
  pub status : RunStatus
  pub seed : ℕ
  pub started_at : ℕ
  pub ended_at : Option ℕ
  pub clock_mode : ClockMode
  pub simulation_time : Option ℕ
  pub wall_time_anchor : Option ℕ
  pub clock_rate : Rate
  pub tick_seconds : ℕ
  pub max_catch_up_ticks : ℕ

abbrev pub is_running : RunStatus → Bool
is_running running = true
is_running _ = false

abbrev pub is_completed : RunStatus → Bool
is_completed completed = true
is_completed _ = false

abbrev pub is_wall : ClockMode → Bool
is_wall wall = true
is_wall _ = false

module _ {Rate : Type 0} where
  -- `RunRecord.__post_init__`
  abbrev pub post_init : RunRecord Rate → RunRecord Rate
  post_init run = record run {
    simulation_time = some (or_else run.simulation_time run.started_at);
    wall_time_anchor = some (or_else run.wall_time_anchor run.started_at);
  }

  abbrev pub to_record : RunModel Rate → RunRecord Rate
  to_record m = post_init (record {
    id = m.id;
    world_id = m.world_id;
    status = m.status;
    seed = m.seed;
    started_at = m.started_at;
    ended_at = m.ended_at;
    clock_mode = m.clock_mode;
    simulation_time = some m.simulation_time;
    wall_time_anchor = some m.wall_time_anchor;
    clock_rate = m.clock_rate;
    tick_seconds = m.tick_seconds;
    max_catch_up_ticks = m.max_catch_up_ticks;
  })

  -- The row that `add` inserts.
  unfoldable pub to_model : RunRecord Rate → RunModel Rate
  to_model run = record {
    id = run.id;
    world_id = run.world_id;
    status = run.status;
    seed = run.seed;
    started_at = run.started_at;
    ended_at = run.ended_at;
    clock_mode = run.clock_mode;
    simulation_time = or_else run.simulation_time run.started_at;
    wall_time_anchor = or_else run.wall_time_anchor run.started_at;
    clock_rate = run.clock_rate;
    tick_seconds = run.tick_seconds;
    max_catch_up_ticks = run.max_catch_up_ticks;
  }

  unfoldable pub add : RunRecord Rate → List (RunModel Rate) → List (RunModel Rate)
  unfolding to_model
  add run t = t ++ to_model run ∷ []

  abbrev pub has_id : ℕ → RunModel Rate → Bool
  has_id i m = m.id == i

  abbrev pub find_row : ℕ → List (RunModel Rate) → Option (RunModel Rate)
  find_row i t = find_first (has_id i) t

  abbrev pub record_of : Option (RunModel Rate) → Option (RunRecord Rate)
  record_of none = none
  record_of (some m) = some (to_record m)

  -- `get`, and `get_for_update`, whose lock lasts to the end of the transaction.
  unfoldable pub get : ℕ → List (RunModel Rate) → Option (RunRecord Rate)
  get i t = record_of (find_row i t)

  abbrev pub start_order : RunModel Rate → RunModel Rate → Bool
  start_order a b = ltb a.started_at b.started_at || a.started_at == b.started_at && leb a.id b.id

  unfoldable pub list_active : ℕ → List (RunModel Rate) → List (RunRecord Rate)
  unfolding sort_by
  list_active limit t =
      map to_record (take limit (sort_by start_order (select (λ m. is_running m.status) t)))

  unfoldable pub update_clock : ℕ → ℕ → ℕ → List (RunModel Rate) → List (RunModel Rate)
  update_clock i simulation_time wall_time_anchor t =
      update_where (has_id i)
        (λ m. record m { simulation_time = simulation_time; wall_time_anchor = wall_time_anchor }) t

  unfoldable pub mark_completed : ℕ → ℕ → List (RunModel Rate) → List (RunModel Rate)
  mark_completed i ended_at t =
      update_where (λ m. has_id i m && is_running m.status)
        (λ m. record m { status = completed; ended_at = some ended_at }) t
