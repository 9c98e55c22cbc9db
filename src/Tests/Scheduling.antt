-- ===== src/Tests/Scheduling.antt =====
-- A run on the wall clock with one unit of work, and the theorems on its advances.
use rumor_mill_ai.Prelude.{
  ℕ, ◌*◌, ◌≤◌, ◌≡◌, refl, true, false, none, [], ◌∷◌, Result, Exc, ok, raise, ◌⊎◌,
}
use rumor_mill_ai.Prelude.Int.{ℤ, pos}
use rumor_mill_ai.Floats.Micro.{micro, million}
use rumor_mill_ai.Json.{Json}
use rumor_mill_ai.Jobs.Model.{JobModel}
use rumor_mill_ai.Jobs.Repo.{Table, new_row, add_once}
use rumor_mill_ai.Scheduling.Runs.{RunModel, RunStatus, ClockMode, get, update_clock}
use rumor_mill_ai.Scheduling.Advance.{
  ScheduledWork, Db, WorkSource, AdvanceResult, Reading, Supplies, no_scheduled_work, enqueue,
  job_of, advance,
}
use rumor_mill_ai.Scheduling.Transaction.{IsAdvanced, advance_lem, advance-contiguous}

-- The run started at second 1000, with ticks of 300 seconds at rate 1.
abbrev town_run : RunModel ℤ
town_run = record {
  id = 7;
  world_id = 3;
  status = RunStatus.running;
  seed = 11;
  started_at = 1000 * million;
  ended_at = none;
  clock_mode = ClockMode.wall;
  simulation_time = 1000 * million;
  wall_time_anchor = 1000 * million;
  clock_rate = pos million;
  tick_seconds = 300;
  max_catch_up_ticks = 12;
}

abbrev beat : ScheduledWork
beat = record { key = "beat"; kind = "scene"; scheduled_at = 1200 * million; payload = Json.null }

abbrev beats : WorkSource ℤ
beats = record {
  due_work = λ db run after through. ok (beat ∷ []);
  exhausted = λ db run at. ok true;
}

abbrev supplies : Supplies
supplies = record { fresh = λ n. n; created_at = 5; run_key = λ i key. key }

abbrev db : Db ℤ
db = record { runs = town_run ∷ []; jobs = [] }

-- Seven minutes later.
abbrev reading : Reading
reading = record { instant = 1420 * million; aware = true }

abbrev beat_row : JobModel
beat_row = new_row (job_of supplies 7 0 beat) 5

abbrev enqueued : Result (ℕ × Table)
enqueued = ok (1, beat_row ∷ [])

beat-enqueued : enqueue supplies 7 (1000 * million) (1300 * million) 0 (beat ∷ []) [] ≡ enqueued
unfolding enqueue add_once
beat-enqueued = refl

advance_lem_example :
    let (o, final) = advance micro beats supplies 7 (pos 0) reading db in
    ((e : Exc) × (o ≡ raise e) × (final ≡ db))
    ⊎ ((r : AdvanceResult) × (o ≡ ok r)
        × IsAdvanced micro beats supplies town_run (1420 * million) 0 db r final)
advance_lem_example = advance_lem micro beats supplies 7 0 reading db town_run refl

-- Two ticks by hand, then one.
abbrev first_result : AdvanceResult
first_result = record {
  previous_time = 1000 * million;
  simulation_time = 1600 * million;
  ticks = 2;
  jobs_enqueued = 0;
  catch_up_limited = false;
}

abbrev second_result : AdvanceResult
second_result = record {
  previous_time = 1600 * million;
  simulation_time = 1900 * million;
  ticks = 1;
  jobs_enqueued = 0;
  catch_up_limited = false;
}

abbrev first_db : Db ℤ
first_db = record {
  runs =
      record town_run { simulation_time = 1600 * million; wall_time_anchor = 1600 * million } ∷ [];
  jobs = [];
}

abbrev second_db : Db ℤ
second_db = record {
  runs =
      record town_run { simulation_time = 1900 * million; wall_time_anchor = 1900 * million } ∷ [];
  jobs = [];
}

abbrev idle_advance : ℕ → Db ℤ → Result AdvanceResult × Db ℤ
idle_advance k d = advance micro no_scheduled_work supplies 7 (pos k) reading d

abbrev returned : AdvanceResult → Db ℤ → Result AdvanceResult × Db ℤ
returned r d = (ok r, d)

first_advance : idle_advance 2 db ≡ returned first_result first_db
unfolding advance update_clock get enqueue
first_advance = refl

second_advance : idle_advance 1 first_db ≡ returned second_result second_db
unfolding advance update_clock get enqueue
second_advance = refl

advance-contiguous_example :
    (second_result.previous_time ≡ first_result.simulation_time)
    × (first_result.previous_time ≤ first_result.simulation_time)
    × (first_result.simulation_time ≤ second_result.simulation_time)
advance-contiguous_example =
    advance-contiguous micro no_scheduled_work supplies 7 2 1 reading reading db first_db second_db
      town_run first_result second_result refl first_advance second_advance
