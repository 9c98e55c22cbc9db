-- ===== src/Tests/Lighthouse.antt =====
-- A season with one beat and one routine, and the theorems on its work.
use mathlib.Core.List.Memᴰ.{head}
use rumor_mill_ai.Prelude.{
  ℕ, ◌+◌, ◌*◌, ◌≡◌, refl, true, false, none, some, List, [], ◌∷◌, arith, ok, raise, value_error,
  str_eq, if◌then◌else◌,
}
use rumor_mill_ai.Prelude.Int.{ℤ, pos}
use rumor_mill_ai.Prelude.Member.{Member}
use rumor_mill_ai.Prelude.Order.{sort_by}
use rumor_mill_ai.Floats.Micro.{million}
use rumor_mill_ai.Json.{Json, Items, Fields, get}
use rumor_mill_ai.Jobs.Repo.{Table}
use rumor_mill_ai.Scheduling.Runs.{RunRecord, RunStatus, ClockMode}
use rumor_mill_ai.Scheduling.Advance.{ScheduledWork, Db, Supplies, enqueue}
use rumor_mill_ai.Worlds.Records.{WorldRecord}
use rumor_mill_ai.Worlds.Records as Records
use rumor_mill_ai.Lighthouse.Reading.{Formats, routines_of, routine_offset}
use rumor_mill_ai.Lighthouse.Source.{
  due_work, exhausted, definition_of, beat_unit, routine_unit, day_length,
}
use rumor_mill_ai.Lighthouse.Due.{due_work-enqueue}
use rumor_mill_ai.Lighthouse.Days.{is_numbered}
use rumor_mill_ai.Lighthouse.Over.{exhausted-final}
use rumor_mill_ai.Lighthouse.Occurs.{due_work_complete}

abbrev formats : Formats
formats = record {
  fromisoformat = λ s.
      if str_eq s "09:00:00"
      then some (record { hour = 9; minute = 0; second = 0; microsecond = 0; has_tzinfo = false })
      else none;
  parse_int = λ s. raise (value_error "invalid literal for int()");
  print_json = λ j. "1";
  print_id = λ n. "7";
}

abbrev arrival : Json
arrival = Json.obj (
    Fields.field "id" (Json.str "arrival") (
      Fields.field "earliest_day" (Json.num 1) (
        Fields.field "latest_day" (Json.num 2)
          (Fields.field "depends_on" (Json.arr Items.nil) Fields.end))))

abbrev day_one : Json
day_one = Json.num 1

abbrev baking : Json
baking = Json.obj (
    Fields.field "id" (Json.str "baking") (
      Fields.field "days" (Json.arr (Items.cons day_one Items.nil))
        (Fields.field "start_time" (Json.str "09:00:00") Fields.end)))

abbrev season : Json
season = Json.obj (
    Fields.field "beat_graph"
      (Json.obj (Fields.field "beats" (Json.arr (Items.cons arrival Items.nil)) Fields.end))
      (Fields.field "routines" (Json.arr (Items.cons baking Items.nil)) Fields.end))

abbrev worlds : List WorldRecord
worlds = record { id = 3; slug = "lighthouse"; definition = season } ∷ []

-- A run that starts on the first day after the epoch.
abbrev start : ℕ
start = day_length

abbrev season_run : RunRecord ℤ
season_run = record {
  id = 7;
  world_id = 3;
  status = RunStatus.running;
  seed = 11;
  started_at = start;
  ended_at = none;
  clock_mode = ClockMode.manual;
  simulation_time = some start;
  wall_time_anchor = some start;
  clock_rate = pos million;
  tick_seconds = 300;
  max_catch_up_ticks = 12;
}

abbrev season_db : Db ℤ
season_db = record { runs = []; jobs = [] }

abbrev season_supplies : Supplies
season_supplies = record { fresh = λ n. n; created_at = 5; run_key = λ i key. key }

abbrev noon : ℕ
noon = start + 43200 * million

abbrev nine : ℕ
nine = start + 32400 * million

abbrev morning_work : List ScheduledWork
morning_work =
    beat_unit formats "arrival" arrival (start + 300 * million)
    ∷ routine_unit formats baking (Json.str "baking") day_one nine
    ∷ []

morning-due : due_work formats worlds season_db season_run start noon ≡ ok morning_work
unfolding due_work sort_by
morning-due = refl

-- The next day's noon, when the beat's window and the routine are over.
abbrev second_day : ℕ
second_day = start + 2 * day_length

season-over : exhausted formats worlds season_db season_run second_day ≡ ok true
unfolding exhausted
season-over = refl

due_work-enqueue_example :
    (added : ℕ) × (jobs' : Table) × (enqueue season_supplies 7 start noon 0 morning_work []
      ≡ ok (added, jobs'))
due_work-enqueue_example =
    due_work-enqueue formats worlds season_supplies season_db season_run start noon 0 [] morning-due

third_day-work : due_work formats worlds season_db season_run second_day (second_day + noon) ≡ ok []
unfolding due_work sort_by
third_day-work = refl

abbrev no_work : List ScheduledWork
no_work = []

season-is_numbered : is_numbered (definition_of formats worlds season_run) ≡ true
unfolding Records.get routines_of
season-is_numbered = refl

exhausted-final_example : no_work ≡ []
exhausted-final_example =
    exhausted-final formats worlds season_db season_db season_run second_day second_day
      (second_day + noon) season-is_numbered season-over (omega arith) third_day-work

due_work_complete_example :
    (id : Json) × (get "id" baking ≡ some id)
    × Member (routine_unit formats baking id day_one nine) morning_work
due_work_complete_example =
    due_work_complete formats worlds season_db season_run start noon (32400 * million) 1 season
      baking day_one (baking ∷ []) (day_one ∷ []) morning_work (unfold Records.get in refl)
      (unfold routines_of in refl) (head refl) (unfold routine_offset in refl) refl (head refl) refl
      (omega arith) (omega arith) morning-due
