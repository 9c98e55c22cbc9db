-- ===== src/Recaps/Plan.antt =====
-- DailyRecapPlanner (src/rumor_mill/engine/recap_publication.py) with the runs that it is called
-- for. A story date is a number of days; the key of a run's recap, the identifier that `uuid5`
-- makes of it, and the print of a date are parameters. A negative limit is 0.
use rumor_mill_ai.Prelude.{
  ℕ, suc, ◌*◌, String, Bool, false, not, ◌&&◌, ◌||◌, Option, none, some, List, [], ◌∷◌, map, select,
  contains, take, leb, ltb, str_eq, if◌then◌else◌, Result, ok, raise, lookup_error,
}
use rumor_mill_ai.Prelude.Order.{sort_by}
use rumor_mill_ai.Json.{Json, Fields}
use rumor_mill_ai.Jobs.Model.{JobStatus, JobRecord}
use rumor_mill_ai.Jobs.Repo.{Table, add_once, or_else}
use rumor_mill_ai.Scheduling.Runs.{
  RunModel, RunRecord, is_running, is_completed, start_order, to_record,
}
use rumor_mill_ai.Scheduling.Runs as Runs
use rumor_mill_ai.Worlds.Records.{WorldRecord}
use rumor_mill_ai.Worlds.Records as Worlds
use rumor_mill_ai.Scenes.Store.{ArtifactModel}
use rumor_mill_ai.Recaps.Artifacts.{day_length, date_of, public_source_dates, published_recap_dates}

abbrev pub is_lighthouse : Option WorldRecord → Bool
is_lighthouse none = false
is_lighthouse (some world) = str_eq world.slug "lighthouse"

-- `SqlAlchemyRunRepository.list_recap_candidates`, where a join drops runs of unknown worlds.
unfoldable pub list_recap_candidates :
    {Rate : Type 0} → ℕ → List WorldRecord → List (RunModel Rate) → List (RunRecord Rate)
unfolding sort_by Worlds.get
list_recap_candidates limit worlds t = map to_record (
    take limit (
      sort_by start_order (
        select
          (λ m.
            is_lighthouse (Worlds.get m.world_id worlds)
            && (is_running m.status || is_completed m.status))
          t)))

abbrev pub current_date : {Rate : Type 0} → RunRecord Rate → ℕ
current_date run = date_of (or_else run.simulation_time run.started_at)

abbrev pub final_date : {Rate : Type 0} → RunRecord Rate → ℕ
final_date run = date_of (or_else run.ended_at (or_else run.simulation_time run.started_at))

abbrev pub is_closed : {Rate : Type 0} → RunRecord Rate → ℕ → Bool
is_closed run date =
    ltb date (current_date run) || is_completed run.status && leb date (final_date run)

unfoldable pub eligible :
    {Rate : Type 0} → RunRecord Rate → (limit : ℕ) → List ArtifactModel → List ℕ
unfolding public_source_dates published_recap_dates
eligible run limit artifacts = take limit (
    select
      (λ date. not (contains date (published_recap_dates run.id artifacts)) && is_closed run date)
      (public_source_dates run.id artifacts))

module _ (isoformat : ℕ → String) (recap_key : (run_id story_date : ℕ) → String)
    (recap_job_id : (run_id story_date : ℕ) → ℕ) where
  unfoldable pub recap_job : (run_id now story_date : ℕ) → JobRecord
  recap_job run_id now story_date = record {
    id = recap_job_id run_id story_date;
    run_id = run_id;
    idempotency_key = recap_key run_id story_date;
    kind = "lighthouse_daily_recap";
    status = JobStatus.pending;
    scheduled_at = suc story_date * day_length;
    payload = Json.obj (Fields.field "story_date" (Json.str (isoformat story_date)) Fields.end);
    attempts = 0;
    max_attempts = 5;
    available_at = some now;
    lease_expires_at = none;
    locked_by = none;
    completed_at = none;
    error = none;
    result = none;
  }

  -- The loop over the eligible dates: how many jobs were added, and the table.
  unfoldable pub add_jobs : (run_id now created_at : ℕ) → List ℕ → Table → ℕ × Table
  unfolding recap_job add_once
  add_jobs run_id now created_at [] t = (0, t)
  add_jobs run_id now created_at (date ∷ dates) t =
      let (added, t') = add_once (recap_job run_id now date) created_at t in
      let (n, t'') = add_jobs run_id now created_at dates t' in (if added then suc n else n, t'')

  abbrev pub enqueue_for :
      {Rate : Type 0}
      → List WorldRecord
      → List ArtifactModel
      → (now created_at limit : ℕ) → Table
      → Option (RunRecord Rate)
      → Result (ℕ × Table)
  enqueue_for worlds artifacts now created_at limit t none = raise lookup_error
  enqueue_for worlds artifacts now created_at limit t (some run) =
      if is_lighthouse (Worlds.get run.world_id worlds)
      then ok (add_jobs run.id now created_at (eligible run limit artifacts) t)
      else ok (0, t)

  -- `enqueue_missing`: how many jobs the call added, and the table that it commits.
  unfoldable pub enqueue_missing :
      {Rate : Type 0}
      → List WorldRecord
      → List (RunModel Rate)
      → List ArtifactModel
      → (run_id now created_at limit : ℕ) → Table
      → Result (ℕ × Table)
  unfolding Worlds.get Runs.get eligible add_jobs
  enqueue_missing worlds runs artifacts run_id now created_at limit t =
      if ltb limit 1
      then ok (0, t)
      else enqueue_for worlds artifacts now created_at limit t (Runs.get run_id runs)
