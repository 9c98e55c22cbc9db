-- ===== src/Recaps/Handler.antt =====
-- DailyRecapHandler (src/rumor_mill/engine/recap_publication.py), a job handler of the worker.
-- `date.fromisoformat`, with nothing where it raises, and the prints of numbers, dates and
-- identifiers are parameters.
use rumor_mill_ai.Prelude.{
  ℕ, String, Bool, false, Option, none, some, List, Result, ok, raise, ◌>>=◌, value_error,
}
use rumor_mill_ai.Json.{Json, Fields}
use rumor_mill_ai.Jobs.Model.{JobRecord}
use rumor_mill_ai.Jobs.Worker.{Db, PreparedMutation, JobHandler}
use rumor_mill_ai.Scheduling.Runs.{RunModel}
use rumor_mill_ai.Scenes.Store.{ArtifactModel}
use rumor_mill_ai.Lighthouse.Reading.{Formats, require, as_text}
use rumor_mill_ai.Recaps.Publish.{publish_daily_recap}

-- The tables that the handler's transaction reads and writes.
pub record RecapTables (Rate : Type 0) : Type 0 where
  pub runs : List (RunModel Rate)
  pub artifacts : List ArtifactModel

abbrev pub parsed : Option ℕ → Result ℕ
parsed none = raise (value_error "Invalid isoformat string")
parsed (some date) = ok date

module _ (print : ℕ → String) (fmt : Formats) (parse_date : String → Option ℕ)
    (isoformat : ℕ → String) (recap_artifact_id : (run_id story_date : ℕ) → ℕ) {Rate : Type 0} where
  abbrev pub recap_result :
      (story_date : ℕ)
      → Db (RecapTables Rate)
      → (ℕ × Bool) × List ArtifactModel
      → Result (Json × Db (RecapTables Rate))
  recap_result story_date db ((artifact_id, created), artifacts) = ok (
    Json.obj (
        Fields.field "artifact_id" (Json.str (fmt.print_id artifact_id)) (
          Fields.field "story_date" (Json.str (isoformat story_date))
            (Fields.field "created" (Json.bool created) Fields.end))),
    record db { story = record (db.story) { artifacts = artifacts } },
  )

  -- `mutation`
  unfoldable pub mutate_recap : JobRecord → (story_date : ℕ) → PreparedMutation (RecapTables Rate)
  unfolding publish_daily_recap
  mutate_recap job story_date db =
      publish_daily_recap print recap_artifact_id db.story.runs job.run_id story_date
        job.scheduled_at false db.story.artifacts
      >>= recap_result story_date db

  -- `__call__`
  unfoldable pub daily_recap_handler : JobHandler (RecapTables Rate)
  unfolding mutate_recap
  daily_recap_handler job = do
    value ← require "story_date" job.payload
    story_date ← parsed (parse_date (as_text fmt value))
    ok (mutate_recap job story_date)
