-- ===== src/Recaps/Publish.antt =====
-- publish_daily_recap (src/rumor_mill/engine/recap_publication.py). The
-- identifier that `uuid5` makes of a run and a date is a parameter.
use rumor_mill_ai.Prelude.{
  ℕ, String, Bool, true, false, not, ◌&&◌, Option, none, some, List, if◌then◌else◌, Result, ok,
  raise, ◌>>=◌, lookup_error, value_error,
}
use rumor_mill_ai.Scheduling.Runs.{RunModel, RunRecord}
use rumor_mill_ai.Scheduling.Runs as Runs
use rumor_mill_ai.Recaps.Build.{RecapSource, build_daily_recap}
use rumor_mill_ai.Scenes.Store.{ArtifactModel}
use rumor_mill_ai.Domain.Subjective.{is_empty}
use rumor_mill_ai.Recaps.Artifacts.{recap_sources, get_daily_recap, add_daily_recap}

module _ (print : ℕ → String) (recap_artifact_id : (run_id story_date : ℕ) → ℕ) where
  abbrev pub published : ℕ → List ArtifactModel → Result ((ℕ × Bool) × List ArtifactModel)
  published artifact_id t = ok ((artifact_id, true), t)

  -- What follows if there is no recap of the date yet.
  abbrev pub publish_new :
      (run_id story_date published_at : ℕ) (allow_quiet : Bool)
      → List ArtifactModel
      → List RecapSource
      → Result ((ℕ × Bool) × List ArtifactModel)
  publish_new run_id story_date published_at allow_quiet t sources =
      if is_empty sources && not allow_quiet
      then raise (value_error "no_public_recap_sources")
      else (add_daily_recap run_id (recap_artifact_id run_id story_date) story_date published_at
            (build_daily_recap print story_date sources) t
          >>= published (recap_artifact_id run_id story_date))

  abbrev pub publish_unless :
      (run_id story_date published_at : ℕ) (allow_quiet : Bool)
      → List ArtifactModel
      → Option ℕ
      → Result ((ℕ × Bool) × List ArtifactModel)
  publish_unless run_id story_date published_at allow_quiet t (some existing) =
      ok ((existing, false), t)
  publish_unless run_id story_date published_at allow_quiet t none =
      publish_new run_id story_date published_at allow_quiet t (recap_sources run_id story_date t)

  abbrev pub publish_for :
      {Rate : Type 0}
      → (run_id story_date published_at : ℕ) (allow_quiet : Bool) → List ArtifactModel
      → Option (RunRecord Rate)
      → Result ((ℕ × Bool) × List ArtifactModel)
  publish_for run_id story_date published_at allow_quiet t none = raise lookup_error
  publish_for run_id story_date published_at allow_quiet t (some run) =
      publish_unless run_id story_date published_at allow_quiet t
        (get_daily_recap run_id story_date t)

  -- `publish_daily_recap`, in the transaction of its caller.
  unfoldable pub publish_daily_recap :
      {Rate : Type 0}
      → List (RunModel Rate)
      → (run_id story_date published_at : ℕ) (allow_quiet : Bool) → List ArtifactModel
      → Result ((ℕ × Bool) × List ArtifactModel)
  unfolding Runs.get get_daily_recap recap_sources add_daily_recap build_daily_recap
  publish_daily_recap runs run_id story_date published_at allow_quiet t =
      publish_for run_id story_date published_at allow_quiet t (Runs.get run_id runs)
