-- ===== src/Tests/Recaps.antt =====
-- Two sources, one of them hidden, and the theorem on their recap; a story card, its day's recap,
-- a
-- second publication and a planner that is called twice.
use rumor_mill_ai.Prelude.{
  ℕ, ◌+◌, ◌*◌, ◌≤◌, ◌≡◌, refl, String, true, false, none, some, List, [], ◌∷◌, ◌++◌, ok,
}
use rumor_mill_ai.Domain.Base.{ProvenanceKind, Visibility, started}
use rumor_mill_ai.Domain.Canon.{ArtifactKind, PresentationArtifact}
use rumor_mill_ai.Scheduling.Runs.{RunModel, RunStatus, ClockMode}
use rumor_mill_ai.Scheduling.Runs as Runs
use rumor_mill_ai.Scenes.Store.{ArtifactModel, artifact_row}
use rumor_mill_ai.Recaps.Artifacts.{recap_row, recap_sources}
use rumor_mill_ai.Recaps.Publish.{publish_daily_recap}
use rumor_mill_ai.Recaps.Plan.{recap_job, enqueue_missing}
use rumor_mill_ai.Recaps.Closed.{enqueue_missing-again}
use rumor_mill_ai.Jobs.Repo.{new_row}
use rumor_mill_ai.Json.{Json}
use rumor_mill_ai.Worlds.Records.{WorldRecord}
use rumor_mill_ai.Recaps.Later.{Later, unchanged, then_scene, then_recap}
use rumor_mill_ai.Recaps.Once.{publish_daily_recap-again}
use rumor_mill_ai.Recaps.Build.{RecapSource, build_daily_recap}
use rumor_mill_ai.Recaps.Selection.{IsSourced, build_daily_recap-IsSourced}

abbrev dispatch : RecapSource
dispatch = record {
  id = 1;
  kind = "story_card";
  title = "Lamp out";
  body = "The lamp went out.";
  generated_at = 50;
  visibility = "public";
  importance = 2;
  location_id = some "harbor";
  character_id = none;
  active_thread = some "Who put out the lamp?";
}

abbrev sources : List RecapSource
sources = dispatch ∷ record dispatch { id = 2; visibility = "engine_only" } ∷ []

abbrev print : ℕ → String
print n = "1"

build_daily_recap-IsSourced_example : IsSourced sources (build_daily_recap print 3 sources)
build_daily_recap-IsSourced_example = build_daily_recap-IsSourced print 3 sources

abbrev story_run : RunModel ℕ
story_run = record {
  id = 7;
  world_id = 3;
  status = RunStatus.running;
  seed = 11;
  started_at = 1000;
  ended_at = none;
  clock_mode = ClockMode.manual;
  simulation_time = 1000;
  wall_time_anchor = 1000;
  clock_rate = 1;
  tick_seconds = 300;
  max_catch_up_ticks = 12;
}

abbrev lamp_card : PresentationArtifact
lamp_card = record {
  id = 61;
  kind = ArtifactKind.story_card;
  title = "Lamp out";
  body = "The lamp went out.";
  source_scene_ids = [];
  source_event_ids = 2 ∷ [];
  source_claim_ids = [];
  generated_at = record { instant = 5; aware = true };
  provenance = record {
    kind = ProvenanceKind.derived;
    source_id = some 2;
    recorded_at = record { instant = 5; aware = true };
    detail = none;
  };
  visibility = Visibility.public;
  lifecycle = started (record { instant = 5; aware = true });
  location_id = some "harbor";
}

abbrev stored_card : ArtifactModel
stored_card = artifact_row 7 41 lamp_card

abbrev day_recap : ArtifactModel
day_recap = recap_row 7 70 0 90 (build_daily_recap print 0 (recap_sources 7 0 (stored_card ∷ [])))

card-published :
    publish_daily_recap print
      (λ run date. run * 10 + date)
      (story_run ∷ [])
      7
      0
      90
      false
      (stored_card ∷ [])
    ≡ ok ((70, true), stored_card ∷ day_recap ∷ [])
unfolding publish_daily_recap
card-published = refl

-- A second scene on the next day, and that day's recap.
abbrev next_card : PresentationArtifact
next_card = record lamp_card {
  id = 62;
  generated_at = record { instant = 86400000007; aware = true };
}

abbrev with_scene : List ArtifactModel
with_scene = stored_card ∷ day_recap ∷ artifact_row 7 42 next_card ∷ []

abbrev next_recap : ArtifactModel
next_recap = recap_row 7 71 1 300 (build_daily_recap print 1 (recap_sources 7 1 with_scene))

next_card-published :
    publish_daily_recap print
      (λ run date. run * 10 + date)
      (story_run ∷ [])
      7
      1
      300
      false
      with_scene
    ≡ ok ((71, true), with_scene ++ next_recap ∷ [])
unfolding publish_daily_recap
next_card-published = refl

two_days :
    Later print
      (λ run date. run * 10 + date)
      ℕ
      (stored_card ∷ day_recap ∷ [])
      (with_scene ++ next_recap ∷ [])
two_days =
    then_recap (then_scene unchanged 7 42 (next_card ∷ [])) (story_run ∷ []) 7 1 300 false
      next_card-published

story_run-found : Runs.get 7 (story_run ∷ []) ≡ some (Runs.to_record story_run)
unfolding Runs.get
story_run-found = refl

publish_daily_recap-again_example :
    publish_daily_recap print
      (λ run date. run * 10 + date)
      (story_run ∷ [])
      7
      0
      400
      true
      (with_scene ++ next_recap ∷ [])
    ≡ ok ((70, false), with_scene ++ next_recap ∷ [])
publish_daily_recap-again_example =
    publish_daily_recap-again print (λ run date. run * 10 + date) ℕ (story_run ∷ [])
      (story_run ∷ []) 7 0 90 400 false true (stored_card ∷ []) card-published two_days
      story_run-found

abbrev town_world : WorldRecord
town_world = record { id = 3; slug = "lighthouse"; definition = Json.null }

-- The run on its second day.
abbrev next_day : RunModel ℕ
next_day = record story_run { simulation_time = 90000000000 }

abbrev key_of : ℕ → ℕ → String
key_of run date = "run:7:daily-recap:1970-01-01"

day-enqueued :
    enqueue_missing print key_of
      (λ run date. 80 + date)
      (town_world ∷ [])
      (next_day ∷ [])
      (stored_card ∷ [])
      7
      95
      96
      4
      []
    ≡ ok (1, new_row (recap_job print key_of (λ run date. 80 + date) 7 95 0) 96 ∷ [])
unfolding enqueue_missing
day-enqueued = refl

enqueue_missing-again_example :
    (1 ≤ 4)
    × (enqueue_missing print key_of
          (λ run date. 80 + date)
          (town_world ∷ [])
          (next_day ∷ [])
          (stored_card ∷ [])
          7
          500
          501
          4
          (new_row (recap_job print key_of (λ run date. 80 + date) 7 95 0) 96 ∷ [])
        ≡ ok (0, new_row (recap_job print key_of (λ run date. 80 + date) 7 95 0) 96 ∷ []))
enqueue_missing-again_example =
    enqueue_missing-again print key_of (λ run date. 80 + date) (town_world ∷ []) (stored_card ∷ [])
      95 96 500 501 4 (next_day ∷ []) 7 [] day-enqueued
