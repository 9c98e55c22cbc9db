-- ===== src/Recaps/Once.antt =====
-- A date's recap is published once (Recaps/Publish), whatever scenes (Scenes/Store) and recaps are
-- stored afterwards.
use rumor_mill_ai.Prelude.{
  ℕ, String, Bool, false, not, ◌&&◌, Option, none, some, List, [], ◌∷◌, ◌++◌, ◌≡◌, refl, any, ok,
  arith, inl, inr, Bool-cases,
}
use rumor_mill_ai.Scheduling.Runs.{RunModel, RunRecord}
use rumor_mill_ai.Scheduling.Runs as Runs
use rumor_mill_ai.Domain.Subjective.{is_empty}
use rumor_mill_ai.Recaps.Build.{RecapSource, DailyRecap, build_daily_recap}
use rumor_mill_ai.Scenes.Store.{ArtifactModel}
use rumor_mill_ai.Recaps.Artifacts.{
  recap_sources, get_daily_recap, add_daily_recap, recap_row, clashes,
}
use rumor_mill_ai.Recaps.Later.{Later, get-Later}
use rumor_mill_ai.Recaps.Publish.{publish_new, publish_unless, publish_for, publish_daily_recap}

get-recap_row :
    (run_id artifact_id story_date published_at : ℕ) (recap : DailyRecap) (t : List ArtifactModel)
    → get_daily_recap run_id story_date
        (t ++ recap_row run_id artifact_id story_date published_at recap ∷ [])
      ≡ some artifact_id
unfolding get_daily_recap
get-recap_row run_id artifact_id story_date published_at recap [] = ground arith
get-recap_row run_id artifact_id story_date published_at recap (row ∷ t) =
    ground (arith, get-recap_row run_id artifact_id story_date published_at recap t)

module _ (print : ℕ → String) (recap_artifact_id : (run_id story_date : ℕ) → ℕ) where
  module _ (run_id story_date : ℕ) (id : ℕ) (created : Bool) (t t₁ : List ArtifactModel) where
    publish_new-get :
        (published_at : ℕ) (allow_quiet : Bool) (sources : List RecapSource)
        → publish_new print recap_artifact_id run_id story_date published_at allow_quiet t sources
          ≡ ok ((id, created), t₁)
        → get_daily_recap run_id story_date t₁ ≡ some id
    unfolding add_daily_recap
    publish_new-get published_at allow_quiet sources h =
        let artifact_id = recap_artifact_id run_id story_date in
        let recap = build_daily_recap print story_date sources in
        let stored = get-recap_row run_id artifact_id story_date published_at recap t in
        elim (Bool-cases (is_empty sources && not allow_quiet)) [
          | inl quiet ↦ ground (arith, h, quiet)
          | inr loud ↦
              elim (Bool-cases
                (any (clashes (recap_row run_id artifact_id story_date published_at recap)) t)) [
                  | inl taken ↦ ground (arith, h, loud, taken)
                  | inr free ↦ ground (arith, h, loud, free, stored)
                ]
        ]

    publish_unless-get :
        (published_at : ℕ) (allow_quiet : Bool) (existing : Option ℕ)
        → get_daily_recap run_id story_date t ≡ existing
        → publish_unless print recap_artifact_id run_id story_date published_at allow_quiet t
            existing
          ≡ ok ((id, created), t₁)
        → get_daily_recap run_id story_date t₁ ≡ some id
    publish_unless-get published_at allow_quiet (some existing) found h = ground (arith, found, h)
    publish_unless-get published_at allow_quiet none found h =
        publish_new-get published_at allow_quiet (recap_sources run_id story_date t) h

    publish_for-get :
        {Rate : Type 0} (published_at : ℕ) (allow_quiet : Bool) (run : Option (RunRecord Rate))
        → publish_for print recap_artifact_id run_id story_date published_at allow_quiet t run
          ≡ ok ((id, created), t₁)
        → get_daily_recap run_id story_date t₁ ≡ some id
    publish_for-get published_at allow_quiet none h = ground (arith, h)
    publish_for-get published_at allow_quiet (some run) h =
        publish_unless-get published_at allow_quiet (get_daily_recap run_id story_date t) refl h

  module _ (Rate : Type 0) where
    -- Once a recap of a date is published, every later publication for that date, whatever scenes
    -- were stored and whatever recaps of this and other runs and dates published in between, at any
    -- instant and whether quiet days are allowed or not, returns the same artifact, says that it
    -- made nothing, and leaves the artifacts as they are, as long as the run is there.
    pub publish_daily_recap-again :
        (runs later_runs : List (RunModel Rate)) (run_id story_date published_at later_at : ℕ)
        (allow_quiet quiet_too : Bool) (t : List ArtifactModel) {id : ℕ} {created : Bool}
        {t₁ t₂ : List ArtifactModel} {run : RunRecord Rate}
        → publish_daily_recap print recap_artifact_id runs run_id story_date published_at
            allow_quiet t
          ≡ ok ((id, created), t₁)
        → Later print recap_artifact_id Rate t₁ t₂
        → Runs.get run_id later_runs ≡ some run
        → publish_daily_recap print recap_artifact_id later_runs run_id story_date later_at
            quiet_too t₂
          ≡ ok ((id, false), t₂)
    unfolding publish_daily_recap
    publish_daily_recap-again runs later_runs run_id story_date published_at later_at allow_quiet
          quiet_too t {id} {created} {t₁} {t₂} {run} h later there =
        let found =
          get-Later print recap_artifact_id Rate run_id story_date id
            (publish_for-get run_id story_date id created t t₁ published_at allow_quiet
              (Runs.get run_id runs) h)
            later in
        rw (there, found) refl
