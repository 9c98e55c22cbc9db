-- ===== src/Recaps/Later.antt =====
-- The artifacts that scenes and publications store, one after the other, and the recap that a
-- date keeps (Recaps/Artifacts and Publish).
use rumor_mill_ai.Prelude.{
  ℕ, String, Bool, false, not, ◌&&◌, Option, none, some, List, [], ◌∷◌, ◌++◌, ◌≡◌, refl, ap, any,
  ok, arith, inl, inr, ◌⊎◌, Bool-cases, All, All-map, map, ◌∙◌,
}
use rumor_mill_ai.Scheduling.Runs.{RunModel, RunRecord}
use rumor_mill_ai.Scheduling.Runs as Runs
use rumor_mill_ai.Domain.Subjective.{is_empty}
use rumor_mill_ai.Recaps.Build.{RecapSource, DailyRecap, build_daily_recap}
use rumor_mill_ai.Scenes.Store.{ArtifactModel, artifact_row}
use rumor_mill_ai.Domain.Canon.{PresentationArtifact}
use rumor_mill_ai.Recaps.Artifacts.{
  recap_sources, get_daily_recap, add_daily_recap, recap_row, clashes, is_recap_on,
}
use rumor_mill_ai.Recaps.Publish.{publish_new, publish_unless, publish_for, publish_daily_recap}

-- Rows that are no recap of the date change nothing.
get-append :
    (run_id story_date : ℕ) (t more : List ArtifactModel)
    → All (λ row. is_recap_on run_id story_date row ≡ false) more
    → get_daily_recap run_id story_date (t ++ more) ≡ get_daily_recap run_id story_date t
unfolding get_daily_recap
get-append run_id story_date [] [] h = refl
get-append run_id story_date [] (row ∷ more) h =
    ground (arith, get-append run_id story_date [] more h.1)
get-append run_id story_date (row ∷ t) more h =
    ground (arith, get-append run_id story_date t more h)

artifact_row-other :
    (run_id story_date other_run scene_id : ℕ) (artifacts : List PresentationArtifact)
    → All (λ a. is_recap_on run_id story_date (artifact_row other_run scene_id a) ≡ false) artifacts
artifact_row-other run_id story_date other_run scene_id [] = tt
artifact_row-other run_id story_date other_run scene_id (a ∷ artifacts) =
    (ground arith, artifact_row-other run_id story_date other_run scene_id artifacts)

module _ (print : ℕ → String) (recap_artifact_id : (run_id story_date : ℕ) → ℕ) where
  -- A publication for any run and date leaves the artifacts as they are, or appends the recap of
  -- a date that had none.
  abbrev Grows :
      (other_run date published_at : ℕ) → List ArtifactModel → List ArtifactModel → Type 0
  Grows other_run date published_at t t' =
      (t' ≡ t)
      ⊎ ((recap : DailyRecap) × (get_daily_recap other_run date t ≡ none)
          × (t'
              ≡ t
                ++ recap_row other_run (recap_artifact_id other_run date) date published_at recap
                  ∷ []))

  module _ (other_run date published_at : ℕ) (allow_quiet : Bool) (t t' : List ArtifactModel)
      {made : ℕ × Bool} where
    publish_new-Grows :
        (sources : List RecapSource)
        → get_daily_recap other_run date t ≡ none
        → publish_new print recap_artifact_id other_run date published_at allow_quiet t sources
          ≡ ok (made, t')
        → Grows other_run date published_at t t'
    unfolding add_daily_recap
    publish_new-Grows sources missing h = elim (Bool-cases (is_empty sources && not allow_quiet)) [
      | inl quiet ↦ ground (arith, h, quiet)
      | inr loud ↦
          elim (Bool-cases (
            any
              (clashes (
                recap_row other_run (recap_artifact_id other_run date) date published_at
                  (build_daily_recap print date sources)))
              t)) [
                | inl taken ↦ ground (arith, h, loud, taken)
                | inr free ↦
                    inr
                      (build_daily_recap print date sources, missing, ground (arith, h, loud, free))
              ]
    ]

    publish_unless-Grows :
        (existing : Option ℕ)
        → get_daily_recap other_run date t ≡ existing
        → publish_unless print recap_artifact_id other_run date published_at allow_quiet t existing
          ≡ ok (made, t')
        → Grows other_run date published_at t t'
    publish_unless-Grows (some existing) found h = inl (ground arith)
    publish_unless-Grows none missing h =
        publish_new-Grows (recap_sources other_run date t) missing h

    publish_for-Grows :
        {Rate : Type 0} (run : Option (RunRecord Rate))
        → publish_for print recap_artifact_id other_run date published_at allow_quiet t run
          ≡ ok (made, t')
        → Grows other_run date published_at t t'
    publish_for-Grows none h = ground arith
    publish_for-Grows (some run) h = publish_unless-Grows (get_daily_recap other_run date t) refl h

  get-Grows :
      (run_id story_date id other_run date published_at : ℕ) {t t' : List ArtifactModel}
      → get_daily_recap run_id story_date t ≡ some id
      → Grows other_run date published_at t t'
      → get_daily_recap run_id story_date t' ≡ some id
  get-Grows run_id story_date id other_run date published_at found (inl same) =
      ap (get_daily_recap run_id story_date) same ∙ found
  get-Grows run_id story_date id other_run date published_at {t} found
        (inr (recap, missing, grown)) =
      let row = recap_row other_run (recap_artifact_id other_run date) date published_at recap in
      elim (Bool-cases (is_recap_on run_id story_date row)) [
        | inl again ↦
            let same_run : other_run ≡ run_id = ground arith in
            let same_date : date ≡ story_date = ground arith in
            absurd (cc (found, missing, same_run, same_date))
        | inr apart ↦
            ap (get_daily_recap run_id story_date) grown
            ∙ get-append run_id story_date t (row ∷ []) (apart, tt)
            ∙ found
      ]

  module _ (Rate : Type 0) where
    -- The artifacts after any scenes were stored and any recaps published, of any run.
    pub data Later (t : List ArtifactModel) : List ArtifactModel → Type 0 where
      unchanged : Later t t
      then_scene :
          {t' : List ArtifactModel}
          → Later t t'
          → (other_run scene_id : ℕ) (artifacts : List PresentationArtifact)
          → Later t (t' ++ map (artifact_row other_run scene_id) artifacts)
      then_recap :
          {t' t'' : List ArtifactModel} {made : ℕ × Bool}
          → Later t t'
          → (runs : List (RunModel Rate)) (other_run date published_at : ℕ) (allow_quiet : Bool)
          → publish_daily_recap print recap_artifact_id runs other_run date published_at allow_quiet
              t'
            ≡ ok (made, t'')
          → Later t t''

    pub get-Later :
        (run_id story_date id : ℕ) {t t' : List ArtifactModel}
        → get_daily_recap run_id story_date t ≡ some id
        → Later t t'
        → get_daily_recap run_id story_date t' ≡ some id
    get-Later run_id story_date id found unchanged = found
    get-Later run_id story_date id found (then_scene {t'} later other_run scene_id artifacts) =
        get-append run_id story_date t' (map (artifact_row other_run scene_id) artifacts) (
          All-map (λ row. is_recap_on run_id story_date row ≡ false)
            (artifact_row other_run scene_id) artifacts
            (artifact_row-other run_id story_date other_run scene_id artifacts))
        ∙ get-Later run_id story_date id found later
    get-Later run_id story_date id found
          (then_recap {t'} {t''} later runs other_run date published_at allow_quiet h) =
        get-Grows run_id story_date id other_run date published_at
          (get-Later run_id story_date id found later)
          (unfold publish_daily_recap in
            publish_for-Grows other_run date published_at allow_quiet t' t''
              (Runs.get other_run runs) h)
