-- ===== src/Scenes/Committed.antt =====
-- What a call of `generate` leaves in the database (Scenes/Generate).
use rumor_mill_ai.Prelude.{ℕ, ◌≡◌, subst, ap, Option, none, some, Result, ok, raise, arith}
use rumor_mill_ai.Floats.{Floats}
use rumor_mill_ai.Scheduling.Runs.{RunRecord}
use rumor_mill_ai.Scheduling.Runs as Runs
use rumor_mill_ai.Scenes.Plan.{ScenePlan}
use rumor_mill_ai.Scenes.Output.{StructuredSceneOutput}
use rumor_mill_ai.Scenes.Build.{GeneratedSceneRecord}
use rumor_mill_ai.Scenes.Store.{Story, add_generated, get}
use rumor_mill_ai.Scenes.Generate.{
  Dumps, GenerationRequest, GenerationResult, StoryDb, prepare, store_record, store_for,
  commit_story, generate,
}
use rumor_mill_ai.Scenes.Cast.{IsScoped}
use rumor_mill_ai.Scenes.Scoped.{prepare-IsScoped}
use rumor_mill_ai.Scenes.Readback.{IsUnmentioned, IsOneScene, get-add_generated}

module _ (F : Floats) (dumps : Dumps (F.Carrier))
    (generate_data : GenerationRequest
      → Result (GenerationResult (StructuredSceneOutput (F.Carrier))))
    (fresh : ℕ → ℕ) where
  open F use {Carrier}

  scoped-IsOneScene :
      (p : ScenePlan Carrier) (r : GeneratedSceneRecord Carrier) → IsScoped p r → IsOneScene r
  scoped-IsOneScene p r h = record {
    scene_events = h.scene_events;
    claim_source = h.claim_source;
    memory_source = h.memory_source;
  }

  commit_story-eq-ok :
      (made : GeneratedSceneRecord Carrier) (db : StoryDb Carrier) (story : Result (Story Carrier))
      {r : GeneratedSceneRecord Carrier} {db' : StoryDb Carrier}
      → commit_story F dumps generate_data fresh made db story ≡ (ok r, db')
      → (made ≡ r) × (story ≡ ok db'.story)
  commit_story-eq-ok made db (raise e) h = absurd (ground arith)
  commit_story-eq-ok made db (ok story) h = ground arith

  store_for-eq-ok :
      (p : ScenePlan Carrier) (made : GeneratedSceneRecord Carrier) (db : StoryDb Carrier)
      (run : Option (RunRecord Carrier)) {r : GeneratedSceneRecord Carrier} {db' : StoryDb Carrier}
      → store_for F dumps generate_data fresh p made db run ≡ (ok r, db')
      → (made ≡ r) × (add_generated p.run_id made db.story ≡ ok db'.story)
  store_for-eq-ok p made db none h = absurd (ground arith)
  store_for-eq-ok p made db (some run) h = commit_story-eq-ok made db _ h

  store_record-eq-ok :
      (p : ScenePlan Carrier) (db : StoryDb Carrier) (made : Result (GeneratedSceneRecord Carrier))
      {r : GeneratedSceneRecord Carrier} {db' : StoryDb Carrier}
      → store_record F dumps generate_data fresh p db made ≡ (ok r, db')
      → (made ≡ ok r) × (add_generated p.run_id r db.story ≡ ok db'.story)
  store_record-eq-ok p db (raise e) h = absurd (ground arith)
  store_record-eq-ok p db (ok made) {r} {db'} h =
      let (same, stored) = store_for-eq-ok p made db (Runs.get p.run_id db.runs) h in
      (ap ok same, subst (λ x. add_generated p.run_id x db.story ≡ ok db'.story) same stored)

  -- A scene that `generate` returns is in the database that it leaves, and reading it there gives
  -- the same scene, which refers only to what it may refer to; it is required that nothing in the
  -- database mentioned the new scene's identifier.
  pub generate-get :
      (p : ScenePlan Carrier) (db db' : StoryDb Carrier) (r : GeneratedSceneRecord Carrier)
      → IsUnmentioned r.scene.id db.story
      → generate F dumps generate_data fresh p db ≡ (ok r, db')
      → (get r.scene.id db'.story ≡ some r) × IsScoped p r
  unfolding generate
  generate-get p db db' r unmentioned h =
      let (made, stored) = store_record-eq-ok p db (prepare F dumps generate_data fresh p) h in
      let scoped = prepare-IsScoped F fresh dumps generate_data p made in
      (
        get-add_generated p.run_id r db.story db'.story (scoped-IsOneScene p r scoped) unmentioned
            stored,
        scoped,
      )
