-- ===== src/Lighthouse/Handler.antt =====
-- LighthouseStoryHandler (src/rumor_mill/engine/lighthouse_pipeline.py). `uuid5` of a run, a kind
-- and an authored identifier is a parameter.
use Prim.Native.String.{◌++◌ as str_append}
use rumor_mill_ai.Prelude.{
  ℕ, ◌+◌, String, true, Option, none, some, List, [], ◌∷◌, map, str_eq, if◌then◌else◌, Result, ok,
  raise, ◌>>=◌, lookup_error,
}
use rumor_mill_ai.Text.{concat}
use rumor_mill_ai.Floats.{Floats}
use rumor_mill_ai.Json.{Json, Items, Fields}
use rumor_mill_ai.Domain.Base.{
  Datetime, Provenance, ProvenanceKind, Lifecycle, Visibility, make_provenance, make_lifecycle,
  started,
}
use rumor_mill_ai.Domain.Canon.{
  Event, Scene, ArtifactKind, PresentationArtifact, make_event, make_scene, make_artifact,
}
use rumor_mill_ai.Jobs.Model.{JobRecord}
use rumor_mill_ai.Scheduling.Runs as Runs
use rumor_mill_ai.Scenes.Plan.{ScenePlan, make_plan}
use rumor_mill_ai.Scenes.Build.{GeneratedSceneRecord}
use rumor_mill_ai.Scenes.Store.{add_generated}
use rumor_mill_ai.Scenes.Generate.{StoryDb}
use rumor_mill_ai.Lighthouse.Reading.{Formats, require, get_list, as_text}

-- What the handler reads of a payload.
pub record StoryUnit : Type 0 where
  pub story_kind : String
  pub authored_id : String
  pub authored_location_id : String
  pub title : String
  pub summary : String
  pub character_ids : List String

module _ (fmt : Formats) (stable_id : (run_id : ℕ) → (kind authored_id : String) → ℕ) where
  -- `str(payload[key])`
  abbrev pub text_at : String → Json → Result String
  text_at key payload = require key payload >>= λ value. ok (as_text fmt value)

  abbrev pub beat_unit :
      (story_kind authored_id authored_location_id : String) → Json → Result StoryUnit
  beat_unit story_kind authored_id authored_location_id payload = do
    title ← text_at "title" payload
    summary ← text_at "summary" payload
    ids ← get_list "character_ids" payload
    ok (record {
      story_kind = story_kind;
      authored_id = authored_id;
      authored_location_id = authored_location_id;
      title = title;
      summary = summary;
      character_ids = map (as_text fmt) ids;
    })

  abbrev pub routine_unit :
      (story_kind authored_id authored_location_id : String) → Json → Result StoryUnit
  routine_unit story_kind authored_id authored_location_id payload = do
    title ← text_at "public_activity" payload
    character_id ← text_at "character_id" payload
    ok (record {
      story_kind = story_kind;
      authored_id = authored_id;
      authored_location_id = authored_location_id;
      title = title;
      summary = str_append title " continues in Greyhaven.";
      character_ids = character_id ∷ [];
    })

  unfoldable pub read_unit : Json → Result StoryUnit
  read_unit payload = do
    story_kind ← text_at "story_kind" payload
    authored_id ← text_at "id" payload
    authored_location_id ← text_at "location_id" payload
    (if str_eq story_kind "beat" then beat_unit else routine_unit) story_kind authored_id
        authored_location_id payload

  abbrev pub at_job : JobRecord → Datetime
  at_job job = record { instant = job.scheduled_at; aware = true }

  abbrev pub participants : JobRecord → StoryUnit → List ℕ
  participants job u = map (stable_id job.run_id "character") u.character_ids

  abbrev pub location : JobRecord → StoryUnit → ℕ
  location job u = stable_id job.run_id "location" u.authored_location_id

  abbrev pub scene_id : JobRecord → ℕ
  scene_id job = stable_id job.run_id "scene" job.idempotency_key

  abbrev pub event_id : JobRecord → ℕ
  event_id job = stable_id job.run_id "event" job.idempotency_key

  -- `_authored_record`
  abbrev pub authored_event : JobRecord → StoryUnit → Provenance → Lifecycle → Result Event
  authored_event job u provenance lifecycle = make_event (record {
    id = event_id job;
    occurred_at = at_job job;
    summary = u.summary;
    participant_ids = participants job u;
    location_id = some (location job u);
    provenance = provenance;
    visibility = Visibility.public;
    lifecycle = lifecycle;
  })

  abbrev pub authored_scene : JobRecord → StoryUnit → Provenance → Lifecycle → Result Scene
  authored_scene job u provenance lifecycle = make_scene (record {
    id = scene_id job;
    title = u.title;
    event_ids = event_id job ∷ [];
    starts_at = at_job job;
    ends_at = record (at_job job) { instant = job.scheduled_at + 300000000 };
    location_id = some (location job u);
    provenance = provenance;
    visibility = Visibility.public;
    lifecycle = lifecycle;
  })

  abbrev pub authored_artifact :
      JobRecord → StoryUnit → Provenance → Lifecycle → Result PresentationArtifact
  authored_artifact job u provenance lifecycle = make_artifact (record {
    id = stable_id job.run_id "artifact" job.idempotency_key;
    kind = ArtifactKind.story_card;
    title = u.title;
    body = u.summary;
    source_scene_ids = scene_id job ∷ [];
    source_event_ids = event_id job ∷ [];
    source_claim_ids = [];
    generated_at = at_job job;
    provenance = provenance;
    visibility = Visibility.public;
    lifecycle = lifecycle;
    location_id = some u.authored_location_id;
  })

  abbrev pub authored_generation : JobRecord → StoryUnit → Json
  authored_generation job u = Json.obj (
      Fields.field "source" (Json.str "authored_lighthouse_pipeline") (
        Fields.field "job_id" (Json.str (fmt.print_id job.id)) (
          Fields.field "story_kind" (Json.str u.story_kind)
            (Fields.field "authored_id" (Json.str u.authored_id) Fields.end))))

  module _ (F : Floats) where
    open F use {Carrier}

    unfoldable pub authored_record :
        JobRecord → StoryUnit → Provenance → Lifecycle → Result (GeneratedSceneRecord Carrier)
    unfolding make_event make_scene make_artifact
    authored_record job u provenance lifecycle = do
      event ← authored_event job u provenance lifecycle
      scene ← authored_scene job u provenance lifecycle
      artifact ← authored_artifact job u provenance lifecycle
      ok (record {
        scene = scene;
        events = event ∷ [];
        claims = [];
        memories = [];
        artifacts = artifact ∷ [];
        generation = authored_generation job u;
      })

    abbrev pub unit_provenance : JobRecord → StoryUnit → Provenance
    unit_provenance job u = record {
      kind = ProvenanceKind.authored;
      source_id = none;
      recorded_at = at_job job;
      detail = some (concat ("Lighthouse " ∷ u.story_kind ∷ " " ∷ u.authored_id ∷ []));
    }

    -- The plan that the handler gives to a generator.
    abbrev pub unit_plan : JobRecord → StoryUnit → ScenePlan Carrier
    unit_plan job u = record {
      run_id = job.run_id;
      scheduled_at = at_job job;
      participant_ids = participants job u;
      location_id = location job u;
      authored_location_id = some u.authored_location_id;
      goals = u.summary ∷ [];
      constraints =
          "Respect authored Lighthouse canon and reveal no hidden story text."
          ∷ concat ("Produce a " ∷ u.story_kind ∷ " scene titled " ∷ u.title ∷ "." ∷ [])
          ∷ [];
      relevant_context = [];
    }

    -- The generator's `prepare`, if one is configured.
    abbrev pub Generator : Type 0
    Generator = Option (ScenePlan Carrier → Result (GeneratedSceneRecord Carrier))

    abbrev pub scene_record :
        Generator
        → JobRecord
        → StoryUnit
        → Provenance
        → Lifecycle
        → Result (GeneratedSceneRecord Carrier)
    scene_record none job u provenance lifecycle = authored_record job u provenance lifecycle
    scene_record (some prepare) job u provenance lifecycle =
        make_plan F (unit_plan job u) >>= prepare

    -- `__call__` up to the mutation: the record that the mutation adds.
    unfoldable pub prepare_story : Generator → JobRecord → Result (GeneratedSceneRecord Carrier)
    unfolding authored_record read_unit make_provenance make_lifecycle make_plan
    prepare_story generator job = do
      u ← read_unit job.payload
      provenance ← make_provenance (unit_provenance job u)
      lifecycle ← make_lifecycle (started (at_job job))
      scene_record generator job u provenance lifecycle

    abbrev pub items : List PresentationArtifact → Items
    items [] = Items.nil
    items (a ∷ artifacts) = Items.cons (Json.str (fmt.print_id a.id)) (items artifacts)

    abbrev pub story_result : GeneratedSceneRecord Carrier → Json
    story_result r = Json.obj (
        Fields.field "scene_id" (Json.str (fmt.print_id r.scene.id))
          (Fields.field "artifact_ids" (Json.arr (items r.artifacts)) Fields.end))

    -- The mutation: what it returns, and the database of its transaction.
    unfoldable pub mutate_story :
        JobRecord → GeneratedSceneRecord Carrier → StoryDb Carrier → Result (Json × StoryDb Carrier)
    unfolding add_generated Runs.get
    mutate_story job r db = elim (Runs.get job.run_id db.runs) [
      | none ↦ raise lookup_error
      | some run ↦ add_generated job.run_id r db.story >>= λ story.
          ok (story_result r, record db { story = story })
    ]
