-- ===== src/Tests/Scenes.antt =====
-- A scene of two bakers, and the theorems on planning, generating and storing it.
use rumor_mill_ai.Prelude.{ℕ, ◌*◌, ◌≡◌, refl, true, none, some, [], ◌∷◌, Result, ok, arith}
use rumor_mill_ai.Prelude.Int.{ℤ, pos}
use rumor_mill_ai.Floats.Micro.{micro, million}
use rumor_mill_ai.Json.{Json, Fields}
use rumor_mill_ai.Domain.Base.{Datetime, Visibility, Provenance, ProvenanceKind, started}
use rumor_mill_ai.Domain.Canon.{ArtifactKind}
use rumor_mill_ai.Scheduling.Runs.{RunModel, RunStatus, ClockMode}
use rumor_mill_ai.Scenes.Plan.{ContextItem, PlotIntent, ScenePlan, ScenePlanner, make_intent, plan}
use rumor_mill_ai.Scenes.Output.{StructuredSceneOutput, make_output}
use rumor_mill_ai.Scenes.Build.{GeneratedSceneRecord}
use rumor_mill_ai.Scenes.Store.{Story, get, add_generated, with_record}
use rumor_mill_ai.Scenes.Generate.{
  Dumps, GenerationRequest, GenerationResult, StoryDb, prepare, generate,
}
use rumor_mill_ai.Scenes.Focus.{IsFocused, plan-IsFocused}
use rumor_mill_ai.Scenes.Cast.{IsScoped}
use rumor_mill_ai.Scenes.Scoped.{prepare-IsScoped}
use rumor_mill_ai.Scenes.Stored.{IsSequenced, add_generated-IsSequenced}
use rumor_mill_ai.Scenes.Readback.{IsUnmentioned}
use rumor_mill_ai.Scenes.Committed.{generate-get}

abbrev dawn : Datetime
dawn = record { instant = 1000 * million; aware = true }

abbrev gossip : ContextItem ℤ
gossip = record {
  content = "The light went out.";
  character_ids = 2 ∷ [];
  location_id = none;
  salience = pos 700000;
}

abbrev intent : PlotIntent ℤ
intent = record {
  run_id = 7;
  scheduled_at = dawn;
  candidate_participant_ids = 1 ∷ 2 ∷ 3 ∷ [];
  available_location_ids = 40 ∷ [];
  goals = "Bake." ∷ [];
  constraints = [];
  context = gossip ∷ [];
  preferred_participant_ids = 2 ∷ [];
  preferred_location_id = none;
}

abbrev planner : ScenePlanner
planner = record { max_participants = 2; context_limit = 12 }

intent-accepted : make_intent micro intent ≡ ok intent
unfolding make_intent
intent-accepted = refl

plan-IsFocused_example :
    (p : ScenePlan ℤ) × (plan micro planner intent ≡ ok p) × IsFocused micro planner intent p
plan-IsFocused_example = plan-IsFocused micro planner intent intent (omega arith) intent-accepted

abbrev baking_plan : ScenePlan ℤ
baking_plan = record {
  run_id = 7;
  scheduled_at = dawn;
  participant_ids = 2 ∷ 1 ∷ [];
  location_id = 40;
  authored_location_id = none;
  goals = "Bake." ∷ [];
  constraints = [];
  relevant_context = gossip ∷ [];
}

planned : plan micro planner intent ≡ ok baking_plan
unfolding plan
planned = refl

abbrev output : StructuredSceneOutput ℤ
output = record {
  title = "Bread";
  duration_minutes = 5;
  dialogue = record { speaker_id = 1; text = "Hot!" } ∷ [];
  actions = [];
  events =
      record {
        summary = "They bake.";
        participant_ids = 1 ∷ 2 ∷ [];
        visibility = Visibility.public;
      }
      ∷ [];
  claims =
      record {
        statement = "The oven is old.";
        subject_ids = 2 ∷ [];
        visibility = Visibility.participants;
      }
      ∷ [];
  memories =
      record {
        character_id = 1;
        content = "We baked.";
        confidence = pos 900000;
        source_event_index = some 0;
        source_claim_index = none;
      }
      ∷ [];
  relationship_changes = [];
  presentation_hooks =
      record {
        kind = ArtifactKind.story_card;
        title = "Bread";
        body = "Fresh bread.";
        event_indexes = pos 0 ∷ [];
        claim_indexes = [];
      }
      ∷ [];
}

output-accepted : make_output micro output ≡ ok output
unfolding make_output
output-accepted = refl

abbrev reply : GenerationRequest → Result (GenerationResult (StructuredSceneOutput ℤ))
reply request = ok (record {
  data_ = some output;
  generation = record {
    provider = "mock";
    model = "m";
    request_id = "r";
    input_tokens = 1;
    output_tokens = 1;
    total_tokens = 2;
  };
})

abbrev dumps : Dumps ℤ
dumps = record {
  dump_plan = λ p. Json.null;
  dump_output = λ o. Json.null;
  print_json = λ j. "null";
}

abbrev fresh : ℕ → ℕ
fresh n = n

abbrev story_run : RunModel ℤ
story_run = record {
  id = 7;
  world_id = 3;
  status = RunStatus.running;
  seed = 11;
  started_at = 1000 * million;
  ended_at = none;
  clock_mode = ClockMode.manual;
  simulation_time = 1000 * million;
  wall_time_anchor = 1000 * million;
  clock_rate = pos million;
  tick_seconds = 300;
  max_catch_up_ticks = 12;
}

abbrev empty_story : Story ℤ
empty_story = record { scenes = []; events = []; claims = []; memories = []; artifacts = [] }

abbrev story_db : StoryDb ℤ
story_db = record { runs = story_run ∷ []; story = empty_story }

abbrev origin : Provenance
origin = record {
  kind = ProvenanceKind.generated;
  source_id = some 0;
  recorded_at = dawn;
  detail = some "mock:m";
}

abbrev usage : Json
usage = Json.obj (
    Fields.field "request_id" (Json.str "r") (
      Fields.field "provider" (Json.str "mock") (
        Fields.field "model" (Json.str "m") (
          Fields.field "usage"
            (Json.obj (
              Fields.field "input_tokens" (Json.num 1) (
                Fields.field "output_tokens" (Json.num 1)
                  (Fields.field "total_tokens" (Json.num 2) Fields.end))))
            (Fields.field "plan" Json.null (Fields.field "output" Json.null Fields.end))))))

abbrev baked : GeneratedSceneRecord ℤ
baked = record {
  scene = record {
    id = 0;
    title = "Bread";
    event_ids = 1 ∷ [];
    starts_at = dawn;
    ends_at = record { instant = 1300 * million; aware = true };
    location_id = some 40;
    provenance = origin;
    visibility = Visibility.public;
    lifecycle = started dawn;
  };
  events =
      record {
        id = 1;
        occurred_at = dawn;
        summary = "They bake.";
        participant_ids = 1 ∷ 2 ∷ [];
        location_id = some 40;
        provenance = origin;
        visibility = Visibility.public;
        lifecycle = started dawn;
      }
      ∷ [];
  claims =
      record {
        id = 2;
        statement = "The oven is old.";
        subject_ids = 2 ∷ [];
        provenance = origin;
        visibility = Visibility.participants;
        lifecycle = started dawn;
      }
      ∷ [];
  memories =
      record {
        id = 3;
        character_id = 1;
        content = "We baked.";
        source_event_id = some 1;
        source_claim_id = none;
        experienced_at = dawn;
        remembered_at = dawn;
        confidence = pos 900000;
        salience = pos 500000;
        plot_importance = pos 0;
        provenance = origin;
        visibility = Visibility.private;
        lifecycle = started dawn;
      }
      ∷ [];
  artifacts =
      record {
        id = 4;
        kind = ArtifactKind.story_card;
        title = "Bread";
        body = "Fresh bread.";
        source_scene_ids = 0 ∷ [];
        source_event_ids = 1 ∷ [];
        source_claim_ids = [];
        generated_at = dawn;
        provenance = origin;
        visibility = Visibility.public;
        lifecycle = started dawn;
        location_id = none;
      }
      ∷ [];
  generation = usage;
}

bread-prepared : prepare micro dumps reply fresh baking_plan ≡ ok baked
unfolding prepare started
bread-prepared = refl

prepare-IsScoped_example : IsScoped baking_plan baked
prepare-IsScoped_example = prepare-IsScoped micro fresh dumps reply baking_plan bread-prepared

-- A story with a row of each table that a scene fills.
abbrev full_story : Story ℤ
full_story = with_record 7 baked empty_story

full_story-IsSequenced : IsSequenced empty_story
unfolding IsSequenced
full_story-IsSequenced run_id = (refl, refl)

bread-added : add_generated 7 baked empty_story ≡ ok full_story
unfolding add_generated
bread-added = refl

add_generated-IsSequenced_example : IsSequenced full_story
add_generated-IsSequenced_example =
    add_generated-IsSequenced 7 baked empty_story full_story full_story-IsSequenced bread-added

abbrev full_db : StoryDb ℤ
full_db = record { runs = story_run ∷ []; story = full_story }

bread-generated : generate micro dumps reply fresh baking_plan story_db ≡ (ok baked, full_db)
unfolding generate started
bread-generated = refl

scene-IsUnmentioned : IsUnmentioned 0 empty_story
scene-IsUnmentioned = record { by_claims = tt; by_memories = tt; by_artifacts = tt }

generate-get_example : (get 0 full_story ≡ some baked) × IsScoped baking_plan baked
generate-get_example =
    generate-get micro dumps reply fresh baking_plan story_db full_db baked scene-IsUnmentioned
      bread-generated
