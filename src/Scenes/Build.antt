-- ===== src/Scenes/Build.antt =====
-- What a scene's output becomes (SceneGenerationService._validate_against_plan and _build_record in
-- src/rumor_mill/engine/scene_generation.py). The identifiers that `uuid4` draws are numbered in
-- the order of the calls.
use Prim.Native.String.{◌++◌ as str_append}
use rumor_mill_ai.Prelude.{
  concat_map, ℕ, suc, ◌+◌, ◌*◌, ◌-◌, String, not, Option, none, some, List, [], ◌∷◌, ◌++◌, map,
  filter_map, subset, length, get_elem?, leb, if◌then◌else◌, Result, Exc, ok, raise, raise_if,
  ◌>>=◌, value_error,
}
use rumor_mill_ai.Prelude.Int.{ℤ, pos, negsuc}
use rumor_mill_ai.Floats.{Floats}
use rumor_mill_ai.Json.{Json}
use rumor_mill_ai.Domain.Base.{
  Datetime, Provenance, ProvenanceKind, Lifecycle, Visibility, make_provenance, make_lifecycle,
  started,
}
use rumor_mill_ai.Domain.Canon.{
  Event, Scene, PresentationArtifact, make_event, make_scene, make_artifact,
}
use rumor_mill_ai.Domain.World.{Claim, make_claim}
use rumor_mill_ai.Memories.Records.{Memory, make_memory}
use rumor_mill_ai.Scenes.Plan.{ScenePlan}
use rumor_mill_ai.Scenes.Output.{
  StructuredSceneOutput, CanonicalEventOutput, ClaimOutput, MemoryOutput, PresentationHook,
}

pub record GeneratedSceneRecord (C : Type 0) : Type 0 where
  pub scene : Scene
  pub events : List Event
  pub claims : List Claim
  pub memories : List (Memory C)
  pub artifacts : List PresentationArtifact
  pub generation : Json

-- The fields of a GenerationResult beside its data.
pub record Generation : Type 0 where
  pub provider : String
  pub model : String
  pub request_id : String
  pub input_tokens : ℕ
  pub output_tokens : ℕ
  pub total_tokens : ℕ

-- `items[index]`, where a negative index counts from the end.
abbrev pub at_or_raise : {A : Type 0} → Option A → Result A
at_or_raise none = raise (Exc.other "IndexError")
at_or_raise (some x) = ok x

abbrev pub item : {A : Type 0} → List A → ℤ → Result A
item xs (pos i) = at_or_raise (get_elem? xs i)
item xs (negsuc i) =
    if leb (suc i) (length xs)
    then at_or_raise (get_elem? xs (length xs - suc i))
    else raise (Exc.other "IndexError")

-- A comprehension that may raise.
abbrev pub each : {A B : Type 0} → (A → Result B) → List A → Result (List B)
each f [] = ok []
each f (x ∷ xs) = f x >>= λ y. each f xs >>= λ ys. ok (y ∷ ys)

-- A comprehension whose elements draw identifiers, from the `n`-th.
abbrev pub each_from : {A B : Type 0} → (ℕ → A → Result B) → ℕ → List A → Result (List B)
each_from f n [] = ok []
each_from f n (x ∷ xs) = f n x >>= λ y. each_from f (suc n) xs >>= λ ys. ok (y ∷ ys)

-- `None if index is None else items[index].id`
abbrev pub source : {A : Type 0} → (A → ℕ) → List A → Option ℕ → Result (Option ℕ)
source id xs none = ok none
source id xs (some i) = item xs (pos i) >>= λ x. ok (some (id x))

module _ {C : Type 0} where
  -- The characters that an output mentions.
  unfoldable pub referenced : StructuredSceneOutput C → List ℕ
  referenced o =
      map (λ line. line.speaker_id) o.dialogue
      ++ (filter_map (λ action. action.actor_id) o.actions
          ++ (map (λ memory. memory.character_id) o.memories
              ++ (concat_map (λ event. event.participant_ids) o.events
                  ++ (concat_map (λ claim. claim.subject_ids) o.claims
                      ++ concat_map
                          (λ change. change.source_character_id ∷ change.target_character_id ∷ [])
                          o.relationship_changes))))

  unfoldable pub validate_against_plan : ScenePlan C → StructuredSceneOutput C → Result (Unit {0})
  unfolding referenced
  validate_against_plan p o =
      raise_if (not (subset (referenced o) p.participant_ids))
        (value_error "generated scene references characters outside the plan")

-- What the records of one scene share.
pub record Shared : Type 0 where
  pub scene_id : ℕ
  pub at : Datetime
  pub provenance : Provenance
  pub lifecycle : Lifecycle

module _ (F : Floats) (fresh : ℕ → ℕ) where
  open F use {Carrier, decimal, of_ℕ}

  unfoldable pub build_event : Shared → ScenePlan Carrier → ℕ → CanonicalEventOutput → Result Event
  unfolding make_event
  build_event s p n e = make_event (record {
    id = fresh n;
    occurred_at = s.at;
    summary = e.summary;
    participant_ids = e.participant_ids;
    location_id = some p.location_id;
    provenance = s.provenance;
    visibility = e.visibility;
    lifecycle = s.lifecycle;
  })

  unfoldable pub build_claim : Shared → ℕ → ClaimOutput → Result Claim
  unfolding make_claim
  build_claim s n c = make_claim (record {
    id = fresh n;
    statement = c.statement;
    subject_ids = c.subject_ids;
    provenance = s.provenance;
    visibility = c.visibility;
    lifecycle = s.lifecycle;
  })

  abbrev pub memory_of :
      Shared → ℕ → MemoryOutput Carrier → (event_id claim_id : Option ℕ) → Memory Carrier
  memory_of s n m event_id claim_id = record {
    id = fresh n;
    character_id = m.character_id;
    content = m.content;
    source_event_id = event_id;
    source_claim_id = claim_id;
    experienced_at = s.at;
    remembered_at = s.at;
    confidence = m.confidence;
    salience = decimal 5 1;
    plot_importance = of_ℕ 0;
    provenance = s.provenance;
    visibility = Visibility.private;
    lifecycle = s.lifecycle;
  }

  unfoldable pub build_memory :
      Shared → List Event → List Claim → ℕ → MemoryOutput Carrier → Result (Memory Carrier)
  unfolding make_memory
  build_memory s events claims n m = do
    event_id ← source (λ e. e.id) events m.source_event_index
    claim_id ← source (λ c. c.id) claims m.source_claim_index
    make_memory F (memory_of s n m event_id claim_id)

  abbrev pub artifact_of :
      Shared
      → ScenePlan Carrier
      → ℕ
      → PresentationHook
      → (event_ids claim_ids : List ℕ) → PresentationArtifact
  artifact_of s p n h event_ids claim_ids = record {
    id = fresh n;
    kind = h.kind;
    title = h.title;
    body = h.body;
    source_scene_ids = s.scene_id ∷ [];
    source_event_ids = event_ids;
    source_claim_ids = claim_ids;
    generated_at = s.at;
    provenance = s.provenance;
    visibility = Visibility.public;
    lifecycle = s.lifecycle;
    location_id = p.authored_location_id;
  }

  abbrev pub id_at : {A : Type 0} → (A → ℕ) → List A → ℤ → Result ℕ
  id_at id xs i = item xs i >>= λ x. ok (id x)

  unfoldable pub build_artifact :
      Shared
      → ScenePlan Carrier
      → List Event
      → List Claim
      → ℕ
      → PresentationHook
      → Result PresentationArtifact
  unfolding make_artifact
  build_artifact s p events claims n h = do
    event_ids ← each (id_at (λ e. e.id) events) h.event_indexes
    claim_ids ← each (id_at (λ c. c.id) claims) h.claim_indexes
    make_artifact (artifact_of s p n h event_ids claim_ids)

  abbrev pub scene_of :
      Shared → ScenePlan Carrier → StructuredSceneOutput Carrier → List Event → Scene
  scene_of s p o events = record {
    id = s.scene_id;
    title = o.title;
    event_ids = map (λ e. e.id) events;
    starts_at = s.at;
    ends_at = record s.at { instant = s.at.instant + o.duration_minutes * 60000000 };
    location_id = some p.location_id;
    provenance = s.provenance;
    visibility = Visibility.public;
    lifecycle = s.lifecycle;
  }

  -- The body of `_build_record` below its shared values. `generation` is the JSON of the result's
  -- usage, of the plan and of the output.
  unfoldable pub build_parts :
      Shared
      → ScenePlan Carrier
      → StructuredSceneOutput Carrier
      → Json
      → Result (GeneratedSceneRecord Carrier)
  unfolding build_event build_claim build_memory build_artifact make_scene
  build_parts s p o generation = do
    events ← each_from (build_event s p) 1 o.events
    claims ← each_from (build_claim s) (1 + length o.events) o.claims
    memories ←
        each_from (build_memory s events claims) (1 + length o.events + length o.claims) o.memories
    scene ← make_scene (scene_of s p o events)
    artifacts ←
        each_from (build_artifact s p events claims)
          (1 + length o.events + length o.claims + length o.memories) o.presentation_hooks
    ok (record {
      scene = scene;
      events = events;
      claims = claims;
      memories = memories;
      artifacts = artifacts;
      generation = generation;
    })

  abbrev pub scene_provenance : ScenePlan Carrier → Generation → Provenance
  scene_provenance p g = record {
    kind = ProvenanceKind.generated;
    source_id = some (fresh 0);
    recorded_at = p.scheduled_at;
    detail = some (str_append g.provider (str_append ":" g.model));
  }

  -- `_build_record`
  unfoldable pub build_record :
      ScenePlan Carrier
      → StructuredSceneOutput Carrier
      → Generation
      → Json
      → Result (GeneratedSceneRecord Carrier)
  unfolding build_parts make_provenance make_lifecycle
  build_record p o g generation = do
    provenance ← make_provenance (scene_provenance p g)
    lifecycle ← make_lifecycle (started p.scheduled_at)
    build_parts
        (record {
          scene_id = fresh 0;
          at = p.scheduled_at;
          provenance = provenance;
          lifecycle = lifecycle;
        })
        p o generation
