-- ===== src/Scenes/Store.antt =====
-- The tables of scenes and SqlAlchemySceneRepository
-- (src/rumor_mill/adapters/persistence/repositories.py, with the rows of models.py). A row's payload
-- holds the value that it was made from. An insert that repeats a primary key, or a sequence number
-- within a run, raises IntegrityError.
use rumor_mill_ai.Prelude.{
  ℕ, suc, String, Bool, false, not, ◌&&◌, ◌||◌, Option, none, some, List, [], ◌∷◌, ◌++◌, map,
  select, any, contains, unique, find_first, max, ◌==◌, leb, Result, Exc, ok, raise_if, ◌>>◌,
}
use rumor_mill_ai.Prelude.Order.{sort_by}
use rumor_mill_ai.Json.{Json}
use rumor_mill_ai.Domain.Canon.{Event, Scene, PresentationArtifact, ArtifactKind, sources_of}
use rumor_mill_ai.Domain.World.{Claim}
use rumor_mill_ai.Memories.Records.{MemoryModel}
use rumor_mill_ai.Recaps.Build.{DailyRecap}
use rumor_mill_ai.Scenes.Build.{GeneratedSceneRecord}

pub record SceneModel : Type 0 where
  pub run_id : ℕ
  pub sequence : ℕ
  pub scene : Scene
  pub generation : Json

pub record EventModel : Type 0 where
  pub run_id : ℕ
  pub sequence : ℕ
  pub event : Event

pub record ClaimModel : Type 0 where
  pub run_id : ℕ
  pub claim : Claim

pub data ArtifactPayload : Type 0 where
  of_artifact : PresentationArtifact → ArtifactPayload
  of_recap : DailyRecap → ArtifactPayload

pub record ArtifactModel : Type 0 where
  pub id : ℕ
  pub run_id : ℕ
  pub scene_id : Option ℕ
  pub kind : ArtifactKind
  pub title : String
  pub body : String
  pub generated_at : ℕ
  pub story_date : Option ℕ
  pub source_ids : List ℕ
  pub payload : ArtifactPayload

pub record Story (C : Type 0) : Type 0 where
  pub scenes : List SceneModel
  pub events : List EventModel
  pub claims : List ClaimModel
  pub memories : List (MemoryModel C)
  pub artifacts : List ArtifactModel

-- `_next_sequence`: of the sequence numbers of a run, 0 without any and else the next.
unfoldable pub next_sequence : List ℕ → ℕ
next_sequence [] = 0
next_sequence (n ∷ ns) = max (suc n) (next_sequence ns)

abbrev pub event_rows : (run_id sequence : ℕ) → List Event → List EventModel
event_rows run_id n [] = []
event_rows run_id n (e ∷ es) =
    record { run_id = run_id; sequence = n; event = e } ∷ event_rows run_id (suc n) es

abbrev pub artifact_row : (run_id scene_id : ℕ) → PresentationArtifact → ArtifactModel
artifact_row run_id scene_id a = record {
  id = a.id;
  run_id = run_id;
  scene_id = some scene_id;
  kind = a.kind;
  title = a.title;
  body = a.body;
  generated_at = a.generated_at.instant;
  story_date = none;
  source_ids = sources_of a;
  payload = ArtifactPayload.of_artifact a;
}

-- New primary keys, against those of a table.
abbrev pub check_keys : (new old : List ℕ) → Result (Unit {0})
check_keys new old =
    raise_if (not (unique new) || any (λ i. contains i old) new) (Exc.other "IntegrityError")

abbrev pub mentions : Option ℕ → ℕ → Bool
mentions none i = false
mentions (some j) i = j == i

abbrev pub by_sequence : EventModel → EventModel → Bool
by_sequence a b = leb a.sequence b.sequence

abbrev pub payload_artifacts : ArtifactPayload → List PresentationArtifact
payload_artifacts (of_artifact a) = a ∷ []
payload_artifacts (of_recap r) = []

abbrev pub artifacts_of : List ArtifactModel → List PresentationArtifact
artifacts_of [] = []
artifacts_of (row ∷ rows) = payload_artifacts row.payload ++ artifacts_of rows

module _ {C : Type 0} where
  abbrev pub scene_sequences : ℕ → Story C → List ℕ
  scene_sequences run_id t =
      map (λ row. row.sequence) (select (λ row. row.run_id == run_id) t.scenes)

  abbrev pub event_sequences : ℕ → Story C → List ℕ
  event_sequences run_id t =
      map (λ row. row.sequence) (select (λ row. row.run_id == run_id) t.events)

  abbrev pub scene_row : ℕ → GeneratedSceneRecord C → Story C → SceneModel
  scene_row run_id r t = record {
    run_id = run_id;
    sequence = next_sequence (scene_sequences run_id t);
    scene = r.scene;
    generation = r.generation;
  }

  abbrev pub with_record : ℕ → GeneratedSceneRecord C → Story C → Story C
  with_record run_id r t = record {
    scenes = t.scenes ++ scene_row run_id r t ∷ [];
    events = t.events ++ event_rows run_id (next_sequence (event_sequences run_id t)) r.events;
    claims = t.claims ++ map (λ claim. record { run_id = run_id; claim = claim }) r.claims;
    memories = t.memories ++ map (λ memory. record { run_id = run_id; memory = memory }) r.memories;
    artifacts = t.artifacts ++ map (artifact_row run_id r.scene.id) r.artifacts;
  }

  -- `add_generated`
  unfoldable pub add_generated : ℕ → GeneratedSceneRecord C → Story C → Result (Story C)
  unfolding next_sequence
  add_generated run_id r t = do
    check_keys (r.scene.id ∷ []) (map (λ row. row.scene.id) t.scenes)
    check_keys (map (λ event. event.id) r.events) (map (λ row. row.event.id) t.events)
    check_keys (map (λ claim. claim.id) r.claims) (map (λ row. row.claim.id) t.claims)
    check_keys (map (λ memory. memory.id) r.memories) (map (λ row. row.memory.id) t.memories)
    check_keys (map (λ artifact. artifact.id) r.artifacts) (map (λ row. row.id) t.artifacts)
    ok (with_record run_id r t)

  abbrev pub record_of : Story C → SceneModel → GeneratedSceneRecord C
  record_of t model =
      let scene = model.scene in
      record {
        scene = scene;
        events =
            map (λ row. row.event)
              (sort_by by_sequence (
                select (λ row. row.run_id == model.run_id && contains row.event.id scene.event_ids)
                  t.events));
        claims =
            map (λ row. row.claim)
              (select
                (λ row.
                  row.run_id == model.run_id && mentions row.claim.provenance.source_id scene.id)
                t.claims);
        memories =
            map (λ row. row.memory)
              (select
                (λ row.
                  row.run_id == model.run_id && mentions row.memory.provenance.source_id scene.id)
                t.memories);
        artifacts = artifacts_of (select (λ row. mentions row.scene_id scene.id) t.artifacts);
        generation = model.generation;
      }

  abbrev pub found_scene : Story C → Option SceneModel → Option (GeneratedSceneRecord C)
  found_scene t none = none
  found_scene t (some model) = some (record_of t model)

  -- `get`
  unfoldable pub get : ℕ → Story C → Option (GeneratedSceneRecord C)
  unfolding sort_by
  get scene_id t = found_scene t (find_first (λ row. row.scene.id == scene_id) t.scenes)
