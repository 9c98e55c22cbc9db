-- ===== src/Domain/Canon.antt =====
-- Canonical and presented records (src/rumor_mill/engine/domain/canon.py and presentation.py).
use rumor_mill_ai.Prelude.{
  ℕ, String, not, Option, List, ◌++◌, Result, ok, raise_if, ◌>>◌, value_error, unique,
}
use rumor_mill_ai.Domain.Base.{
  Datetime, Provenance, Lifecycle, Visibility, require_aware, check_text, before,
}
use rumor_mill_ai.Domain.Subjective.{is_empty}

pub record Event : Type 0 where
  pub id : ℕ
  pub occurred_at : Datetime
  pub summary : String
  pub participant_ids : List ℕ
  pub location_id : Option ℕ
  pub provenance : Provenance
  pub visibility : Visibility
  pub lifecycle : Lifecycle

-- `Event(...)`
unfoldable pub make_event : Event → Result Event
unfolding check_text require_aware
make_event e = do
  check_text e.summary 1 2000
  require_aware e.occurred_at
  raise_if (not (unique e.participant_ids)) (value_error "participant_ids must be unique")
  ok e

pub record Scene : Type 0 where
  pub id : ℕ
  pub title : String
  pub event_ids : List ℕ
  pub starts_at : Datetime
  pub ends_at : Datetime
  pub location_id : Option ℕ
  pub provenance : Provenance
  pub visibility : Visibility
  pub lifecycle : Lifecycle

-- `Scene(...)`
unfoldable pub make_scene : Scene → Result Scene
unfolding check_text require_aware
make_scene s = do
  check_text s.title 1 200
  raise_if (is_empty s.event_ids) (value_error "event_ids is too short")
  require_aware s.starts_at
  require_aware s.ends_at
  raise_if (before s.ends_at s.starts_at) (value_error "ends_at cannot be before starts_at")
  raise_if (not (unique s.event_ids)) (value_error "event_ids must be unique")
  ok s

pub data ArtifactKind : Type 0 where
  scene_page story_card character_update rumor_card daily_recap : ArtifactKind

pub record PresentationArtifact : Type 0 where
  pub id : ℕ
  pub kind : ArtifactKind
  pub title : String
  pub body : String
  pub source_scene_ids : List ℕ
  pub source_event_ids : List ℕ
  pub source_claim_ids : List ℕ
  pub generated_at : Datetime
  pub provenance : Provenance
  pub visibility : Visibility
  pub lifecycle : Lifecycle
  pub location_id : Option String

abbrev pub sources_of : PresentationArtifact → List ℕ
sources_of a = (a.source_scene_ids ++ a.source_event_ids) ++ a.source_claim_ids

-- `PresentationArtifact(...)`
unfoldable pub make_artifact : PresentationArtifact → Result PresentationArtifact
unfolding check_text require_aware
make_artifact a = do
  check_text a.title 1 200
  check_text a.body 1 20000
  require_aware a.generated_at
  raise_if (is_empty (sources_of a))
      (value_error "presentation artifact requires at least one source")
  raise_if (not (unique (sources_of a))) (value_error "presentation source IDs must be unique")
  ok a
