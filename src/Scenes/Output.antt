-- ===== src/Scenes/Output.antt =====
-- The structured output of a scene (src/rumor_mill/engine/scene_generation.py) and its validation.
-- An index that a model field bounds by 0 is a natural number; the indexes of a presentation
-- hook, which no field bounds, are integers.
use rumor_mill_ai.Prelude.{
  ℕ, String, Bool, false, not, ◌||◌, Option, none, some, List, any, length, ◌==◌, leb, ltb, Result,
  ok, raise_if, ◌>>◌, value_error,
}
use rumor_mill_ai.Prelude.Int.{ℤ, pos, ltb_ℤ}
use rumor_mill_ai.Floats.{Floats, is_unit}
use rumor_mill_ai.Domain.Base.{Visibility, check_text}
use rumor_mill_ai.Domain.Canon.{ArtifactKind}
use rumor_mill_ai.Memories.Records.{not_one}
use rumor_mill_ai.Scenes.Plan.{check_each, check_nonempty, check_some}

pub record DialogueLine : Type 0 where
  pub speaker_id : ℕ
  pub text : String

pub record SceneAction : Type 0 where
  pub actor_id : Option ℕ
  pub description : String

pub record CanonicalEventOutput : Type 0 where
  pub summary : String
  pub participant_ids : List ℕ
  pub visibility : Visibility

pub record ClaimOutput : Type 0 where
  pub statement : String
  pub subject_ids : List ℕ
  pub visibility : Visibility

pub record MemoryOutput (C : Type 0) : Type 0 where
  pub character_id : ℕ
  pub content : String
  pub confidence : C
  pub source_event_index : Option ℕ
  pub source_claim_index : Option ℕ

pub record RelationshipChange (C : Type 0) : Type 0 where
  pub source_character_id : ℕ
  pub target_character_id : ℕ
  pub trust_delta : C
  pub reason : String

pub record PresentationHook : Type 0 where
  pub kind : ArtifactKind
  pub title : String
  pub body : String
  pub event_indexes : List ℤ
  pub claim_indexes : List ℤ

pub record StructuredSceneOutput (C : Type 0) : Type 0 where
  pub title : String
  pub duration_minutes : ℕ
  pub dialogue : List DialogueLine
  pub actions : List SceneAction
  pub events : List CanonicalEventOutput
  pub claims : List ClaimOutput
  pub memories : List (MemoryOutput C)
  pub relationship_changes : List (RelationshipChange C)
  pub presentation_hooks : List PresentationHook

-- `index is not None and index >= len(items)`
abbrev pub beyond : Option ℕ → ℕ → Bool
beyond none n = false
beyond (some i) n = leb n i

-- `index >= len(items)` for an integer.
abbrev pub beyond_ℤ : ℕ → ℤ → Bool
beyond_ℤ n i = not (ltb_ℤ i (pos n))

unfoldable pub check_hook : PresentationHook → Result (Unit {0})
unfolding check_text
check_hook h = do check_text h.title 1 200; check_text h.body 1 20000

module _ (F : Floats) where
  open F use {Carrier, le, of_ℕ, sub}

  unfoldable pub check_memory : MemoryOutput Carrier → Result (Unit {0})
  unfolding check_nonempty
  check_memory m = do
    check_nonempty m.content
    raise_if (not (is_unit F m.confidence)) (value_error "confidence out of range")
    raise_if (not_one m.source_event_index m.source_claim_index)
        (value_error "memory requires exactly one event or claim source")

  unfoldable pub check_change : RelationshipChange Carrier → Result (Unit {0})
  unfolding check_nonempty
  check_change c = do
    raise_if (not (le (sub (of_ℕ 0) (of_ℕ 1)) c.trust_delta) || not (le c.trust_delta (of_ℕ 1)))
        (value_error "trust_delta out of range")
    check_nonempty c.reason
    raise_if (c.source_character_id == c.target_character_id)
        (value_error "relationship change requires distinct characters")

  abbrev pub check_memory_sources : (events claims : ℕ) → MemoryOutput Carrier → Result (Unit {0})
  check_memory_sources events claims m = do
    raise_if (beyond m.source_event_index events)
        (value_error "memory source_event_index is out of range")
    raise_if (beyond m.source_claim_index claims)
        (value_error "memory source_claim_index is out of range")

  abbrev pub check_hook_sources : (events claims : ℕ) → PresentationHook → Result (Unit {0})
  check_hook_sources events claims h = do
    raise_if (any (beyond_ℤ events) h.event_indexes)
        (value_error "presentation event index is out of range")
    raise_if (any (beyond_ℤ claims) h.claim_indexes)
        (value_error "presentation claim index is out of range")

  -- `validate_references`
  unfoldable pub validate_references : StructuredSceneOutput Carrier → Result (Unit {0})
  validate_references o =
      let events = length o.events in
      let claims = length o.claims in
      check_each (check_memory_sources events claims) o.memories
      >> check_each (check_hook_sources events claims) o.presentation_hooks

  -- `StructuredSceneOutput(...)`
  unfoldable pub make_output :
      StructuredSceneOutput Carrier → Result (StructuredSceneOutput Carrier)
  unfolding check_nonempty check_text check_hook check_memory check_change validate_references
  make_output o = do
    check_text o.title 1 200
    raise_if (ltb o.duration_minutes 1 || ltb 240 o.duration_minutes)
        (value_error "duration_minutes out of range")
    check_each (λ line. check_nonempty line.text) o.dialogue
    check_each (λ action. check_nonempty action.description) o.actions
    check_some o.events
    check_each (λ event. check_nonempty event.summary) o.events
    check_each (λ claim. check_nonempty claim.statement) o.claims
    check_each check_memory o.memories
    check_each check_change o.relationship_changes
    check_each check_hook o.presentation_hooks
    validate_references o
    ok o
