-- ===== src/Conversations/Context.antt =====
-- What one turn of a conversation knows (src/rumor_mill/engine/conversation.py).
use rumor_mill_ai.Prelude.{
  ℕ, String, Bool, not, ◌&&◌, Option, none, some, List, map, unique, Result, ok, raise_if, ◌>>◌,
  value_error,
}
use rumor_mill_ai.Floats.{Floats, is_unit}
use rumor_mill_ai.Domain.Base.{Datetime, check_text, require_aware, is_none}
use rumor_mill_ai.Scenes.Plan.{check_each, check_nonempty, check_some}

pub record ConversationBelief (C : Type 0) : Type 0 where
  pub claim_id : ℕ
  pub statement : String
  pub confidence : C
  pub unresolved : Bool

pub record ConversationMemory : Type 0 where
  pub memory_id : ℕ
  pub content : String

pub record VisitorRelationship (C : Type 0) : Type 0 where
  pub summary : String
  pub trust : C

pub record DisclosureBoundary : Type 0 where
  pub topic : String
  pub instruction : String
  pub protected_claim_ids : List ℕ

pub data ContactMode : Type 0 where
  live asynchronous delayed unavailable : ContactMode

pub record ConversationLocationContext : Type 0 where
  pub home_location_id : Option ℕ
  pub home_location_name : Option String
  pub current_location_id : Option ℕ
  pub current_location_name : Option String
  pub publicly_present : Bool
  pub private_contact_mode : ContactMode

pub record ConversationContext (C : Type 0) : Type 0 where
  pub run_id : ℕ
  pub character_id : ℕ
  pub character_name : String
  pub persona : String
  pub location : ConversationLocationContext
  pub goals : List String
  pub beliefs : List (ConversationBelief C)
  pub relevant_memories : List ConversationMemory
  pub visitor_relationship : VisitorRelationship C
  pub disclosure_boundaries : List DisclosureBoundary
  pub presented_evidence : List (ConversationBelief C)
  pub occurred_at : Datetime

pub data ConversationHistoryRole : Type 0 where
  visitor character : ConversationHistoryRole

pub record ConversationHistoryMessage : Type 0 where
  pub role : ConversationHistoryRole
  pub content : String

-- A name of 1 to 120 characters, or none.
unfoldable pub check_name : Option String → Result (Unit {0})
unfolding check_text
check_name none = ok tt
check_name (some name) = check_text name 1 120

-- `(id is None) != (name is None)`
abbrev pub unpaired : Option ℕ → Option String → Bool
unpaired none name = not (is_none name)
unpaired (some i) name = is_none name

-- `ConversationLocationContext(...)`
unfoldable pub make_location : ConversationLocationContext → Result ConversationLocationContext
unfolding check_name
make_location l = do
  check_name l.home_location_name
  check_name l.current_location_name
  raise_if (unpaired l.home_location_id l.home_location_name)
      (value_error "home location ID and name must either both be set or both be absent")
  raise_if (unpaired l.current_location_id l.current_location_name)
      (value_error "current location ID and name must either both be set or both be absent")
  raise_if (l.publicly_present && is_none l.current_location_id)
      (value_error "public presence requires a known current location")
  ok l

module _ (F : Floats) where
  open F use {Carrier}

  unfoldable pub check_belief : ConversationBelief Carrier → Result (Unit {0})
  unfolding check_nonempty
  check_belief b = do
    check_nonempty b.statement
    raise_if (not (is_unit F b.confidence)) (value_error "confidence out of range")

  unfoldable pub check_relationship : VisitorRelationship Carrier → Result (Unit {0})
  unfolding check_nonempty
  check_relationship r = do
    check_nonempty r.summary
    raise_if (not (is_unit F r.trust)) (value_error "trust out of range")

  unfoldable pub check_boundary : DisclosureBoundary → Result (Unit {0})
  unfolding check_nonempty
  check_boundary b = do check_nonempty b.topic; check_nonempty b.instruction

  -- `ConversationContext(...)` of a location that was made before.
  unfoldable pub make_context : ConversationContext Carrier → Result (ConversationContext Carrier)
  unfolding check_text check_nonempty check_belief check_relationship check_boundary require_aware
  make_context c = do
    check_text c.character_name 1 120
    check_nonempty c.persona
    check_some c.goals
    check_each check_nonempty c.goals
    check_each check_belief c.beliefs
    check_each (λ m. check_nonempty m.content) c.relevant_memories
    check_relationship c.visitor_relationship
    check_some c.disclosure_boundaries
    check_each check_boundary c.disclosure_boundaries
    check_each check_belief c.presented_evidence
    require_aware c.occurred_at
    raise_if (not (unique (map (λ b. b.claim_id) c.beliefs)))
        (value_error "belief claim IDs must be unique")
    raise_if (not (unique (map (λ m. m.memory_id) c.relevant_memories)))
        (value_error "memory IDs must be unique")
    ok c
