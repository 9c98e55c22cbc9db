-- ===== src/Domain/World.antt =====
-- Authored-world contracts and claims (src/rumor_mill/engine/domain/world.py and subjective.py).
use rumor_mill_ai.Prelude.{ℕ, String, Option, List, ◌==◌, Result, ok, raise_if, ◌>>◌, value_error}
use rumor_mill_ai.Domain.Base.{
  Datetime, Provenance, Lifecycle, Visibility, require_aware, check_text,
}

pub data RelationshipKind : Type 0 where
  family friend rival romantic professional acquaintance : RelationshipKind

pub record Character : Type 0 where
  pub id : ℕ
  pub name : String
  pub description : String
  pub home_location_id : Option ℕ
  pub visibility : Visibility
  pub lifecycle : Lifecycle

-- `Character(...)`
unfoldable pub make_character : Character → Result Character
unfolding check_text
make_character c = do check_text c.name 1 120; check_text c.description 1 2000; ok c

pub record Location : Type 0 where
  pub id : ℕ
  pub name : String
  pub description : String
  pub parent_location_id : Option ℕ
  pub visibility : Visibility
  pub lifecycle : Lifecycle

-- `Location(...)`
unfoldable pub make_location : Location → Result Location
unfolding check_text
make_location l = do check_text l.name 1 120; check_text l.description 1 2000; ok l

pub record Relationship : Type 0 where
  pub id : ℕ
  pub source_character_id : ℕ
  pub target_character_id : ℕ
  pub kind : RelationshipKind
  pub began_at : Datetime
  pub visibility : Visibility
  pub lifecycle : Lifecycle

-- `Relationship(...)`
unfoldable pub make_relationship : Relationship → Result Relationship
unfolding require_aware
make_relationship r = do
  require_aware r.began_at
  raise_if (r.source_character_id == r.target_character_id)
      (value_error "relationship endpoints must be different characters")
  ok r

pub record Claim : Type 0 where
  pub id : ℕ
  pub statement : String
  pub subject_ids : List ℕ
  pub provenance : Provenance
  pub visibility : Visibility
  pub lifecycle : Lifecycle

-- `Claim(...)`
unfoldable pub make_claim : Claim → Result Claim
unfolding check_text
make_claim c = do check_text c.statement 1 2000; ok c
