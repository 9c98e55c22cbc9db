-- ===== src/Worlds/Authoring.antt =====
-- The parts of a world definition that its validation and the queries about the town read
-- (src/rumor_mill/worlds/authoring.py). A slug is a number, of which only equality is used; a
-- local time is a number of microseconds from midnight.
use rumor_mill_ai.Prelude.{
  ℕ, String, Bool, Option, List, Result, ok, raise_if, ◌>>◌, not, leb, unique, value_error,
}
use rumor_mill_ai.Domain.Base.{Visibility}

pub record AuthoredCharacter : Type 0 where
  pub id : ℕ
  pub name : String
  pub home_location_id : Option ℕ

pub record AuthoredLocation : Type 0 where
  pub id : ℕ
  pub name : String
  pub parent_location_id : Option ℕ
  pub clue_ids : List ℕ

pub record AuthoredRoutine : Type 0 where
  pub id : ℕ
  pub character_id : ℕ
  pub location_id : ℕ
  pub days : List ℕ
  pub start_time : ℕ
  pub end_time : ℕ
  pub activity : String
  pub public_activity : Option String
  pub visibility : Visibility

pub record AuthoredTravelRoute : Type 0 where
  pub id : ℕ
  pub from_location_id : ℕ
  pub to_location_id : ℕ
  pub minutes : ℕ
  pub bidirectional : Bool

pub record InitialRelationship : Type 0 where
  pub id : ℕ
  pub source_character_id : ℕ
  pub target_character_id : ℕ

pub record AuthoredTruth : Type 0 where
  pub id : ℕ
  pub character_ids : List ℕ
  pub location_ids : List ℕ

pub record AuthoredSecret : Type 0 where
  pub id : ℕ
  pub holder_ids : List ℕ
  pub known_by_ids : List ℕ
  pub truth_id : ℕ
  pub visibility : Visibility

pub record AuthoredClue : Type 0 where
  pub id : ℕ
  pub visibility : Visibility

pub record AuthoredBeat : Type 0 where
  pub id : ℕ
  pub character_ids : List ℕ
  pub location_id : ℕ
  pub depends_on : List ℕ
  pub reveals_secret_ids : List ℕ
  pub establishes_truth_ids : List ℕ
  pub discovers_clue_ids : List ℕ
  pub fallback_beat_ids : List ℕ
  pub protected_truth_ids : List ℕ

pub record BeatGraph : Type 0 where
  pub entry_beat_ids : List ℕ
  pub beats : List AuthoredBeat

pub record WorldDefinition : Type 0 where
  pub cast : List AuthoredCharacter
  pub locations : List AuthoredLocation
  pub initial_relationships : List InitialRelationship
  pub secrets : List AuthoredSecret
  pub clues : List AuthoredClue
  pub truth : List AuthoredTruth
  pub beat_graph : BeatGraph
  pub routines : List AuthoredRoutine
  pub travel_routes : List AuthoredTravelRoute

-- `AuthoredRoutine.validate_window`
unfoldable pub validate_window : AuthoredRoutine → Result AuthoredRoutine
validate_window r = do
  raise_if (leb r.end_time r.start_time) (value_error "start_time must be before end_time")
  raise_if (not (unique r.days)) (value_error "days must not contain duplicates")
  ok r
