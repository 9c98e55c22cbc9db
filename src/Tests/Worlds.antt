-- ===== src/Tests/Worlds.antt =====
-- A small town, and the theorems on its queries.
use rumor_mill_ai.Prelude.{ℕ, ◌↔◌, ◌≢◌, contains, ◌≡◌, refl, true, none, some, List, [], ◌∷◌, All}
use rumor_mill_ai.Domain.Base.{Visibility}
use rumor_mill_ai.Worlds.Authoring.{AuthoredBeat, WorldDefinition}
use rumor_mill_ai.Worlds.Town.{
  PublicPresence, CharacterLocationState, public_presence, character_location_state,
  can_stage_scene,
}
use rumor_mill_ai.Worlds.Presence.{IsShown, public_presence-IsShown}
use rumor_mill_ai.Worlds.Continuity.{reachable_beats, reachability_issues}
use rumor_mill_ai.Worlds.Dependents.{Reach}
use rumor_mill_ai.Worlds.Cycles.{reference_issues, beat_cycle_issues}
use rumor_mill_ai.Worlds.Acyclic.{Grounded, Leads, beat_cycle_issues-Grounded}
use rumor_mill_ai.Worlds.Linked.{IsLinked, reference_issues-IsLinked}
use rumor_mill_ai.Worlds.Reachable.{reachability_issues-Reach}
use rumor_mill_ai.Worlds.Staging.{can_stage_scene-located}

abbrev beat : ℕ → List ℕ → AuthoredBeat
beat id depends_on = record {
  id = id;
  character_ids = 1 ∷ [];
  location_id = 10;
  depends_on = depends_on;
  reveals_secret_ids = [];
  establishes_truth_ids = [];
  discovers_clue_ids = [];
  fallback_beat_ids = [];
  protected_truth_ids = [];
}

abbrev first_beat : AuthoredBeat
first_beat = beat 1 []

abbrev second_beat : AuthoredBeat
second_beat = beat 2 (1 ∷ [])

abbrev town : WorldDefinition
town = record {
  cast = record { id = 1; name = "Elias"; home_location_id = some 20 } ∷ [];
  locations =
      record { id = 10; name = "Harbor"; parent_location_id = none; clue_ids = 5 ∷ [] }
      ∷ record { id = 20; name = "Lighthouse"; parent_location_id = none; clue_ids = [] }
      ∷ [];
  initial_relationships = [];
  secrets = [];
  clues = record { id = 5; visibility = Visibility.engine_only } ∷ [];
  truth = [];
  beat_graph = record { entry_beat_ids = 1 ∷ []; beats = first_beat ∷ second_beat ∷ [] };
  routines =
      record {
        id = 1;
        character_id = 1;
        location_id = 10;
        days = 1 ∷ 2 ∷ [];
        start_time = 8;
        end_time = 12;
        activity = "mends nets";
        public_activity = none;
        visibility = Visibility.public;
      }
      ∷ [];
  travel_routes =
      record {
        id = 1;
        from_location_id = 10;
        to_location_id = 20;
        minutes = 15;
        bidirectional = true;
      }
      ∷ [];
}

abbrev mending : PublicPresence
mending = record {
  character_id = 1;
  character_name = "Elias";
  location_id = 10;
  location_name = "Harbor";
  activity = "mends nets";
}

abbrev whereabouts : CharacterLocationState
whereabouts = record {
  character_id = 1;
  home_location_id = some 20;
  home_location_name = some "Lighthouse";
  current_location_id = some 10;
  current_location_name = some "Harbor";
  publicly_present = true;
}

public_presence-IsShown_example : All (IsShown town 2 9) (mending ∷ [])
public_presence-IsShown_example =
    public_presence-IsShown town 2 9 (mending ∷ []) (unfold public_presence in refl)

can_stage_scene-located_example : whereabouts.current_location_id ≡ some 10
can_stage_scene-located_example =
    can_stage_scene-located town (1 ∷ []) 10 2 9 1 whereabouts (unfold can_stage_scene in refl) refl
      (unfold character_location_state in refl)

reachability_issues-Reach_example :
    ((id : ℕ) → (contains id (reachable_beats town) ≡ true) ↔ Reach town id)
    × ((reachability_issues town ≡ []) ↔ All (λ beat. Reach town beat.id) town.beat_graph.beats)
reachability_issues-Reach_example = reachability_issues-Reach town

all-reachable : reachability_issues town ≡ []
unfolding reachability_issues
all-reachable = refl

town-checked : reference_issues town ≡ []
unfolding reference_issues
town-checked = refl

reference_issues-IsLinked_example : IsLinked town
reference_issues-IsLinked_example = reference_issues-IsLinked town town-checked

beat_cycle_issues-Grounded_example :
    ((beat_cycle_issues town.beat_graph.beats ≡ [])
      ↔ All (λ b. Grounded town.beat_graph.beats b.id) town.beat_graph.beats)
    × ((id : ℕ) → Grounded town.beat_graph.beats id → ¬ Leads town.beat_graph.beats id id)
beat_cycle_issues-Grounded_example = beat_cycle_issues-Grounded town.beat_graph.beats

-- Two beats that depend on each other.
circle-found : beat_cycle_issues (beat 1 (2 ∷ []) ∷ beat 2 (1 ∷ []) ∷ []) ≢ []
unfolding beat_cycle_issues
circle-found h = cc
