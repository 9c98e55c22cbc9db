-- ===== src/Worlds/Linked.antt =====
-- What a world without reference issues is like (Worlds/References, Worlds/Cycles).
use rumor_mill_ai.Prelude.{◌≡◌, true, [], map, unique, All}
use rumor_mill_ai.Worlds.Authoring.{WorldDefinition}
use rumor_mill_ai.Worlds.References.{
  check_references_from, collect_ids, issues_from, character_issues, location_issues,
  relationship_issues, truth_issues, secret_issues, routine_issues, route_issues, beat_issues,
  id_issues, character_ids, location_ids, truth_ids, secret_ids, clue_ids, beat_ids,
}
use rumor_mill_ai.Worlds.Cycles.{reference_issues}
use rumor_mill_ai.Worlds.Acyclic.{Grounded, beat_cycle_issues-Grounded}
use rumor_mill_ai.Worlds.Resolve.{
  AllKnown, nil-split, issues_from-nil, all_known, option_known, no_duplicates,
}
use rumor_mill_ai.Worlds.Parts.{
  IsLinkedCharacter, IsLinkedLocation, IsLinkedRelationship, IsLinkedTruth, IsLinkedSecret,
  IsLinkedRoutine, IsLinkedRoute, IsLinkedBeat, location-IsLinkedLocation,
  relationship-IsLinkedRelationship, truth-IsLinkedTruth, secret-IsLinkedSecret,
  routine-IsLinkedRoutine, route-IsLinkedRoute, beat-IsLinkedBeat,
}

module _ (world : WorldDefinition) where
  -- Identifiers that are unique among the records of a kind.
  pub record IsIdentified : Type 0 where
    pub characters : unique (character_ids world) ≡ true
    pub locations : unique (location_ids world) ≡ true
    pub truths : unique (truth_ids world) ≡ true
    pub secrets : unique (secret_ids world) ≡ true
    pub clues : unique (clue_ids world) ≡ true
    pub beats : unique (beat_ids world) ≡ true

  ids-IsIdentified : id_issues world ≡ [] → IsIdentified
  ids-IsIdentified ids =
      let (characters_once, i₁) = nil-split (collect_ids (character_ids world) _) _ ids in
      let (locations_once, i₂) = nil-split (collect_ids (location_ids world) _) _ i₁ in
      let (_, i₃) = nil-split (collect_ids (map (λ r. r.id) world.initial_relationships) _) _ i₂ in
      let (truths_once, i₄) = nil-split (collect_ids (truth_ids world) _) _ i₃ in
      let (secrets_once, i₅) = nil-split (collect_ids (secret_ids world) _) _ i₄ in
      let (clues_once, i₆) = nil-split (collect_ids (clue_ids world) _) _ i₅ in
      let (beats_once, _) = nil-split (collect_ids (beat_ids world) _) _ i₆ in
      record {
        characters = (no_duplicates 0 [] (character_ids world) _ characters_once).0;
        locations = (no_duplicates 0 [] (location_ids world) _ locations_once).0;
        truths = (no_duplicates 0 [] (truth_ids world) _ truths_once).0;
        secrets = (no_duplicates 0 [] (secret_ids world) _ secrets_once).0;
        clues = (no_duplicates 0 [] (clue_ids world) _ clues_once).0;
        beats = (no_duplicates 0 [] (beat_ids world) _ beats_once).0;
      }

  -- A world of which every reference resolves, whose identifiers are unique, and whose beats do
  -- not depend on each other in a circle.
  pub record IsLinked : Type 0 where
    pub identified : IsIdentified
    pub characters : All (IsLinkedCharacter world) world.cast
    pub locations : All (IsLinkedLocation world) world.locations
    pub relationships : All (IsLinkedRelationship world) world.initial_relationships
    pub truths : All (IsLinkedTruth world) world.truth
    pub secrets : All (IsLinkedSecret world) world.secrets
    pub routines : All (IsLinkedRoutine world) world.routines
    pub routes : All (IsLinkedRoute world) world.travel_routes
    pub entries : AllKnown (beat_ids world) world.beat_graph.entry_beat_ids
    pub beats : All (IsLinkedBeat world) world.beat_graph.beats
    pub grounded : All (λ b. Grounded world.beat_graph.beats b.id) world.beat_graph.beats

  -- A world for which validation raises no reference issue is linked: identifiers are unique among
  -- the characters, locations, truths, secrets, clues and beats; every reference of a character,
  -- location, relationship, truth, secret, routine, route or beat names a record of the world; no
  -- location contains itself, and no relationship or route joins something with itself; and every
  -- chain of dependencies of a beat ends.
  pub reference_issues-IsLinked : reference_issues world ≡ [] → IsLinked
  unfolding reference_issues
  reference_issues-IsLinked h =
      let (ids, h₁) = nil-split (id_issues world) _ h in
      let (cast, h₂) = nil-split (issues_from (character_issues world) 0 world.cast) _ h₁ in
      let (locations, h₃) =
        nil-split (issues_from (location_issues world) 0 world.locations) _ h₂ in
      let (relationships, h₄) =
        nil-split (issues_from (relationship_issues world) 0 world.initial_relationships) _ h₃ in
      let (truths, h₅) = nil-split (issues_from (truth_issues world) 0 world.truth) _ h₄ in
      let (secrets, h₆) = nil-split (issues_from (secret_issues world) 0 world.secrets) _ h₅ in
      let (routines, h₇) = nil-split (issues_from (routine_issues world) 0 world.routines) _ h₆ in
      let (routes, h₈) = nil-split (issues_from (route_issues world) 0 world.travel_routes) _ h₇ in
      let (entries, h₉) =
        nil-split (check_references_from 0 world.beat_graph.entry_beat_ids _ _ _) _ h₈ in
      let (beats, cycles) =
        nil-split (issues_from (beat_issues world) 0 world.beat_graph.beats) _ h₉ in
      record {
        identified = ids-IsIdentified ids;
        characters =
            issues_from-nil (IsLinkedCharacter world) (character_issues world)
              (λ n c k. record { home = option_known c.home_location_id _ _ _ k }) 0 world.cast
              cast;
        locations =
            issues_from-nil (IsLinkedLocation world) (location_issues world)
              (location-IsLinkedLocation world) 0 world.locations locations;
        relationships =
            issues_from-nil (IsLinkedRelationship world) (relationship_issues world)
              (relationship-IsLinkedRelationship world) 0 world.initial_relationships relationships;
        truths =
            issues_from-nil (IsLinkedTruth world) (truth_issues world) (truth-IsLinkedTruth world) 0
              world.truth truths;
        secrets =
            issues_from-nil (IsLinkedSecret world) (secret_issues world)
              (secret-IsLinkedSecret world) 0 world.secrets secrets;
        routines =
            issues_from-nil (IsLinkedRoutine world) (routine_issues world)
              (routine-IsLinkedRoutine world) 0 world.routines routines;
        routes =
            issues_from-nil (IsLinkedRoute world) (route_issues world) (route-IsLinkedRoute world) 0
              world.travel_routes routes;
        entries = all_known 0 world.beat_graph.entry_beat_ids _ _ _ entries;
        beats =
            issues_from-nil (IsLinkedBeat world) (beat_issues world) (beat-IsLinkedBeat world) 0
              world.beat_graph.beats beats;
        grounded = (beat_cycle_issues-Grounded world.beat_graph.beats).0.0 cycles;
      }
