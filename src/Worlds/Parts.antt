-- ===== src/Worlds/Parts.antt =====
-- What a record of a world is like for which no reference issue is raised (Worlds/References).
use rumor_mill_ai.Prelude.{ℕ, ◌≡◌, false, [], ◌==◌}
use rumor_mill_ai.Worlds.Authoring.{
  AuthoredBeat, AuthoredCharacter, AuthoredLocation, AuthoredRoutine, AuthoredSecret,
  AuthoredTravelRoute, AuthoredTruth, InitialRelationship, WorldDefinition,
}
use rumor_mill_ai.Worlds.References.{
  check_reference, check_references_from, check_optional_reference, issue_if, location_issues,
  relationship_issues, truth_issues, secret_issues, routine_issues, route_issues, beat_issues,
  character_ids, location_ids, truth_ids, secret_ids, clue_ids, beat_ids, is_some_of,
}
use rumor_mill_ai.Worlds.Resolve.{
  Known, AllKnown, OptionKnown, nil-split, known, all_known, option_known, not_raised,
}

module _ (world : WorldDefinition) where
  pub record IsLinkedCharacter (c : AuthoredCharacter) : Type 0 where
    pub home : OptionKnown (location_ids world) c.home_location_id

  pub record IsLinkedLocation (l : AuthoredLocation) : Type 0 where
    pub parent : OptionKnown (location_ids world) l.parent_location_id
    pub elsewhere : is_some_of l.parent_location_id l.id ≡ false
    pub clues : AllKnown (clue_ids world) l.clue_ids

  pub record IsLinkedRelationship (r : InitialRelationship) : Type 0 where
    pub source : Known (character_ids world) r.source_character_id
    pub target : Known (character_ids world) r.target_character_id
    pub distinct : (r.source_character_id == r.target_character_id) ≡ false

  pub record IsLinkedTruth (t : AuthoredTruth) : Type 0 where
    pub characters : AllKnown (character_ids world) t.character_ids
    pub locations : AllKnown (location_ids world) t.location_ids

  pub record IsLinkedSecret (s : AuthoredSecret) : Type 0 where
    pub holders : AllKnown (character_ids world) s.holder_ids
    pub knowers : AllKnown (character_ids world) s.known_by_ids
    pub truth : Known (truth_ids world) s.truth_id

  pub record IsLinkedRoutine (r : AuthoredRoutine) : Type 0 where
    pub character : Known (character_ids world) r.character_id
    pub location : Known (location_ids world) r.location_id

  pub record IsLinkedRoute (r : AuthoredTravelRoute) : Type 0 where
    pub from_location : Known (location_ids world) r.from_location_id
    pub to_location : Known (location_ids world) r.to_location_id
    pub distinct : (r.from_location_id == r.to_location_id) ≡ false

  pub record IsLinkedBeat (b : AuthoredBeat) : Type 0 where
    pub characters : AllKnown (character_ids world) b.character_ids
    pub location : Known (location_ids world) b.location_id
    pub prerequisites : AllKnown (beat_ids world) b.depends_on
    pub fallbacks : AllKnown (beat_ids world) b.fallback_beat_ids
    pub secrets : AllKnown (secret_ids world) b.reveals_secret_ids
    pub truths : AllKnown (truth_ids world) b.establishes_truth_ids
    pub clues : AllKnown (clue_ids world) b.discovers_clue_ids
    pub protected : AllKnown (truth_ids world) b.protected_truth_ids

  pub location-IsLinkedLocation :
      (n : ℕ) (l : AuthoredLocation) → location_issues world n l ≡ [] → IsLinkedLocation l
  location-IsLinkedLocation n l h =
      let (parent, h₁) = nil-split (check_optional_reference l.parent_location_id _ _ _) _ h in
      let (itself, clues) = nil-split (issue_if (is_some_of l.parent_location_id l.id) _ _) _ h₁ in
      record {
        parent = option_known l.parent_location_id _ _ _ parent;
        elsewhere = not_raised _ _ _ itself;
        clues = all_known 0 l.clue_ids _ _ _ clues;
      }

  pub relationship-IsLinkedRelationship :
      (n : ℕ) (r : InitialRelationship)
      → relationship_issues world n r ≡ []
      → IsLinkedRelationship r
  relationship-IsLinkedRelationship n r h =
      let (source, h₁) = nil-split (check_reference r.source_character_id _ _ _) _ h in
      let (target, same) = nil-split (check_reference r.target_character_id _ _ _) _ h₁ in
      record {
        source = known r.source_character_id _ _ _ source;
        target = known r.target_character_id _ _ _ target;
        distinct = not_raised _ _ _ same;
      }

  pub truth-IsLinkedTruth :
      (n : ℕ) (t : AuthoredTruth) → truth_issues world n t ≡ [] → IsLinkedTruth t
  truth-IsLinkedTruth n t h =
      let (characters, locations) = nil-split (check_references_from 0 t.character_ids _ _ _) _ h in
      record {
        characters = all_known 0 t.character_ids _ _ _ characters;
        locations = all_known 0 t.location_ids _ _ _ locations;
      }

  pub secret-IsLinkedSecret :
      (n : ℕ) (s : AuthoredSecret) → secret_issues world n s ≡ [] → IsLinkedSecret s
  secret-IsLinkedSecret n s h =
      let (holders, h₁) = nil-split (check_references_from 0 s.holder_ids _ _ _) _ h in
      let (knowers, truth) = nil-split (check_references_from 0 s.known_by_ids _ _ _) _ h₁ in
      record {
        holders = all_known 0 s.holder_ids _ _ _ holders;
        knowers = all_known 0 s.known_by_ids _ _ _ knowers;
        truth = known s.truth_id _ _ _ truth;
      }

  pub routine-IsLinkedRoutine :
      (n : ℕ) (r : AuthoredRoutine) → routine_issues world n r ≡ [] → IsLinkedRoutine r
  routine-IsLinkedRoutine n r h =
      let (character, location) = nil-split (check_reference r.character_id _ _ _) _ h in
      record {
        character = known r.character_id _ _ _ character;
        location = known r.location_id _ _ _ location;
      }

  pub route-IsLinkedRoute :
      (n : ℕ) (r : AuthoredTravelRoute) → route_issues world n r ≡ [] → IsLinkedRoute r
  route-IsLinkedRoute n r h =
      let (start, h₁) = nil-split (check_reference r.from_location_id _ _ _) _ h in
      let (end, same) = nil-split (check_reference r.to_location_id _ _ _) _ h₁ in
      record {
        from_location = known r.from_location_id _ _ _ start;
        to_location = known r.to_location_id _ _ _ end;
        distinct = not_raised _ _ _ same;
      }

  pub beat-IsLinkedBeat : (n : ℕ) (b : AuthoredBeat) → beat_issues world n b ≡ [] → IsLinkedBeat b
  beat-IsLinkedBeat n b h =
      let (characters, h₁) = nil-split (check_references_from 0 b.character_ids _ _ _) _ h in
      let (location, h₂) = nil-split (check_reference b.location_id _ _ _) _ h₁ in
      let (needs, h₃) = nil-split (check_references_from 0 b.depends_on _ _ _) _ h₂ in
      let (fallbacks, h₄) = nil-split (check_references_from 0 b.fallback_beat_ids _ _ _) _ h₃ in
      let (secrets, h₅) = nil-split (check_references_from 0 b.reveals_secret_ids _ _ _) _ h₄ in
      let (truths, h₆) = nil-split (check_references_from 0 b.establishes_truth_ids _ _ _) _ h₅ in
      let (clues, guarded) = nil-split (check_references_from 0 b.discovers_clue_ids _ _ _) _ h₆ in
      record {
        characters = all_known 0 b.character_ids _ _ _ characters;
        location = known b.location_id _ _ _ location;
        prerequisites = all_known 0 b.depends_on _ _ _ needs;
        fallbacks = all_known 0 b.fallback_beat_ids _ _ _ fallbacks;
        secrets = all_known 0 b.reveals_secret_ids _ _ _ secrets;
        truths = all_known 0 b.establishes_truth_ids _ _ _ truths;
        clues = all_known 0 b.discovers_clue_ids _ _ _ clues;
        protected = all_known 0 b.protected_truth_ids _ _ _ guarded;
      }
