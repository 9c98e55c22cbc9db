-- ===== src/Worlds/References.antt =====
-- _reference_issues with its helpers and _beat_cycle_issues (src/rumor_mill/worlds/authoring.py). An
-- issue is the place, the nature and the identifiers of what the code prints as a field and a
-- message.
use rumor_mill_ai.Prelude.{
  ℕ, suc, String, Bool, Option, none, some, List, [], ◌∷◌, ◌++◌, map, contains, ◌==◌, if◌then◌else◌,
}
use rumor_mill_ai.Worlds.Authoring.{
  AuthoredBeat, AuthoredCharacter, AuthoredLocation, AuthoredRoutine, AuthoredSecret,
  AuthoredTravelRoute, AuthoredTruth, InitialRelationship, WorldDefinition,
}

-- Where an issue is: a list of the definition, an index in it, a field, and an index in that.
pub record Place : Type 0 where
  pub records : String
  pub index : ℕ
  pub field : String
  pub item : Option ℕ

pub data Defect : Type 0 where
  duplicate_id : ℕ → Defect
  unknown_id : (kind : String) → ℕ → Defect
  contains_itself : Defect
  same_endpoints : Defect
  cycle_through : ℕ → Defect
  recursion_error : Defect

pub record ReferenceIssue : Type 0 where
  pub place : Place
  pub defect : Defect

abbrev pub at : String → ℕ → String → Place
at records index field = record { records = records; index = index; field = field; item = none }

abbrev pub issue_if : Bool → Place → Defect → List ReferenceIssue
issue_if b place defect = if b then record { place = place; defect = defect } ∷ [] else []

-- `_check_reference`
abbrev pub check_reference : ℕ → List ℕ → Place → String → List ReferenceIssue
check_reference value available place kind =
    if contains value available
    then []
    else record { place = place; defect = unknown_id kind value } ∷ []

-- `_check_references`, from an index on.
abbrev pub check_references_from : ℕ → List ℕ → List ℕ → Place → String → List ReferenceIssue
check_references_from n [] available place kind = []
check_references_from n (value ∷ values) available place kind =
    check_reference value available (record place { item = some n }) kind
    ++ check_references_from (suc n) values available place kind

abbrev pub check_references : List ℕ → List ℕ → Place → String → List ReferenceIssue
check_references values available place kind = check_references_from 0 values available place kind

-- `_check_optional_reference`
abbrev pub check_optional_reference : Option ℕ → List ℕ → Place → String → List ReferenceIssue
check_optional_reference none available place kind = []
check_optional_reference (some value) available place kind =
    check_reference value available place kind

-- The issues of `_collect_ids`, from an index on; what it returns is the set of all identifiers.
abbrev pub duplicates_from : ℕ → (seen ids : List ℕ) → String → List ReferenceIssue
duplicates_from n seen [] records = []
duplicates_from n seen (id ∷ ids) records =
    issue_if (contains id seen) (at records n "id") (duplicate_id id)
    ++ duplicates_from (suc n) (id ∷ seen) ids records

abbrev pub collect_ids : List ℕ → String → List ReferenceIssue
collect_ids ids records = duplicates_from 0 [] ids records

-- A loop over `enumerate(records)`, from an index on.
abbrev pub issues_from :
    {A : Type 0} → (ℕ → A → List ReferenceIssue) → ℕ → List A → List ReferenceIssue
issues_from f n [] = []
issues_from f n (x ∷ xs) = f n x ++ issues_from f (suc n) xs

abbrev pub is_some_of : Option ℕ → ℕ → Bool
is_some_of none i = Bool.false
is_some_of (some j) i = j == i

module _ (world : WorldDefinition) where
  abbrev pub character_ids : List ℕ
  character_ids = map (λ c. c.id) world.cast

  abbrev pub location_ids : List ℕ
  location_ids = map (λ l. l.id) world.locations

  abbrev pub truth_ids : List ℕ
  truth_ids = map (λ t. t.id) world.truth

  abbrev pub secret_ids : List ℕ
  secret_ids = map (λ s. s.id) world.secrets

  abbrev pub clue_ids : List ℕ
  clue_ids = map (λ c. c.id) world.clues

  abbrev pub beat_ids : List ℕ
  beat_ids = map (λ b. b.id) world.beat_graph.beats

  abbrev pub id_issues : List ReferenceIssue
  id_issues =
      collect_ids character_ids "cast"
      ++ (collect_ids location_ids "locations"
          ++ (collect_ids (map (λ r. r.id) world.initial_relationships) "initial_relationships"
              ++ (collect_ids truth_ids "truth"
                  ++ (collect_ids secret_ids "secrets"
                      ++ (collect_ids clue_ids "clues"
                          ++ (collect_ids beat_ids "beat_graph.beats"
                              ++ (collect_ids (map (λ r. r.id) world.routines) "routines"
                                  ++ collect_ids (map (λ r. r.id) world.travel_routes)
                                      "travel_routes")))))))

  abbrev pub character_issues : ℕ → AuthoredCharacter → List ReferenceIssue
  character_issues n c =
      check_optional_reference c.home_location_id location_ids (at "cast" n "home_location_id")
        "location"

  abbrev pub location_issues : ℕ → AuthoredLocation → List ReferenceIssue
  location_issues n l =
      check_optional_reference l.parent_location_id location_ids
        (at "locations" n "parent_location_id") "location"
      ++ (issue_if (is_some_of l.parent_location_id l.id) (at "locations" n "parent_location_id")
            contains_itself
          ++ check_references l.clue_ids clue_ids (at "locations" n "clue_ids") "clue")

  abbrev pub relationship_issues : ℕ → InitialRelationship → List ReferenceIssue
  relationship_issues n r =
      let place = at "initial_relationships" n in
      check_reference r.source_character_id character_ids (place "source_character_id") "character"
      ++ (check_reference r.target_character_id character_ids (place "target_character_id")
            "character"
          ++ issue_if (r.source_character_id == r.target_character_id) (place "target_character_id")
              same_endpoints)

  abbrev pub truth_issues : ℕ → AuthoredTruth → List ReferenceIssue
  truth_issues n t =
      check_references t.character_ids character_ids (at "truth" n "character_ids") "character"
      ++ check_references t.location_ids location_ids (at "truth" n "location_ids") "location"

  abbrev pub secret_issues : ℕ → AuthoredSecret → List ReferenceIssue
  secret_issues n s =
      check_references s.holder_ids character_ids (at "secrets" n "holder_ids") "character"
      ++ (check_references s.known_by_ids character_ids (at "secrets" n "known_by_ids") "character"
          ++ check_reference s.truth_id truth_ids (at "secrets" n "truth_id") "truth")

  abbrev pub routine_issues : ℕ → AuthoredRoutine → List ReferenceIssue
  routine_issues n r =
      check_reference r.character_id character_ids (at "routines" n "character_id") "character"
      ++ check_reference r.location_id location_ids (at "routines" n "location_id") "location"

  abbrev pub route_issues : ℕ → AuthoredTravelRoute → List ReferenceIssue
  route_issues n r =
      let place = at "travel_routes" n in
      check_reference r.from_location_id location_ids (place "from_location_id") "location"
      ++ (check_reference r.to_location_id location_ids (place "to_location_id") "location"
          ++ issue_if (r.from_location_id == r.to_location_id) (place "to_location_id")
              same_endpoints)

  abbrev pub beat_issues : ℕ → AuthoredBeat → List ReferenceIssue
  beat_issues n b =
      let place = at "beat_graph.beats" n in
      check_references b.character_ids character_ids (place "character_ids") "character"
      ++ (check_reference b.location_id location_ids (place "location_id") "location"
          ++ (check_references b.depends_on beat_ids (place "depends_on") "beat"
              ++ (check_references b.fallback_beat_ids beat_ids (place "fallback_beat_ids") "beat"
                  ++ (check_references b.reveals_secret_ids secret_ids (place "reveals_secret_ids")
                        "secret"
                      ++ (check_references b.establishes_truth_ids truth_ids
                            (place "establishes_truth_ids") "truth"
                          ++ (check_references b.discovers_clue_ids clue_ids
                                (place "discovers_clue_ids") "clue"
                              ++ check_references b.protected_truth_ids truth_ids
                                  (place "protected_truth_ids") "truth"))))))
