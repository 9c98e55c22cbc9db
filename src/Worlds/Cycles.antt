-- ===== src/Worlds/Cycles.antt =====
-- _beat_cycle_issues and the end of _reference_issues (src/rumor_mill/worlds/authoring.py). The set
-- `visiting` is a stack: a visit that finds no cycle takes out what it put in, and one that finds
-- a cycle ends the search.
use rumor_mill_ai.Prelude.{
  ℕ, zero, suc, Option, none, some, List, [], ◌∷◌, ◌++◌, contains, length, ◌==◌, if◌then◌else◌,
}
use rumor_mill_ai.Worlds.Authoring.{AuthoredBeat, WorldDefinition}
use rumor_mill_ai.Worlds.References.{
  ReferenceIssue, Defect, at, id_issues, character_issues, location_issues, relationship_issues,
  truth_issues, secret_issues, routine_issues, route_issues, beat_issues, beat_ids,
  check_references, issues_from,
}

-- How a visit ends: at a cycle, with what is visited now, or too deep.
pub data Visited : Type 0 where
  cycle : ℕ → Visited
  done : List ℕ → Visited
  too_deep : Visited

abbrev pub and_then : Visited → (List ℕ → Visited) → Visited
and_then (cycle id) f = cycle id
and_then (done visited) f = f visited
and_then too_deep f = too_deep

-- `dependencies.get(beat_id, ())`, where the last beat of an identifier counts.
abbrev pub last_depends : ℕ → List AuthoredBeat → Option (List ℕ)
last_depends id [] = none
last_depends id (beat ∷ beats) = elim (last_depends id beats) [
  | some found ↦ some found
  | none ↦ if beat.id == id then some beat.depends_on else none
]

unfoldable pub dependencies : List AuthoredBeat → ℕ → List ℕ
dependencies beats id = elim (last_depends id beats) [ none ↦ [] | some found ↦ found ]

-- The loop over dependencies.
abbrev pub visit_each : (ℕ → List ℕ → Visited) → List ℕ → List ℕ → Visited
visit_each visit [] visited = done visited
visit_each visit (id ∷ ids) visited = and_then (visit id visited) (λ v. visit_each visit ids v)

abbrev pub mark : ℕ → List ℕ → Visited
mark id visited = done (id ∷ visited)

-- `visit`, at most so deep.
unfoldable pub visit : List AuthoredBeat → ℕ → (visiting : List ℕ) → ℕ → List ℕ → Visited
unfolding dependencies
visit beats zero visiting id visited = too_deep
visit beats (suc depth) visiting id visited =
    if contains id visiting
    then cycle id
    else (if contains id visited
        then done visited
        else and_then
            (visit_each (visit beats depth (id ∷ visiting)) (dependencies beats id) visited)
            (mark id))

-- No chain of visits is longer than this.
abbrev pub depth_of : List AuthoredBeat → ℕ
depth_of beats = suc (suc (length beats))

abbrev pub cycle_issue : ℕ → Defect → List ReferenceIssue
cycle_issue n defect = record { place = at "beat_graph.beats" n "depends_on"; defect = defect } ∷ []

abbrev pub issue_or : ℕ → (List ℕ → List ReferenceIssue) → Visited → List ReferenceIssue
issue_or n rest (cycle id) = cycle_issue n (Defect.cycle_through id)
issue_or n rest too_deep = cycle_issue n Defect.recursion_error
issue_or n rest (done visited) = rest visited

-- The loop over beats, from an index on.
unfoldable pub cycle_issues_from :
    List AuthoredBeat → ℕ → List AuthoredBeat → List ℕ → List ReferenceIssue
unfolding visit
cycle_issues_from all_beats n [] visited = []
cycle_issues_from all_beats n (beat ∷ beats) visited =
    issue_or n (λ v. cycle_issues_from all_beats (suc n) beats v)
      (visit all_beats (depth_of all_beats) [] beat.id visited)

-- `_beat_cycle_issues`
unfoldable pub beat_cycle_issues : List AuthoredBeat → List ReferenceIssue
unfolding cycle_issues_from
beat_cycle_issues beats = cycle_issues_from beats 0 beats []

-- `_reference_issues`
unfoldable pub reference_issues : WorldDefinition → List ReferenceIssue
unfolding beat_cycle_issues
reference_issues world =
    id_issues world
    ++ (issues_from (character_issues world) 0 world.cast
        ++ (issues_from (location_issues world) 0 world.locations
            ++ (issues_from (relationship_issues world) 0 world.initial_relationships
                ++ (issues_from (truth_issues world) 0 world.truth
                    ++ (issues_from (secret_issues world) 0 world.secrets
                        ++ (issues_from (routine_issues world) 0 world.routines
                            ++ (issues_from (route_issues world) 0 world.travel_routes
                                ++ (check_references world.beat_graph.entry_beat_ids
                                      (beat_ids world) (at "beat_graph" 0 "entry_beat_ids") "beat"
                                    ++ (issues_from (beat_issues world) 0 world.beat_graph.beats
                                        ++ beat_cycle_issues world.beat_graph.beats)))))))))
