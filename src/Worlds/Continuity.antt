-- ===== src/Worlds/Continuity.antt =====
-- _clue_issues, _disclosure_issues and _reachability_issues (src/rumor_mill/worlds/continuity.py).
-- An issue is the place and the nature of what the code prints as a field and a message.
use rumor_mill_ai.Prelude.{
  concat_map, ℕ, zero, suc, ◌+◌, Bool, true, false, ◌||◌, Option, none, some, List, [], ◌∷◌, ◌++◌,
  select, contains, subset, length, ◌==◌, if◌then◌else◌,
}
use rumor_mill_ai.Domain.Base.{Visibility}
use rumor_mill_ai.Worlds.Authoring.{
  AuthoredBeat, AuthoredClue, AuthoredLocation, AuthoredSecret, WorldDefinition,
}

pub data ContinuityIssue : Type 0 where
  orphan_clue : (index clue_id : ℕ) → ContinuityIssue
  secret_shown : (index secret_id : ℕ) → ContinuityIssue
  known_by_others : (index : ℕ) → ContinuityIssue
  public_clues : (index : ℕ) (clue_ids : List ℕ) → ContinuityIssue
  unreachable_beat : (index beat_id : ℕ) → ContinuityIssue

-- A comprehension over `enumerate(items)`, from an index on.
abbrev pub issues_from :
    {A : Type 0} → (ℕ → A → List ContinuityIssue) → ℕ → List A → List ContinuityIssue
issues_from f n [] = []
issues_from f n (x ∷ xs) = f n x ++ issues_from f (suc n) xs

-- `_clue_issues`
abbrev pub placed_or_discovered : WorldDefinition → ℕ → Bool
placed_or_discovered world clue_id =
    contains clue_id (concat_map (λ location. location.clue_ids) world.locations)
    || contains clue_id (concat_map (λ beat. beat.discovers_clue_ids) world.beat_graph.beats)

abbrev pub clue_issue : WorldDefinition → ℕ → AuthoredClue → List ContinuityIssue
clue_issue world n clue =
    if placed_or_discovered world clue.id then [] else orphan_clue n clue.id ∷ []

unfoldable pub clue_issues : WorldDefinition → List ContinuityIssue
clue_issues world = issues_from (clue_issue world) 0 world.clues

-- `_disclosure_issues`
abbrev pub is_engine_only : Visibility → Bool
is_engine_only Visibility.engine_only = true
is_engine_only _ = false

abbrev pub is_public : Visibility → Bool
is_public Visibility.public = true
is_public _ = false

abbrev pub secret_issue : ℕ → AuthoredSecret → List ContinuityIssue
secret_issue n secret =
    (if is_engine_only secret.visibility then [] else secret_shown n secret.id ∷ [])
    ++ (if subset secret.known_by_ids secret.holder_ids then [] else known_by_others n ∷ [])

-- `clue_by_id[clue_id]`, where the last clue of an identifier counts.
abbrev pub last_clue : ℕ → List AuthoredClue → Option AuthoredClue
last_clue clue_id [] = none
last_clue clue_id (clue ∷ clues) = elim (last_clue clue_id clues) [
  | some found ↦ some found
  | none ↦ if clue.id == clue_id then some clue else none
]

abbrev pub is_leaked : WorldDefinition → ℕ → Bool
is_leaked world clue_id = elim (last_clue clue_id world.clues) [
  | none ↦ false
  | some clue ↦ is_public clue.visibility
]

abbrev pub leak_issue : ℕ → List ℕ → List ContinuityIssue
leak_issue n [] = []
leak_issue n (clue_id ∷ leaked) = public_clues n (clue_id ∷ leaked) ∷ []

abbrev pub location_issue : WorldDefinition → ℕ → AuthoredLocation → List ContinuityIssue
location_issue world n location = leak_issue n (select (is_leaked world) location.clue_ids)

unfoldable pub disclosure_issues : WorldDefinition → List ContinuityIssue
disclosure_issues world =
    issues_from secret_issue 0 world.secrets ++ issues_from (location_issue world) 0 world.locations

-- `dependents[beat_id]`: one entry for each time that a beat depends on it.
abbrev pub repeats : ℕ → ℕ → List ℕ → List ℕ
repeats beat_id id [] = []
repeats beat_id id (dependency ∷ dependencies) =
    let rest = repeats beat_id id dependencies in if dependency == beat_id then id ∷ rest else rest

unfoldable pub dependents : List AuthoredBeat → ℕ → List ℕ
dependents beats beat_id = concat_map (λ beat. repeats beat_id beat.id beat.depends_on) beats

abbrev pub push : ℕ → List ℕ × List ℕ → List ℕ × List ℕ
push id (reachable, queued) = (reachable, id ∷ queued)

-- The loop over dependents: what is reachable after it, and what it appended to the queue.
unfoldable pub visit : List ℕ → List ℕ → List ℕ × List ℕ
visit [] reachable = (reachable, [])
visit (id ∷ ids) reachable = elim (contains id reachable) [
  | true ↦ visit ids reachable
  | false ↦ push id (visit ids (id ∷ reachable))
]

-- The loop over the queue; no fuel is left over only if the queue is longer than it.
unfoldable pub search : List AuthoredBeat → ℕ → (reachable queue : List ℕ) → List ℕ
unfolding visit dependents
search beats fuel reachable [] = reachable
search beats zero reachable (id ∷ queue) = reachable
search beats (suc fuel) reachable (id ∷ queue) =
    let (found, queued) = visit (dependents beats id) reachable in
    search beats fuel found (queue ++ queued)

-- The queue starts with the entry beats, and each beat joins it at most once.
unfoldable pub reachable_beats : WorldDefinition → List ℕ
unfolding search
reachable_beats world =
    search world.beat_graph.beats
      (length world.beat_graph.entry_beat_ids + length world.beat_graph.beats)
      world.beat_graph.entry_beat_ids world.beat_graph.entry_beat_ids

abbrev pub beat_issue : List ℕ → ℕ → AuthoredBeat → List ContinuityIssue
beat_issue reachable n beat =
    if contains beat.id reachable then [] else unreachable_beat n beat.id ∷ []

-- `_reachability_issues`
unfoldable pub reachability_issues : WorldDefinition → List ContinuityIssue
unfolding reachable_beats
reachability_issues world =
    issues_from (beat_issue (reachable_beats world)) 0 world.beat_graph.beats
