-- ===== src/Worlds/Reachable.antt =====
-- The search for reachable beats finds exactly those that can be reached.
use rumor_mill_ai.Prelude.{
  ℕ, zero, suc, ◌+◌, ◌≤◌, ◌≡◌, refl, subst, ◌∙◌, ◌↔◌, ◌⊎◌, inl, inr, true, List, [], ◌∷◌, ◌++◌, map,
  contains, length, length-append, length-map, ◌==◌, arith, All, All-append, All-weaken, Bool-cases,
}
use rumor_mill_ai.Prelude.Member.{Member}
use rumor_mill_ai.Worlds.Authoring.{AuthoredBeat, WorldDefinition}
use rumor_mill_ai.Worlds.Visit.{
  visit-All, visit_mono, visit-reaches, visit-queues, visit-unvisited, unvisited, unvisited_le,
}
use rumor_mill_ai.Worlds.Continuity.{
  dependents, visit, search, reachable_beats, reachability_issues, issues_from, beat_issue,
}
use rumor_mill_ai.Worlds.Dependents.{
  Reach, entry, step, contains-append, All-contains, members, dependents-All, contains-dependents,
}

-- What is closed under dependents holds of all that the search finds.
search-All {κ} :
    (P : ℕ → Type κ) (beats : List AuthoredBeat)
    → ((id : ℕ) → P id → All P (dependents beats id))
    → (fuel : ℕ) (reachable queue : List ℕ) → All P reachable
    → All P queue
    → All P (search beats fuel reachable queue)
unfolding search
search-All P beats closed fuel reachable [] h k = h
search-All P beats closed zero reachable (id ∷ queue) h k = h
search-All P beats closed (suc fuel) reachable (id ∷ queue) h k =
    let after = visit-All P (dependents beats id) reachable (closed id k.0) h in
    search-All P beats closed fuel _ _ after.0 (All-append P queue _ k.1 after.1)

search_mono :
    (x : ℕ) (beats : List AuthoredBeat) (fuel : ℕ) (reachable queue : List ℕ)
    → contains x reachable ≡ true
    → contains x (search beats fuel reachable queue) ≡ true
unfolding search
search_mono x beats fuel reachable [] h = h
search_mono x beats zero reachable (id ∷ queue) h = h
search_mono x beats (suc fuel) reachable (id ∷ queue) h =
    search_mono x beats fuel _ _ (visit_mono x (dependents beats id) reachable h)

-- Every reachable beat waits in the queue, or its dependents are reachable.
abbrev Pending : List AuthoredBeat → (reachable queue : List ℕ) → Type 0
Pending beats reachable queue =
    (x : ℕ)
    → contains x reachable ≡ true
    → (contains x queue ≡ true) ⊎ All (λ d. contains d reachable ≡ true) (dependents beats x)

visit-Pending :
    (beats : List AuthoredBeat) (id : ℕ) (reachable queue : List ℕ)
    → Pending beats reachable (id ∷ queue)
    → Pending beats
        (visit (dependents beats id) reachable).0
        (queue ++ (visit (dependents beats id) reachable).1)
visit-Pending beats id reachable queue h x k =
    let ids = dependents beats id in
    let queued = (visit ids reachable).1 in
    elim (visit-queues x ids reachable k) [
      | inr new ↦ inl (contains-append x queue queued ∙ ground arith)
      | inl before ↦ elim (h x before) [
        | inr done ↦ inr (
            All-weaken (λ d. contains d reachable ≡ true)
              (λ d. contains d (visit ids reachable).0 ≡ true) (λ d. visit_mono d ids reachable)
              (dependents beats x) done)
        | inl waiting ↦ elim (Bool-cases (x == id)) [
          | inl same ↦ inr (
              subst (λ y. All (λ d. contains d (visit ids reachable).0 ≡ true) (dependents beats y))
                (ground arith) (visit-reaches ids reachable))
          | inr other ↦ inl (contains-append x queue queued ∙ ground arith)
        ]
      ]
    ]

abbrev ids_of : List AuthoredBeat → List ℕ
ids_of beats = map (λ beat. beat.id) beats

own_ids : (beats : List AuthoredBeat) → All (λ beat. contains beat.id (ids_of beats) ≡ true) beats
own_ids [] = tt
own_ids (beat ∷ beats) = (
  ground arith,
  All-weaken (λ b. contains b.id (ids_of beats) ≡ true)
      (λ b. contains b.id (ids_of (beat ∷ beats)) ≡ true) (λ b h. ground arith) beats
      (own_ids beats),
)

dependents-ids :
    (beats : List AuthoredBeat) (id : ℕ)
    → All (λ d. contains d (ids_of beats) ≡ true) (dependents beats id)
dependents-ids beats id =
    dependents-All (λ d. contains d (ids_of beats) ≡ true) id beats
      (All-weaken _ _ (λ beat own _. own) beats (own_ids beats))

-- With fuel for the queue and for every identifier that may still join it, the search ends with
-- nothing pending.
search-Pending :
    (beats : List AuthoredBeat) (fuel : ℕ) (reachable queue : List ℕ)
    → length queue + unvisited reachable (ids_of beats) ≤ fuel
    → Pending beats reachable queue
    → Pending beats (search beats fuel reachable queue) []
unfolding search
search-Pending beats fuel reachable [] enough h = h
search-Pending beats zero reachable (id ∷ queue) enough h = absurd (omega arith)
search-Pending beats (suc fuel) reachable (id ∷ queue) enough h =
    let ids = dependents beats id in
    search-Pending beats fuel _ _
      (omega (
        arith,
        visit-unvisited (ids_of beats) ids reachable (dependents-ids beats id),
        length-append {0} queue (visit ids reachable).1,
      ))
      (visit-Pending beats id reachable queue h)

reachable_complete :
    (world : WorldDefinition) (id : ℕ) → Reach world id → contains id (reachable_beats world) ≡ true
unfolding reachable_beats
reachable_complete world id (entry h) =
    search_mono id world.beat_graph.beats _ world.beat_graph.entry_beat_ids
      world.beat_graph.entry_beat_ids h
reachable_complete world _ (step beat dependency member depends reach) =
    let beats = world.beat_graph.beats in
    let entries = world.beat_graph.entry_beat_ids in
    let counted : length (ids_of beats) ≡ length beats = length-map beats (λ beat. beat.id) in
    let closed =
      search-Pending beats (length entries + length beats) entries entries
        (omega (arith, unvisited_le entries (ids_of beats), counted)) (λ x h. inl h) dependency
        (reachable_complete world dependency reach) in
    elim closed [
      | inl waiting ↦ absurd cc
      | inr done ↦
          All-contains (λ d. contains d (reachable_beats world) ≡ true) beat.id
            (dependents beats dependency) done
            (contains-dependents dependency beat beats member depends)
    ]

entries_reach :
    (world : WorldDefinition) (ids : List ℕ)
    → ((id : ℕ) → contains id ids ≡ true → Reach world id)
    → All (Reach world) ids
entries_reach world [] h = tt
entries_reach world (id ∷ ids) h =
    (h id (ground arith), entries_reach world ids (λ i k. h i (ground arith)))

reachable_sound : (world : WorldDefinition) → All (Reach world) (reachable_beats world)
unfolding reachable_beats
reachable_sound world =
    let beats = world.beat_graph.beats in
    let entries : All (Reach world) world.beat_graph.entry_beat_ids =
      entries_reach world world.beat_graph.entry_beat_ids (λ id h. entry h) in
    search-All (Reach world) beats
      (λ id reach. dependents-All (Reach world) id beats (
        All-weaken (λ beat. Member beat beats)
          (λ beat. contains id beat.depends_on ≡ true → Reach world beat.id)
          (λ beat member depends. step beat id member depends reach) beats (members beats)))
      _ _ _ entries entries

no_issue :
    (reachable : List ℕ) (n : ℕ) (beats : List AuthoredBeat)
    → issues_from (beat_issue reachable) n beats ≡ []
    → All (λ beat. contains beat.id reachable ≡ true) beats
no_issue reachable n [] h = tt
no_issue reachable n (beat ∷ beats) h = ground (arith, no_issue reachable (suc n) beats)

none_raised :
    (reachable : List ℕ) (n : ℕ) (beats : List AuthoredBeat)
    → All (λ beat. contains beat.id reachable ≡ true) beats
    → issues_from (beat_issue reachable) n beats ≡ []
none_raised reachable n [] h = refl
none_raised reachable n (beat ∷ beats) h = ground (arith, none_raised reachable (suc n) beats h.1)

-- The search always ends with the whole answer: the beats that it finds are exactly those that
-- can be reached from an entry beat along dependencies. So continuity finds no unreachable beat
-- exactly if every beat can be reached.
pub reachability_issues-Reach :
    (world : WorldDefinition)
    → ((id : ℕ) → (contains id (reachable_beats world) ≡ true) ↔ Reach world id)
      × ((reachability_issues world ≡ [])
          ↔ All (λ beat. Reach world beat.id) world.beat_graph.beats)
unfolding reachability_issues
reachability_issues-Reach world =
    let beats = world.beat_graph.beats in
    let found = reachable_beats world in
    let sound : (id : ℕ) → contains id found ≡ true → Reach world id =
      λ id. All-contains (Reach world) id found (reachable_sound world) in
    (
      (λ id. (sound id, reachable_complete world id)),
      (
        (λ h.
            All-weaken (λ b. contains b.id found ≡ true) (λ b. Reach world b.id) (λ b. sound b.id)
              beats (no_issue found 0 beats h)),
        (λ h. none_raised found 0 beats (
            All-weaken (λ b. Reach world b.id) (λ b. contains b.id found ≡ true)
              (λ b. reachable_complete world b.id) beats h)),
      ),
    )
