-- ===== src/Worlds/Acyclic.antt =====
-- The search for cycles among beats (Worlds/Cycles) decides whether there are any.
use rumor_mill_ai.Prelude.{
  ℕ, zero, suc, ◌≤◌, ◌≡◌, refl, sym, subst, ◌↔◌, inl, inr, true, false, none, List, [], ◌∷◌, map,
  contains, length, length-map, ◌==◌, arith, All, Bool-cases,
}
use rumor_mill_ai.Worlds.Authoring.{AuthoredBeat}
use rumor_mill_ai.Worlds.Dependents.{All-contains}
use rumor_mill_ai.Worlds.Visit.{unvisited, unvisited-new, unvisited_le}
use rumor_mill_ai.Worlds.Cycles.{
  Visited, cycle, done, too_deep, visit, visit_each, and_then, mark, last_depends, dependencies,
  depth_of, issue_or, cycle_issues_from, beat_cycle_issues,
}

module _ (beats : List AuthoredBeat) where
  -- A beat of which every chain of dependencies ends.
  pub data Grounded : ℕ → Type 0 where
    ends :
        {id : ℕ} → ((d : ℕ) → contains d (dependencies beats id) ≡ true → Grounded d) → Grounded id

  -- A beat depends on another, directly or not.
  pub data Leads : ℕ → ℕ → Type 0 where
    one : {id d : ℕ} → contains d (dependencies beats id) ≡ true → Leads id d
    more : {id d e : ℕ} → contains d (dependencies beats id) ≡ true → Leads d e → Leads id e

  Leads-snoc : {id d e : ℕ} → Leads id d → contains e (dependencies beats d) ≡ true → Leads id e
  Leads-snoc (one h) k = more h (one k)
  Leads-snoc (more h p) k = more h (Leads-snoc p k)

  Grounded-Leads : {id : ℕ} → Grounded id → Leads id id → ⊥
  Grounded-Leads {id} (ends g) (one h) = Grounded-Leads (g id h) (one h)
  Grounded-Leads (ends g) (more {d = d} h p) = Grounded-Leads (g d h) (Leads-snoc p h)

  Grounded-along : {id d : ℕ} → Grounded id → Leads id d → Grounded d
  Grounded-along (ends g) (one {d = d} h) = g d h
  Grounded-along (ends g) (more {d = d} h p) = Grounded-along (g d h) p

  -- What a visit says of a beat, by how it ends.
  Outcome : (id : ℕ) → Visited → Type 0
  Outcome id (cycle c) = Leads c c × Leads id c
  Outcome id (done visited) = Grounded id × All Grounded visited
  Outcome id too_deep = ⊥

  EachOutcome : (ids : List ℕ) → Visited → Type 0
  EachOutcome ids (cycle c) = Leads c c × ((d : ℕ) × (contains d ids ≡ true) × Leads d c)
  EachOutcome ids (done visited) = All Grounded ids × All Grounded visited
  EachOutcome ids too_deep = ⊥

  join-EachOutcome :
      (id : ℕ) (ids : List ℕ) (r : Visited)
      → Grounded id
      → EachOutcome ids r
      → EachOutcome (id ∷ ids) r
  unfolding EachOutcome
  join-EachOutcome id ids (cycle c) g (closed, (d, listed, leads)) =
      (closed, (d, ground arith, leads))
  join-EachOutcome id ids too_deep g e = e
  join-EachOutcome id ids (done v) g e = ((g, e.0), e.1)

  and_then-EachOutcome :
      (id : ℕ) (ids : List ℕ) (r : Visited) (f : List ℕ → Visited)
      → Outcome id r
      → ((v : List ℕ) → All Grounded v → EachOutcome ids (f v))
      → EachOutcome (id ∷ ids) (and_then r f)
  unfolding Outcome EachOutcome
  and_then-EachOutcome id ids (cycle c) f o h = (o.0, (id, ground arith, o.1))
  and_then-EachOutcome id ids too_deep f o h = o
  and_then-EachOutcome id ids (done v) f o h = join-EachOutcome id ids (f v) o.0 (h v o.1)

  visit_each-EachOutcome :
      (step : ℕ → List ℕ → Visited) (ids visited : List ℕ)
      → ((d : ℕ) (v : List ℕ) → contains d ids ≡ true → All Grounded v → Outcome d (step d v))
      → All Grounded visited
      → EachOutcome ids (visit_each step ids visited)
  unfolding EachOutcome
  visit_each-EachOutcome step [] visited h k = (tt, k)
  visit_each-EachOutcome step (id ∷ ids) visited h k =
      and_then-EachOutcome id ids (step id visited) (λ v. visit_each step ids v)
        (h id visited (ground arith) k)
        (λ v. visit_each-EachOutcome step ids v (λ d w c. h d w (ground arith)))

  finish-Outcome :
      (id : ℕ) (r : Visited)
      → EachOutcome (dependencies beats id) r
      → Outcome id (and_then r (mark id))
  unfolding Outcome EachOutcome
  finish-Outcome id (cycle c) (closed, (d, listed, leads)) = (closed, more listed leads)
  finish-Outcome id too_deep e = e
  finish-Outcome id (done v) e =
      let grounded : Grounded id =
        ends (λ d. All-contains Grounded d (dependencies beats id) e.0) in
      (grounded, (grounded, e.1))

  -- An identifier that no beat has depends on nothing.
  no_dependencies :
      (id : ℕ) (bs : List AuthoredBeat)
      → contains id (map (λ b. b.id) bs) ≡ false
      → last_depends id bs ≡ none
  no_dependencies id [] h = refl
  no_dependencies id (b ∷ bs) h = ground (arith, no_dependencies id bs)

  undeclared-dependencies :
      (id : ℕ) → contains id (map (λ b. b.id) beats) ≡ false → dependencies beats id ≡ []
  unfolding dependencies
  undeclared-dependencies id h = ground (arith, no_dependencies id beats h)

  visit-on_stack :
      (depth : ℕ) (visiting : List ℕ) (id : ℕ) (visited : List ℕ)
      → contains id visiting ≡ true
      → visit beats (suc depth) visiting id visited ≡ cycle id
  unfolding visit
  visit-on_stack depth visiting id visited h = rw h refl

  visit-again :
      (depth : ℕ) (visiting : List ℕ) (id : ℕ) (visited : List ℕ)
      → contains id visiting ≡ false
      → contains id visited ≡ true
      → visit beats (suc depth) visiting id visited ≡ done visited
  unfolding visit
  visit-again depth visiting id visited h k = rw (h, k) refl

  visit-first :
      (depth : ℕ) (visiting : List ℕ) (id : ℕ) (visited : List ℕ)
      → contains id visiting ≡ false
      → contains id visited ≡ false
      → visit beats (suc depth) visiting id visited
        ≡ and_then
            (visit_each (visit beats depth (id ∷ visiting)) (dependencies beats id) visited)
            (mark id)
  unfolding visit
  visit-first depth visiting id visited h k = rw (h, k) refl

  -- The beats on the stack lead to every dependency of the beat that is visited.
  above-Leads :
      (visiting : List ℕ) (id d : ℕ)
      → contains d (dependencies beats id) ≡ true
      → ((v : ℕ) → contains v visiting ≡ true → Leads v id)
      → (v : ℕ) → contains v (id ∷ visiting) ≡ true
      → Leads v d
  above-Leads visiting id d depends above v h = elim (Bool-cases (v == id)) [
    | inl same ↦ subst (λ i. Leads i d) (ground arith) (one {id = id} depends)
    | inr other ↦ Leads-snoc (above v (ground arith)) depends
  ]

  -- The visits of the dependencies, given what holds of visits that are one deeper.
  each-EachOutcome :
      (depth : ℕ) (visiting : List ℕ) (id : ℕ) (visited : List ℕ)
      → ((d : ℕ) (v : List ℕ)
          → suc (suc (unvisited (id ∷ visiting) (map (λ b. b.id) beats))) ≤ depth
          → ((x : ℕ) → contains x (id ∷ visiting) ≡ true → Leads x d)
          → All Grounded v
          → Outcome d (visit beats depth (id ∷ visiting) d v))
      → suc (suc (unvisited visiting (map (λ b. b.id) beats))) ≤ suc depth
      → contains id visiting ≡ false
      → ((v : ℕ) → contains v visiting ≡ true → Leads v id)
      → All Grounded visited
      → EachOutcome
          (dependencies beats id)
          (visit_each (visit beats depth (id ∷ visiting)) (dependencies beats id) visited)
  unfolding EachOutcome
  each-EachOutcome depth visiting id visited deeper deep new above grounded =
      let ids = map (λ b. b.id) beats in
      let step = visit beats depth (id ∷ visiting) in
      elim (Bool-cases (contains id ids)) [
        | inl declared ↦
            visit_each-EachOutcome step (dependencies beats id) visited
              (λ d v depends.
                deeper d v (omega (arith, unvisited-new id visiting ids declared new))
                  (above-Leads visiting id d depends above))
              grounded
        | inr undeclared ↦
            subst (λ l. EachOutcome l (visit_each step l visited))
              (sym (undeclared-dependencies id undeclared)) (tt, grounded)
      ]

  -- With depth for every beat that is not on the stack, a visit ends at a cycle or grounds its
  -- beat.
  visit-Outcome :
      (depth : ℕ) (visiting : List ℕ) (id : ℕ) (visited : List ℕ)
      → suc (suc (unvisited visiting (map (λ b. b.id) beats))) ≤ depth
      → ((v : ℕ) → contains v visiting ≡ true → Leads v id)
      → All Grounded visited
      → Outcome id (visit beats depth visiting id visited)
  unfolding Outcome
  visit-Outcome zero visiting id visited deep above grounded = absurd (omega arith)
  visit-Outcome (suc depth) visiting id visited deep above grounded =
      elim (Bool-cases (contains id visiting)) [
        | inl on_stack ↦
            subst (Outcome id) (sym (visit-on_stack depth visiting id visited on_stack))
              (above id on_stack, above id on_stack)
        | inr new ↦ elim (Bool-cases (contains id visited)) [
          | inl again ↦
              subst (Outcome id) (sym (visit-again depth visiting id visited new again))
                (All-contains Grounded id visited grounded again, grounded)
          | inr first ↦ subst (Outcome id) (sym (visit-first depth visiting id visited new first)) (
              finish-Outcome id _ (
                each-EachOutcome depth visiting id visited
                  (λ d. visit-Outcome depth (id ∷ visiting) d) deep new above grounded))
        ]
      ]

  issue_or-Grounded :
      (n id : ℕ) (r : Visited) (bs : List AuthoredBeat)
      → Outcome id r
      → ((v : List ℕ)
          → All Grounded v
          → (cycle_issues_from beats (suc n) bs v ≡ []) ↔ All (λ b. Grounded b.id) bs)
      → (issue_or n (λ v. cycle_issues_from beats (suc n) bs v) r ≡ [])
        ↔ (Grounded id × All (λ b. Grounded b.id) bs)
  unfolding Outcome
  issue_or-Grounded n id (cycle c) bs o h =
      ((λ k. absurd cc), (λ k. absurd (Grounded-Leads (Grounded-along k.0 o.1) o.0)))
  issue_or-Grounded n id too_deep bs o h = absurd o
  issue_or-Grounded n id (done v) bs o h = ((λ k. (o.0, (h v o.1).0 k)), (λ k. (h v o.1).1 k.1))

  cycle_issues-Grounded :
      (n : ℕ) (bs : List AuthoredBeat) (visited : List ℕ)
      → All Grounded visited
      → (cycle_issues_from beats n bs visited ≡ []) ↔ All (λ b. Grounded b.id) bs
  unfolding cycle_issues_from
  cycle_issues-Grounded n [] visited grounded = ((λ k. tt), (λ k. refl))
  cycle_issues-Grounded n (b ∷ bs) visited grounded =
      let counted : length (map (λ b. b.id) beats) ≡ length beats = length-map beats (λ b. b.id) in
      issue_or-Grounded n b.id (visit beats (depth_of beats) [] b.id visited) bs
        (visit-Outcome (depth_of beats) [] b.id visited
          (omega (arith, unvisited_le [] (map (λ b. b.id) beats))) (λ v h. absurd cc) grounded)
        (λ v. cycle_issues-Grounded (suc n) bs v)

-- Validation raises no cycle issue, whether of a cycle or of a search that goes too deep, exactly
-- if every chain of dependencies of every beat ends; and no beat of which they all end depends on
-- itself, directly or not.
pub beat_cycle_issues-Grounded :
    (beats : List AuthoredBeat)
    → ((beat_cycle_issues beats ≡ []) ↔ All (λ b. Grounded beats b.id) beats)
      × ((id : ℕ) → Grounded beats id → ¬ Leads beats id id)
unfolding beat_cycle_issues
beat_cycle_issues-Grounded beats =
    (cycle_issues-Grounded beats 0 beats [] tt, (λ id. Grounded-Leads beats))
