-- ===== src/Memories/Budget.antt =====
-- What is retrieved fits the budget and belongs to the character (Memories/Retrieval).
use rumor_mill_ai.Prelude.{
  ℕ, ◌+◌, ◌-◌, ◌≤◌, ◌≡◌, refl, sym, subst, String, Bool, true, false, ◌&&◌, List, [], ◌∷◌, map,
  select, length, leb, ◌==◌, ok, >>=-eq-ok, arith, All, All-weaken, select_sound, Bool-cases, inl,
  inr,
}
use rumor_mill_ai.Prelude.Order.{sort_by, sort_by-All}
use rumor_mill_ai.Floats.{Floats}
use rumor_mill_ai.Memories.Records.{Memory, MemoryModel, list_for_character, later}
use rumor_mill_ai.Memories.Retrieval.{
  MemoryQuery, RetrievedMemory, token_cost, source_of, retrieved, rank, ahead, within_budget,
  retrieve, is_forgotten,
}

abbrev pub total_cost : {C : Type 0} → List (RetrievedMemory C) → ℕ
total_cost [] = 0
total_cost (item ∷ items) = item.token_cost + total_cost items

token_cost_pos : (s : String) → 1 ≤ token_cost s
unfolding token_cost
token_cost_pos s = omega arith

map-All :
    {C : Type 0} (character_id : ℕ) (rows : List (MemoryModel C))
    → All (λ r. r.memory.character_id ≡ character_id) rows
    → All (λ m. m.character_id ≡ character_id) (map (λ r. r.memory) rows)
map-All character_id [] h = tt
map-All character_id (r ∷ rows) h = (h.0, map-All character_id rows h.1)

list-own :
    {C : Type 0} (run_id character_id : ℕ) (t : List (MemoryModel C))
    → All (λ m. m.character_id ≡ character_id) (list_for_character run_id character_id t)
unfolding list_for_character
list-own {C} run_id character_id t =
    let wanted : MemoryModel C → Bool =
      λ r. r.run_id == run_id && r.memory.character_id == character_id in
    map-All character_id (sort_by later (select wanted t)) (
      sort_by-All later (λ r. r.memory.character_id ≡ character_id) (select wanted t)
        (All-weaken (λ r. wanted r ≡ true) (λ r. r.memory.character_id ≡ character_id)
          (λ r h. ground arith) (select wanted t) (select_sound wanted t)))

module _ (F : Floats) (exp : F.Carrier → F.Carrier) (terms_of : String → List String) where
  open F use {Carrier}

  -- An item that a query may bring up for a character.
  pub record IsRecalled (character_id : ℕ) (q : MemoryQuery Carrier)
      (item : RetrievedMemory Carrier) : Type 0 where
    pub own : item.memory.character_id ≡ character_id
    pub remembered : is_forgotten F exp terms_of q item.memory ≡ false
    pub source :
        source_of item.memory.source_event_id item.memory.source_claim_id
        ≡ ok (item.source_kind, item.source_id)
    pub cost : item.token_cost ≡ token_cost item.memory.content

  rank-IsRecalled :
      (character_id : ℕ) (q : MemoryQuery Carrier) (ms : List (Memory Carrier))
      {items : List (RetrievedMemory Carrier)}
      → All (λ m. m.character_id ≡ character_id) ms
      → rank F exp terms_of q ms ≡ ok items
      → All (IsRecalled character_id q) items
  unfolding rank
  rank-IsRecalled character_id q [] own h = ground arith
  rank-IsRecalled character_id q (m ∷ ms) own h =
      elim (Bool-cases (is_forgotten F exp terms_of q m)) [
        | inl forgotten ↦ rank-IsRecalled character_id q ms own.1 (rw forgotten at h)
        | inr remembered ↦
            let (source, found, h₁) =
              >>=-eq-ok (source_of m.source_event_id m.source_claim_id) _ (rw remembered at h) in
            let (rest, ranked, all_ranked) = >>=-eq-ok (rank F exp terms_of q ms) _ h₁ in
            let first : IsRecalled character_id q (retrieved F exp terms_of q m source) = record {
              own = own.0;
              remembered = remembered;
              source = found;
              cost = refl;
            } in
            ground (arith, all_ranked, first, rank-IsRecalled character_id q ms own.1 ranked)
      ]

  fits :
      (n : ℕ) (item : RetrievedMemory Carrier) (items : List (RetrievedMemory Carrier))
      → leb item.token_cost n ≡ true
      → within_budget F exp terms_of n (item ∷ items)
        ≡ item ∷ within_budget F exp terms_of (n - item.token_cost) items
  unfolding within_budget
  fits n item items h = ground (arith, h)

  too_long :
      (n : ℕ) (item : RetrievedMemory Carrier) (items : List (RetrievedMemory Carrier))
      → leb item.token_cost n ≡ false
      → within_budget F exp terms_of n (item ∷ items) ≡ within_budget F exp terms_of n items
  unfolding within_budget
  too_long n item items h = ground (arith, h)

  within_budget-All {κ} :
      (P : RetrievedMemory Carrier → Type κ) (n : ℕ) (items : List (RetrievedMemory Carrier))
      → All P items
      → All P (within_budget F exp terms_of n items)
  unfolding within_budget
  within_budget-All P n [] h = tt
  within_budget-All P n (item ∷ items) h = elim (Bool-cases (leb item.token_cost n)) [
    | inl short ↦
        subst (All P) (sym (fits n item items short))
          (h.0, within_budget-All P (n - item.token_cost) items h.1)
    | inr long ↦ subst (All P) (sym (too_long n item items long)) (within_budget-All P n items h.1)
  ]

  within_budget_le :
      (n : ℕ) (items : List (RetrievedMemory Carrier))
      → total_cost (within_budget F exp terms_of n items) ≤ n
  unfolding within_budget
  within_budget_le n [] = omega arith
  within_budget_le n (item ∷ items) = elim (Bool-cases (leb item.token_cost n)) [
    | inl short ↦
        subst (λ l. total_cost l ≤ n) (sym (fits n item items short))
          (ground (arith, within_budget_le (n - item.token_cost) items))
    | inr long ↦
        subst (λ l. total_cost l ≤ n) (sym (too_long n item items long)) (within_budget_le n items)
  ]

  length_le_cost :
      (character_id : ℕ) (q : MemoryQuery Carrier) (items : List (RetrievedMemory Carrier))
      → All (IsRecalled character_id q) items
      → length items ≤ total_cost items
  length_le_cost character_id q [] h = omega arith
  length_le_cost character_id q (item ∷ items) h =
      omega (
        arith,
        h.0.cost,
        token_cost_pos item.memory.content,
        length_le_cost character_id q items h.1,
      )

  -- What is retrieved for a character: memories of that character that are not forgotten, each
  -- with its own event or claim as its source and with a cost of its length in tokens; together
  -- they cost no more than the budget, and so they are no more than the budget either.
  pub retrieve-IsRecalled :
      (run_id character_id : ℕ) (q : MemoryQuery Carrier) (t : List (MemoryModel Carrier))
      {items : List (RetrievedMemory Carrier)}
      → retrieve F exp terms_of run_id character_id q t ≡ ok items
      → All (IsRecalled character_id q) items
        × (total_cost items ≤ q.token_budget)
        × (length items ≤ q.token_budget)
  unfolding retrieve
  retrieve-IsRecalled run_id character_id q t h =
      let (ranked, done, same) =
        >>=-eq-ok (rank F exp terms_of q (list_for_character run_id character_id t)) _ h in
      let chosen =
        within_budget F exp terms_of q.token_budget (sort_by (ahead F exp terms_of) ranked) in
      let recalled : All (IsRecalled character_id q) chosen =
        within_budget-All (IsRecalled character_id q) q.token_budget _ (
          sort_by-All (ahead F exp terms_of) (IsRecalled character_id q) ranked
            (rank-IsRecalled character_id q _ (list-own run_id character_id t) done)) in
      let cheap = within_budget_le q.token_budget (sort_by (ahead F exp terms_of) ranked) in
      ground (arith, same, recalled, cheap, length_le_cost character_id q chosen recalled)
