-- ===== src/Beliefs/Versions.antt =====
-- The belief repository as a map from keys to current beliefs: a new version becomes current.
use rumor_mill_ai.Prelude.{
  ℕ, ◌+◌, ◌<◌, ◌≡◌, refl, ap, sym, subst, Bool, true, false, ◌&&◌, some, List, [], ◌∷◌, ◌++◌, ◌==◌,
  if◌then◌else◌, select, select-append, All, All-append, All-weaken, arith, Bool-cases, inl, inr,
  ◌⊎◌, append-nil,
}
use rumor_mill_ai.Prelude.Order.{sort_by, sort_by-least, sort_by-All, sort_by-eq-nil}
use rumor_mill_ai.Domain.Subjective.{Belief}
use rumor_mill_ai.Beliefs.Store.{
  BeliefModel, Store, of_key, newer, head_row, latest, belief_of, get_current, next_version,
  add_version,
}

module _ {C : Type 0} where
  snoc-ne-nil : (xs : List (BeliefModel C)) (x : BeliefModel C) → xs ++ x ∷ [] ≡ [] → ⊥
  snoc-ne-nil [] x h = cc
  snoc-ne-nil (y ∷ xs) x h = cc

  All-last :
      (P : BeliefModel C → Type 0) (xs : List (BeliefModel C)) (x : BeliefModel C)
      → All P (xs ++ x ∷ [])
      → P x
  All-last P [] x h = h.0
  All-last P (y ∷ xs) x h = All-last P xs x h.1

  newer-total : (a b : BeliefModel C) → newer a b ≡ false → newer b a ≡ true
  newer-total a b h = ground arith

  newer_trans : (a b c : BeliefModel C) → newer a b ≡ true → newer b c ≡ true → newer a c ≡ true
  newer_trans a b c h k = ground arith

  -- The first row of the selection has the greatest version, below the next one.
  below_next :
      (rows : List (BeliefModel C))
      → All (λ x. x.version < next_version (head_row (sort_by newer rows))) rows
  below_next rows = ordered (sort_by newer rows) refl
    where
      ordered :
          (l : List (BeliefModel C))
          → sort_by newer rows ≡ l
          → All (λ x. x.version < next_version (head_row l)) rows
      ordered [] e =
          subst (All (λ x. x.version < 1))
            (sym (sort_by-eq-nil newer newer-total newer_trans rows e)) tt
      ordered (m ∷ ms) e =
          All-weaken (λ x. newer m x ≡ true) (λ x. x.version < m.version + 1) (λ x h. ground arith)
            rows (sort_by-least newer newer-total newer_trans rows e)

  -- A row with a greater version than all others comes first.
  newest_first :
      (rows : List (BeliefModel C)) (new : BeliefModel C)
      → All (λ x. x.version < new.version) rows
      → head_row (sort_by newer (rows ++ new ∷ [])) ≡ some new
  newest_first rows new below = ordered (sort_by newer (rows ++ new ∷ [])) refl
    where
      all_rows : List (BeliefModel C)
      all_rows = rows ++ new ∷ []

      old_or_new : All (λ x. (x.version < new.version) ⊎ (x ≡ new)) all_rows
      old_or_new =
          All-append (λ x. (x.version < new.version) ⊎ (x ≡ new)) rows (new ∷ [])
            (All-weaken (λ x. x.version < new.version) (λ x. (x.version < new.version) ⊎ (x ≡ new))
              (λ x h. inl h) rows below)
            (inr refl, tt)

      ordered : (l : List (BeliefModel C)) → sort_by newer all_rows ≡ l → head_row l ≡ some new
      ordered [] e =
          absurd (snoc-ne-nil rows new (sort_by-eq-nil newer newer-total newer_trans all_rows e))
      ordered (m ∷ ms) e =
          let first =
            subst (All (λ x. (x.version < new.version) ⊎ (x ≡ new))) e (
              sort_by-All newer (λ x. (x.version < new.version) ⊎ (x ≡ new)) all_rows old_or_new) in
          let least = sort_by-least newer newer-total newer_trans all_rows e in
          let last : newer m new ≡ true = All-last (λ x. newer m x ≡ true) rows new least in
          elim (first.0) [ inl older ↦ absurd (ground arith) | inr same ↦ ap some same ]

  -- The version that `add_version` appends is the current belief of its run, character and
  -- claim, and no other current belief changes.
  pub get_current-add_version :
      (run_id character_id claim_id run : ℕ) (b : Belief C) (s : Store C)
      → get_current run_id character_id claim_id (add_version run b s) ≡ (
          if run == run_id && (b.character_id == character_id && b.claim_id == claim_id)
          then some b
          else get_current run_id character_id claim_id s)
  unfolding get_current add_version
  get_current-add_version run_id character_id claim_id run b s =
      elim (Bool-cases
        (run == run_id && (b.character_id == character_id && b.claim_id == claim_id))) [
          | inl own ↦
              let same : (run ≡ run_id)
                  × (b.character_id ≡ character_id)
                  × (b.claim_id ≡ claim_id) =
                ground arith in
              rw (own, select-append key s.beliefs (new ∷ []), own)
                (ap belief_of (
                  newest_first rows new (
                    subst
                      (λ l. All (λ x. x.version < next_version (head_row (sort_by newer l))) rows)
                      (keys_same same) (below_next rows))))
          | inr alien ↦ rw (
            alien,
            select-append key s.beliefs (new ∷ []),
            alien,
            append-nil (select key s.beliefs),
          )
        ]
    where
      key : BeliefModel C → Bool
      key = of_key run_id character_id claim_id

      rows : List (BeliefModel C)
      rows = select key s.beliefs

      new : BeliefModel C
      new = record {
        run_id = run;
        version = next_version (latest run b.character_id b.claim_id s);
        belief = b;
      }

      keys_same :
          (run ≡ run_id) × (b.character_id ≡ character_id) × (b.claim_id ≡ claim_id)
          → rows ≡ select (of_key run b.character_id b.claim_id) s.beliefs
      keys_same e = rw (e.0, e.1, e.2)
