-- ===== src/Beliefs/Store.antt =====
-- The evidence that a character considers (src/rumor_mill/engine/beliefs.py), and the belief
-- repository (SqlAlchemyBeliefRepository, src/rumor_mill/adapters/persistence/repositories.py).
use rumor_mill_ai.Prelude.{
  ℕ, ◌+◌, String, Bool, true, false, ◌&&◌, Option, none, some, List, [], ◌∷◌, ◌++◌, ◌==◌, leb,
  select, Result, ok, raise, ◌>>=◌, key_error, find_first,
}
use rumor_mill_ai.Prelude.Order.{sort_by}
use rumor_mill_ai.Domain.Base.{Datetime}
use rumor_mill_ai.Domain.Subjective.{
  EvidenceStance, supports, refutes, ambiguous, BeliefRule, direct_observation, testimony, denial,
  correction, Evidence, Belief,
}

pub record EvidenceInput (C : Type 0) : Type 0 where
  pub rule : BeliefRule
  pub stance : EvidenceStance
  pub strength : C
  pub occurred_at : Datetime
  pub source_event_id : Option ℕ
  pub source_memory_id : Option ℕ
  pub source_character_id : Option ℕ
  pub source_reliability : C

abbrev pub is_direct : BeliefRule → Bool
is_direct direct_observation = true
is_direct _ = false

abbrev pub is_denial : BeliefRule → Bool
is_denial denial = true
is_denial _ = false

abbrev pub is_correction : BeliefRule → Bool
is_correction correction = true
is_correction _ = false

abbrev pub is_spoken : BeliefRule → Bool
is_spoken direct_observation = false
is_spoken _ = true

abbrev pub is_supports : EvidenceStance → Bool
is_supports supports = true
is_supports _ = false

abbrev pub is_refutes : EvidenceStance → Bool
is_refutes refutes = true
is_refutes _ = false

abbrev pub rule_value : BeliefRule → String
rule_value direct_observation = "direct_observation"
rule_value testimony = "testimony"
rule_value denial = "denial"
rule_value correction = "correction"

abbrev pub stance_value : EvidenceStance → String
stance_value supports = "supports"
stance_value refutes = "refutes"
stance_value ambiguous = "ambiguous"

abbrev pub either_id : Option ℕ → Option ℕ → Option ℕ
either_id none b = b
either_id (some a) b = some a

-- A row of the `beliefs` table, and the two tables.
pub record BeliefModel (C : Type 0) : Type 0 where
  pub run_id : ℕ
  pub version : ℕ
  pub belief : Belief C

pub record Store (C : Type 0) : Type 0 where
  pub evidence : List (ℕ × Evidence C)
  pub beliefs : List (BeliefModel C)

module _ {C : Type 0} where
  abbrev pub of_key : (run_id character_id claim_id : ℕ) → BeliefModel C → Bool
  of_key run_id character_id claim_id m =
      m.run_id == run_id && (m.belief.character_id == character_id && m.belief.claim_id == claim_id)

  -- `ORDER BY version DESC LIMIT 1`
  abbrev pub newer : BeliefModel C → BeliefModel C → Bool
  newer a b = leb b.version a.version

  abbrev pub head_row : List (BeliefModel C) → Option (BeliefModel C)
  head_row [] = none
  head_row (m ∷ ms) = some m

  unfoldable pub latest : (run_id character_id claim_id : ℕ) → Store C → Option (BeliefModel C)
  unfolding sort_by
  latest run_id character_id claim_id s =
      head_row (sort_by newer (select (of_key run_id character_id claim_id) s.beliefs))

  abbrev pub belief_of : Option (BeliefModel C) → Option (Belief C)
  belief_of none = none
  belief_of (some m) = some m.belief

  unfoldable pub get_current : (run_id character_id claim_id : ℕ) → Store C → Option (Belief C)
  unfolding latest
  get_current run_id character_id claim_id s = belief_of (latest run_id character_id claim_id s)

  unfoldable pub add_evidence : ℕ → Evidence C → Store C → Store C
  add_evidence run_id e s = record s { evidence = s.evidence ++ (run_id, e) ∷ [] }

  abbrev pub next_version : Option (BeliefModel C) → ℕ
  next_version none = 1
  next_version (some m) = m.version + 1

  unfoldable pub add_version : ℕ → Belief C → Store C → Store C
  unfolding latest
  add_version run_id b s = record s {
    beliefs =
        s.beliefs
        ++ record {
          run_id = run_id;
          version = next_version (latest run_id b.character_id b.claim_id s);
          belief = b;
        }
          ∷ [];
  }

  abbrev of_run : (run_id evidence_id : ℕ) → ℕ × Evidence C → Bool
  of_run run_id evidence_id row = row.0 == run_id && row.1.id == evidence_id

  -- `by_id[evidence_id]`
  abbrev evidence_row : Option (ℕ × Evidence C) → Result (Evidence C)
  evidence_row none = raise key_error
  evidence_row (some row) = ok row.1

  abbrev cons_evidence : Evidence C → List (Evidence C) → Result (List (Evidence C))
  cons_evidence e es = ok (e ∷ es)

  abbrev evidence_rows : ℕ → Store C → List ℕ → Result (List (Evidence C))
  evidence_rows run_id s [] = ok []
  evidence_rows run_id s (i ∷ is) = evidence_row (find_first (of_run run_id i) s.evidence) >>= λ e.
      evidence_rows run_id s is >>= cons_evidence e

  list_evidence : ℕ → Belief C → Store C → Result (List (Evidence C))
  list_evidence run_id b s = evidence_rows run_id s b.evidence_ids
