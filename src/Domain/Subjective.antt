-- ===== src/Domain/Subjective.antt =====
-- Character knowledge (src/rumor_mill/engine/domain/subjective.py). `Confidence` is a number from
-- 0 to 1 of the floating-point parameter.
use rumor_mill_ai.Prelude.{
  ℕ, ◌+◌, String, Bool, true, false, not, ◌&&◌, ◌||◌, Option, none, some, List, [], ◌∷◌, ◌++◌, ◌==◌,
  if◌then◌else◌, Result, ok, raise_if, ◌>>◌, value_error, unique, subset,
}
use rumor_mill_ai.Floats.{Floats, is_unit}
use rumor_mill_ai.Domain.Base.{
  Datetime, Provenance, Lifecycle, Visibility, require_aware, check_text, before,
}

pub data EvidenceStance : Type 0 where
  supports refutes ambiguous : EvidenceStance

pub data BeliefRule : Type 0 where
  direct_observation testimony denial correction : BeliefRule

pub data BeliefState : Type 0 where
  settled unresolved_contradiction : BeliefState

pub record BeliefUpdate (C : Type 0) : Type 0 where
  pub rule : BeliefRule
  pub evidence_id : ℕ
  pub previous_confidence : C
  pub new_confidence : C
  pub effective_strength : C
  pub occurred_at : Datetime
  pub explanation : String

pub record Evidence (C : Type 0) : Type 0 where
  pub id : ℕ
  pub claim_id : ℕ
  pub stance : EvidenceStance
  pub strength : C
  pub source_event_id : Option ℕ
  pub source_memory_id : Option ℕ
  pub source_character_id : Option ℕ
  pub provenance : Provenance
  pub visibility : Visibility
  pub lifecycle : Lifecycle

pub record Belief (C : Type 0) : Type 0 where
  pub id : ℕ
  pub character_id : ℕ
  pub claim_id : ℕ
  pub confidence : C
  pub evidence_ids : List ℕ
  pub supporting_evidence_ids : List ℕ
  pub conflicting_evidence_ids : List ℕ
  pub state : BeliefState
  pub update_history : List (BeliefUpdate C)
  pub formed_at : Datetime
  pub updated_at : Datetime
  pub provenance : Provenance
  pub visibility : Visibility
  pub lifecycle : Lifecycle

abbrev pub is_empty {ℓ} : {A : Type ℓ} → List A → Bool
is_empty [] = true
is_empty (x ∷ xs) = false

abbrev pub is_contradiction : BeliefState → Bool
is_contradiction unresolved_contradiction = true
is_contradiction settled = false

abbrev pub present {ℓ} : {A : Type ℓ} → Option A → ℕ
present none = 0
present (some a) = 1

module _ (F : Floats) where
  open F use {Carrier}

  unfoldable pub check_confidence : Carrier → Result (Unit {0})
  check_confidence x = raise_if (not (is_unit F x)) (value_error "confidence out of range")

  -- `BeliefUpdate(...)`
  unfoldable pub make_update : BeliefUpdate Carrier → Result (BeliefUpdate Carrier)
  unfolding check_confidence check_text require_aware
  make_update u = do
    check_confidence u.previous_confidence
    check_confidence u.new_confidence
    check_confidence u.effective_strength
    check_text u.explanation 1 1000
    require_aware u.occurred_at
    ok u

  -- `Evidence(...)`
  unfoldable pub make_evidence : Evidence Carrier → Result (Evidence Carrier)
  unfolding check_confidence
  make_evidence e = do
    check_confidence e.strength
    raise_if (not (present e.source_event_id + present e.source_memory_id == 1))
        (value_error "evidence requires exactly one event or memory source")
    ok e

  -- Evidence that is given without a classification supports the claim.
  abbrev classify : Belief Carrier → Belief Carrier
  classify b =
      if not (is_empty b.evidence_ids)
        && not
            (not (is_empty b.supporting_evidence_ids) || not (is_empty b.conflicting_evidence_ids))
      then record b { supporting_evidence_ids = b.evidence_ids }
      else b

  -- `set(classified) != set(evidence_ids)`
  abbrev same_set : List ℕ → List ℕ → Bool
  same_set xs ys = subset xs ys && subset ys xs

  check_classified : Belief Carrier → Result (Belief Carrier)
  check_classified b = do
    let classified = b.supporting_evidence_ids ++ b.conflicting_evidence_ids
    raise_if (not (unique classified))
        (value_error "supporting and conflicting evidence must be unique")
    raise_if (not (same_set classified b.evidence_ids))
        (value_error "all evidence must be classified as supporting or conflicting")
    raise_if
        (is_contradiction b.state
          && not (
              not (is_empty b.supporting_evidence_ids)
              && not (is_empty b.conflicting_evidence_ids)))
        (value_error "unresolved contradiction requires evidence on both sides")
    ok b

  -- `Belief(...)`
  unfoldable pub make_belief : Belief Carrier → Result (Belief Carrier)
  unfolding check_confidence require_aware check_classified
  make_belief b = do
    check_confidence b.confidence
    require_aware b.formed_at
    require_aware b.updated_at
    raise_if (before b.updated_at b.formed_at) (value_error "updated_at cannot be before formed_at")
    raise_if (not (unique b.evidence_ids)) (value_error "evidence_ids must be unique")
    check_classified (classify b)
