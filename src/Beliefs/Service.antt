-- ===== src/Beliefs/Service.antt =====
-- BeliefService (src/rumor_mill/engine/beliefs.py). The identifiers that `uuid4` draws are
-- arguments; how a UUID and a number are printed is a parameter.
use Prim.Native.String.{◌++◌ as str_append}
use rumor_mill_ai.Prelude.{
  ℕ, String, not, ◌&&◌, ◌||◌, Option, none, some, List, [], ◌∷◌, ◌++◌, if◌then◌else◌, Result, ok,
  raise, raise_if, ◌>>=◌, ◌>>◌, value_error, other,
}
use rumor_mill_ai.Floats.{Floats, is_unit, fmin}
use rumor_mill_ai.Domain.Base.{
  Datetime, Provenance, ProvenanceKind, Lifecycle, Visibility, require_aware, is_none,
  make_provenance, make_lifecycle, started,
}
use rumor_mill_ai.Domain.Subjective.{
  EvidenceStance, supports, refutes, ambiguous, BeliefState, settled, unresolved_contradiction,
  BeliefUpdate, Evidence, Belief, is_empty, is_contradiction, make_update, make_evidence,
  make_belief,
}
use rumor_mill_ai.Beliefs.Store.{
  EvidenceInput, Store, is_direct, is_denial, is_correction, is_spoken, is_supports, is_refutes,
  rule_value, stance_value, either_id, get_current, add_evidence, add_version,
}

-- `str(uuid)` and `f"{x:.3f}"`.
pub record Printing (C : Type 0) : Type 0 where
  pub uuid : ℕ → String
  pub fixed3 : C → String

module _ (F : Floats) where
  open F use {Carrier, add, sub, mul, of_ℕ, decimal, round6}

  abbrev check_unit : Carrier → String → Result (Unit {0})
  check_unit x message = raise_if (not (is_unit F x)) (value_error message)

  -- `EvidenceInput.__post_init__`
  unfoldable pub make_input : EvidenceInput Carrier → Result (EvidenceInput Carrier)
  unfolding require_aware
  make_input item = do
    require_aware item.occurred_at
    raise_if
        (is_none item.source_event_id && is_none item.source_memory_id
          || not (is_none item.source_event_id) && not (is_none item.source_memory_id))
        (value_error "evidence requires exactly one event or memory source")
    check_unit item.strength "strength must be between 0 and 1"
    check_unit item.source_reliability "source_reliability must be between 0 and 1"
    raise_if (is_direct item.rule && is_none item.source_event_id)
        (value_error "direct observation requires an event source")
    raise_if
        (is_spoken item.rule && (is_none item.source_memory_id || is_none item.source_character_id))
        (value_error "a spoken rule requires a memory and character source")
    raise_if (is_denial item.rule && not (is_refutes item.stance))
        (value_error "denial must refute the claim")
    ok item

  unfoldable pub effective_strength : EvidenceInput Carrier → Carrier
  effective_strength item =
      let reliability = if is_direct item.rule then of_ℕ 1 else item.source_reliability in
      let corrected =
        if is_correction item.rule
        then fmin F (of_ℕ 1) (add reliability (decimal 15 2))
        else reliability in
      round6 (mul item.strength corrected)

  unfoldable pub updated_confidence : Carrier → EvidenceStance → Carrier → Carrier
  updated_confidence prior ambiguous strength = prior
  updated_confidence prior supports strength =
      round6 (add prior (mul (sub (of_ℕ 1) prior) strength))
  updated_confidence prior refutes strength = round6 (add prior (mul (sub (of_ℕ 0) prior) strength))

  -- `_make_evidence`, with the identifier drawn for it.
  evidence_from :
      (evidence_id claim_id source : ℕ) → EvidenceInput Carrier → Result (Evidence Carrier)
  evidence_from evidence_id claim_id source item = do
    provenance ← make_provenance (record {
      kind = if is_direct item.rule then ProvenanceKind.observed else ProvenanceKind.reported;
      source_id = some source;
      recorded_at = item.occurred_at;
      detail = some (rule_value item.rule);
    })
    lifecycle ← make_lifecycle (started item.occurred_at)
    make_evidence F (record {
      id = evidence_id;
      claim_id = claim_id;
      stance = item.stance;
      strength = item.strength;
      source_event_id = item.source_event_id;
      source_memory_id = item.source_memory_id;
      source_character_id = item.source_character_id;
      provenance = provenance;
      visibility = Visibility.private;
      lifecycle = lifecycle;
    })

  -- `assert source_id is not None`
  with_source : Option ℕ → (ℕ → Result (Evidence Carrier)) → Result (Evidence Carrier)
  with_source none k = raise (other "AssertionError")
  with_source (some source) k = k source

  unfoldable pub evidence_of :
      (evidence_id claim_id : ℕ) → EvidenceInput Carrier → Result (Evidence Carrier)
  unfolding evidence_from with_source make_provenance make_lifecycle make_evidence started
  evidence_of evidence_id claim_id item =
      with_source (either_id item.source_event_id item.source_memory_id)
        (λ source. evidence_from evidence_id claim_id source item)

  abbrev source_text : Printing Carrier → Option ℕ → String
  source_text print none = "None"
  source_text print (some source) = print.uuid source

  infixr 65 ◌<>◌
  abbrev ◌<>◌ : String → String → String
  a <> b = str_append a b

  -- `_explain`
  unfoldable pub explain :
      Printing Carrier → EvidenceInput Carrier → (prior confidence : Carrier) → BeliefState → String
  explain print item prior confidence state =
      rule_value item.rule
      <> " from "
      <> source_text print (either_id item.source_event_id item.source_memory_id)
      <> " "
      <> stance_value item.stance
      <> " the claim; confidence changed from "
      <> print.fixed3 prior
      <> " to "
      <> print.fixed3 confidence
      <> "."
      <> (if is_contradiction state
          then " Supporting and conflicting evidence remain unresolved."
          else "")

  -- What `consider` reads of the current belief, if there is one.
  abbrev pub prior_of : Option (Belief Carrier) → Carrier
  prior_of none = decimal 5 1
  prior_of (some b) = b.confidence

  abbrev pub supporting_of : Option (Belief Carrier) → List ℕ
  supporting_of none = []
  supporting_of (some b) = b.supporting_evidence_ids

  abbrev pub conflicting_of : Option (Belief Carrier) → List ℕ
  conflicting_of none = []
  conflicting_of (some b) = b.conflicting_evidence_ids

  abbrev pub history_of : Option (Belief Carrier) → List (BeliefUpdate Carrier)
  history_of none = []
  history_of (some b) = b.update_history

  abbrev pub formed_of : Option (Belief Carrier) → Datetime → Datetime
  formed_of none t = t
  formed_of (some b) t = b.formed_at

  abbrev pub state_from : List ℕ → List ℕ → BeliefState
  state_from supporting conflicting =
      if not (is_empty supporting) && not (is_empty conflicting)
      then unresolved_contradiction
      else settled

  -- The update record of one consideration.
  unfoldable pub update_of :
      Printing Carrier
      → Option (Belief Carrier)
      → ℕ
      → EvidenceInput Carrier
      → BeliefState
      → BeliefUpdate Carrier
  unfolding explain
  update_of print current evidence_id item state =
      let effective = effective_strength item in
      let confidence = updated_confidence (prior_of current) item.stance effective in
      record {
        rule = item.rule;
        evidence_id = evidence_id;
        previous_confidence = prior_of current;
        new_confidence = confidence;
        effective_strength = effective;
        occurred_at = item.occurred_at;
        explanation = explain print item (prior_of current) confidence state;
      }

  abbrev pub supporting_with : Option (Belief Carrier) → ℕ → EvidenceStance → List ℕ
  supporting_with current evidence_id stance =
      if is_supports stance
      then supporting_of current ++ evidence_id ∷ []
      else supporting_of current

  abbrev pub conflicting_with : Option (Belief Carrier) → ℕ → EvidenceStance → List ℕ
  conflicting_with current evidence_id stance =
      if is_supports stance
      then conflicting_of current
      else conflicting_of current ++ evidence_id ∷ []

  abbrev pub state_with : Option (Belief Carrier) → ℕ → EvidenceStance → BeliefState
  state_with current evidence_id stance =
      state_from (supporting_with current evidence_id stance)
        (conflicting_with current evidence_id stance)

  -- The arguments of `Belief(...)` in `consider`.
  abbrev pub draft :
      (belief_id character_id claim_id evidence_id : ℕ)
      → Option (Belief Carrier)
      → EvidenceInput Carrier
      → BeliefUpdate Carrier
      → Provenance
      → Lifecycle
      → Belief Carrier
  draft belief_id character_id claim_id evidence_id current item update provenance lifecycle =
      record {
        id = belief_id;
        character_id = character_id;
        claim_id = claim_id;
        confidence = update.new_confidence;
        evidence_ids =
            supporting_with current evidence_id item.stance
            ++ conflicting_with current evidence_id item.stance;
        supporting_evidence_ids = supporting_with current evidence_id item.stance;
        conflicting_evidence_ids = conflicting_with current evidence_id item.stance;
        state = state_with current evidence_id item.stance;
        update_history = history_of current ++ update ∷ [];
        formed_at = formed_of current item.occurred_at;
        updated_at = item.occurred_at;
        provenance = provenance;
        visibility = Visibility.private;
        lifecycle = lifecycle;
      }

  abbrev pub derived_from : ℕ → EvidenceInput Carrier → Provenance
  derived_from evidence_id item = record {
    kind = ProvenanceKind.derived;
    source_id = some evidence_id;
    recorded_at = item.occurred_at;
    detail = some (rule_value item.rule);
  }

  -- The belief that follows from `current` and the evidence.
  unfoldable pub revised :
      Printing Carrier
      → (belief_id character_id claim_id evidence_id : ℕ) → Option (Belief Carrier)
      → EvidenceInput Carrier
      → Result (Belief Carrier)
  unfolding update_of make_update make_provenance make_lifecycle started
  revised print belief_id character_id claim_id evidence_id current item = do
    let state = state_with current evidence_id item.stance
    update ← make_update F (update_of print current evidence_id item state)
    provenance ← make_provenance (derived_from evidence_id item)
    lifecycle ← make_lifecycle (started item.occurred_at)
    make_belief F
        (draft belief_id character_id claim_id evidence_id current item update provenance lifecycle)

  -- `consider`: a transaction on the store, which a raise leaves as it was.
  unfoldable pub consider :
      Printing Carrier
      → (evidence_id belief_id run_id character_id claim_id : ℕ) → EvidenceInput Carrier
      → Store Carrier
      → Result (Belief Carrier × Store Carrier)
  unfolding evidence_of revised
  consider print evidence_id belief_id run_id character_id claim_id item s = do
    evidence ← evidence_of evidence_id claim_id item
    belief ←
        revised print belief_id character_id claim_id evidence_id
          (get_current run_id character_id claim_id s) item
    ok (belief, add_version run_id belief (add_evidence run_id evidence s))
