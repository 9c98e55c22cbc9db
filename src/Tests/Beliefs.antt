-- ===== src/Tests/Beliefs.antt =====
-- A witness's testimony, and the theorems on what it makes of a belief.
use rumor_mill_ai.Prelude.{
  ℕ, ◌≡◌, refl, true, none, some, [], ◌∷◌, ◌&&◌, ◌==◌, if◌then◌else◌, Result, ok,
}
use rumor_mill_ai.Prelude.Int.{ℤ, pos, ◌+ℤ◌, ◌-ℤ◌}
use rumor_mill_ai.Floats.Micro.{micro, micro-Laws, le, mul, scale}
use rumor_mill_ai.Domain.Base.{Provenance, ProvenanceKind, Visibility, started}
use rumor_mill_ai.Domain.Subjective.{
  EvidenceStance, BeliefRule, Belief, BeliefState, BeliefUpdate, Evidence, make_belief,
}
use rumor_mill_ai.Beliefs.Store.{EvidenceInput, Store, get_current, add_version, add_evidence}
use rumor_mill_ai.Beliefs.Service.{Printing, effective_strength, updated_confidence, consider}
use rumor_mill_ai.Beliefs.Confidence.{updated_confidence_direction}
use rumor_mill_ai.Beliefs.Versions.{get_current-add_version}
use rumor_mill_ai.Beliefs.History.{Explains, IsRevision, consider-Explains}

abbrev testimony_item : EvidenceInput ℤ
testimony_item = record {
  rule = BeliefRule.testimony;
  stance = EvidenceStance.supports;
  strength = pos 800000;
  occurred_at = record { instant = 90; aware = true };
  source_event_id = none;
  source_memory_id = some 4;
  source_character_id = some 5;
  source_reliability = pos 500000;
}

updated_confidence_direction_example :
    (le (pos 500000) (updated_confidence micro (pos 500000) EvidenceStance.supports (pos 400000))
      ≡ true)
    × (le (updated_confidence micro (pos 500000) EvidenceStance.refutes (pos 400000)) (pos 500000)
        ≡ true)
    × (updated_confidence micro (pos 500000) EvidenceStance.ambiguous (pos 400000) ≡ pos 500000)
updated_confidence_direction_example =
    updated_confidence_direction micro micro-Laws (pos 500000) (pos 400000) refl refl refl

abbrev no_beliefs : Store ℤ
no_beliefs = record { evidence = []; beliefs = [] }

abbrev printing : Printing ℤ
printing = record { uuid = λ i. "memory"; fixed3 = λ x. "x" }

-- The belief that comes of it.
abbrev testimony_update : BeliefUpdate ℤ
testimony_update = record {
  rule = BeliefRule.testimony;
  evidence_id = 21;
  previous_confidence = pos 500000;
  new_confidence = pos 700000;
  effective_strength = pos 400000;
  occurred_at = record { instant = 90; aware = true };
  explanation = "testimony from memory supports the claim; confidence changed from x to x.";
}

abbrev testimony_provenance : ProvenanceKind → ℕ → Provenance
testimony_provenance kind source = record {
  kind = kind;
  source_id = some source;
  recorded_at = record { instant = 90; aware = true };
  detail = some "testimony";
}

abbrev testimony_belief : Belief ℤ
testimony_belief = record {
  id = 22;
  character_id = 5;
  claim_id = 8;
  confidence = pos 700000;
  evidence_ids = 21 ∷ [];
  supporting_evidence_ids = 21 ∷ [];
  conflicting_evidence_ids = [];
  state = BeliefState.settled;
  update_history = testimony_update ∷ [];
  formed_at = record { instant = 90; aware = true };
  updated_at = record { instant = 90; aware = true };
  provenance = testimony_provenance ProvenanceKind.derived 21;
  visibility = Visibility.private;
  lifecycle = started (record { instant = 90; aware = true });
}

abbrev testimony_evidence : Evidence ℤ
testimony_evidence = record {
  id = 21;
  claim_id = 8;
  stance = EvidenceStance.supports;
  strength = pos 800000;
  source_event_id = none;
  source_memory_id = some 4;
  source_character_id = some 5;
  provenance = testimony_provenance ProvenanceKind.reported 4;
  visibility = Visibility.private;
  lifecycle = started (record { instant = 90; aware = true });
}

abbrev believing : Store ℤ
believing = record {
  evidence = (7, testimony_evidence) ∷ [];
  beliefs = record { run_id = 7; version = 1; belief = testimony_belief } ∷ [];
}

abbrev considered : Result (Belief ℤ × Store ℤ)
considered = ok (testimony_belief, believing)

testimony_considered : consider micro printing 21 22 7 5 8 testimony_item no_beliefs ≡ considered
unfolding consider get_current make_belief updated_confidence effective_strength mul add_version
    add_evidence ◌+ℤ◌ scale ◌-ℤ◌
testimony_considered = refl

get_current-add_version_example : get_current 7 5 8 (add_version 7 testimony_belief no_beliefs) ≡ (
    if 7 == 7 && (testimony_belief.character_id == 5 && testimony_belief.claim_id == 8)
    then some testimony_belief
    else get_current 7 5 8 no_beliefs)
get_current-add_version_example = get_current-add_version 7 5 8 7 testimony_belief no_beliefs

consider-Explains_example :
    Explains micro (pos 500000) (testimony_update ∷ []) (pos 700000)
    × IsRevision micro printing 5 8 none 21 testimony_item testimony_belief
    × (get_current 7 5 8 believing ≡ some testimony_belief)
unfolding get_current
consider-Explains_example =
    consider-Explains micro printing 21 22 7 5 8 testimony_item no_beliefs believing
      testimony_belief refl testimony_considered
