-- ===== src/Tests/Memories.antt =====
-- A memory of a witnessed event, and the theorem on its formation.
use rumor_mill_ai.Memories.Retrieval.{MemoryQuery, RetrievedMemory, retrieved, retrieve}
use rumor_mill_ai.Memories.Budget.{IsRecalled, total_cost, retrieve-IsRecalled}
use rumor_mill_ai.Prelude.{
  All, length, ◌≤◌, String, ◌≡◌, refl, true, none, some, List, [], ◌∷◌, str_eq, Result, ok,
}
use rumor_mill_ai.Prelude.Int.{ℤ, pos}
use rumor_mill_ai.Floats.Micro.{micro, mul, scale}
use rumor_mill_ai.Domain.Base.{Visibility, ProvenanceKind, started}
use rumor_mill_ai.Propagation.Rumors.{Characters}
use rumor_mill_ai.Memories.Records.{Memory, MemoryModel, find_by_source, add}
use rumor_mill_ai.Memories.Formation.{MemorySourceKind, MemoryFormation, form}
use rumor_mill_ai.Memories.Once.{form-again}

abbrev ascii : Characters
ascii = record {
  is_space = λ c. str_eq (String.◌∷◌ c String.[]) " ";
  lower = λ c. String.◌∷◌ c String.[];
}

abbrev wave : MemoryFormation ℤ
wave = record {
  character_id = 5;
  content = " a wave ";
  source_kind = MemorySourceKind.witnessed_event;
  source_id = 12;
  experienced_at = record { instant = 90; aware = true };
  confidence = pos 900000;
  salience = pos 500000;
  plot_importance = pos 0;
}

abbrev remembered : Memory ℤ
remembered = record {
  id = 31;
  character_id = 5;
  content = "a wave";
  source_event_id = some 12;
  source_claim_id = none;
  experienced_at = record { instant = 90; aware = true };
  remembered_at = record { instant = 90; aware = true };
  confidence = pos 900000;
  salience = pos 500000;
  plot_importance = pos 0;
  provenance = record {
    kind = ProvenanceKind.observed;
    source_id = some 12;
    recorded_at = record { instant = 90; aware = true };
    detail = some "witnessed_event";
  };
  visibility = Visibility.private;
  lifecycle = started (record { instant = 90; aware = true });
}

abbrev store : List (MemoryModel ℤ)
store = record { run_id = 7; memory = remembered } ∷ []

abbrev formed : Result (Memory ℤ × List (MemoryModel ℤ))
formed = ok (remembered, store)

wave-formed : form micro ascii 31 7 wave [] ≡ formed
unfolding form find_by_source add
wave-formed = refl

form-again_example : form micro ascii 77 7 wave store ≡ formed
form-again_example = form-again micro ascii 31 77 7 wave [] store remembered wave-formed

abbrev query : MemoryQuery ℤ
query = record {
  text = "a wave";
  now = record { instant = 90; aware = true };
  token_budget = 10;
  relationship = pos 500000;
  recency_half_life_days = pos 30000000;
  forget_below = pos 50000;
}

abbrev undecayed : ℤ → ℤ
undecayed x = pos 1000000

abbrev whole_text : String → List String
whole_text s = s ∷ []

abbrev recalled : RetrievedMemory ℤ
recalled = retrieved micro undecayed whole_text query remembered ("event", 12)

wave-retrieved : retrieve micro undecayed whole_text 7 5 query store ≡ ok (recalled ∷ [])
unfolding retrieve mul scale
wave-retrieved = refl

retrieve-IsRecalled_example :
    All (IsRecalled micro undecayed whole_text 5 query) (recalled ∷ [])
    × (total_cost (recalled ∷ []) ≤ 10)
    × (length (recalled ∷ []) ≤ 10)
retrieve-IsRecalled_example =
    retrieve-IsRecalled micro undecayed whole_text 7 5 query store wave-retrieved
