-- ===== src/Evaluation/Cases.antt =====
-- The contracts of an evaluation (src/rumor_mill/evals/models.py, and Dataset in
-- src/rumor_mill/evals/runner.py). The pattern of case identifiers is the parameter `is_id`.
use rumor_mill_ai.Prelude.{
  ℕ, ◌+◌, String, Bool, true, not, ◌&&◌, ◌||◌, Option, none, some, List, any, all, length,
  count_where, ltb, if◌then◌else◌, Result, ok, raise_if, ◌>>◌, value_error,
}
use rumor_mill_ai.Floats.{Floats, is_unit}
use rumor_mill_ai.Domain.Base.{check_text}
use rumor_mill_ai.Scenes.Plan.{check_each, check_some}

pub data EvalCategory : Type 0 where
  voice_fidelity belief_grounding secret_containment canon_consistency : EvalCategory
  rumor_traceability plot_progression : EvalCategory

pub data EvaluationMode : Type 0 where
  fixture recorded live : EvaluationMode

pub record EvalCase : Type 0 where
  pub id : String
  pub category : EvalCategory
  pub prompt : String
  pub candidate : String
  pub character_voice_markers : List String
  pub grounded_claims : List String
  pub forbidden_secrets : List String
  pub canon_facts : List String
  pub forbidden_canon_claims : List String
  pub required_source_ids : List String
  pub prior_plot_state : List String
  pub required_plot_developments : List String

pub record RuleFinding : Type 0 where
  pub rule : String
  pub passed : Bool
  pub critical : Bool
  pub detail : String

pub record RubricGrade : Type 0 where
  pub voice_fidelity : ℕ
  pub coherence : ℕ
  pub engagement : ℕ
  pub rationale : String

pub record CaseResult : Type 0 where
  pub case_id : String
  pub category : EvalCategory
  pub candidate : String
  pub findings : List RuleFinding
  pub grade : Option RubricGrade

pub record EvalThresholds (C : Type 0) : Type 0 where
  pub minimum_deterministic_score : C
  pub minimum_model_grade : C
  pub fail_on_critical : Bool

pub record EvalReport (C : Type 0) : Type 0 where
  pub dataset_version : ℕ
  pub mode : EvaluationMode
  pub results : List CaseResult
  pub thresholds : EvalThresholds C
  pub input_tokens : ℕ
  pub output_tokens : ℕ
  pub passed : Bool

pub record Dataset : Type 0 where
  pub version : ℕ
  pub cases : List EvalCase

-- `NonEmptyText`
unfoldable pub check_long : String → Result (Unit {0})
unfolding check_text
check_long s = check_text s 1 20000

-- `EvalCase(...)`
unfoldable pub check_case : (is_id : String → Bool) → EvalCase → Result (Unit {0})
unfolding check_long
check_case is_id c = do
  raise_if (not (is_id c.id)) (value_error "id does not match the pattern")
  check_long c.prompt
  check_long c.candidate
  check_each check_long c.character_voice_markers
  check_each check_long c.grounded_claims
  check_each check_long c.forbidden_secrets
  check_each check_long c.canon_facts
  check_each check_long c.forbidden_canon_claims
  check_each check_long c.required_source_ids
  check_each check_long c.prior_plot_state
  check_each check_long c.required_plot_developments

-- `Dataset(...)`
unfoldable pub make_dataset : (is_id : String → Bool) → Dataset → Result Dataset
unfolding check_case
make_dataset is_id d = do
  raise_if (ltb d.version 1) (value_error "version out of range")
  check_some d.cases
  check_each (check_case is_id) d.cases
  ok d

abbrev pub outside : (lo hi n : ℕ) → Bool
outside lo hi n = ltb n lo || ltb hi n

-- `RubricGrade(...)`
unfoldable pub make_grade : RubricGrade → Result RubricGrade
unfolding check_text
make_grade g = do
  raise_if (outside 1 5 g.voice_fidelity || outside 1 5 g.coherence || outside 1 5 g.engagement)
      (value_error "grade out of range")
  check_text g.rationale 1 1000
  ok g

-- `item.critical and not item.passed`
abbrev pub is_critical_failure : RuleFinding → Bool
is_critical_failure finding = finding.critical && not finding.passed

module _ (F : Floats) where
  open F use {Carrier, le, div, of_ℕ}

  unfoldable pub make_thresholds : EvalThresholds Carrier → Result (EvalThresholds Carrier)
  make_thresholds t = do
    raise_if (not (is_unit F t.minimum_deterministic_score)) (value_error "score out of range")
    raise_if (not (le (of_ℕ 1) t.minimum_model_grade) || not (le t.minimum_model_grade (of_ℕ 5)))
        (value_error "grade out of range")
    ok t

  unfoldable pub average : RubricGrade → Carrier
  average g = div (of_ℕ (g.voice_fidelity + g.coherence + g.engagement)) (of_ℕ 3)

  unfoldable pub deterministic_score : CaseResult → Carrier
  deterministic_score r =
      div (of_ℕ (count_where (λ finding. finding.passed) r.findings)) (of_ℕ (length r.findings))

  abbrev pub is_graded : Carrier → Option RubricGrade → Bool
  is_graded minimum none = true
  is_graded minimum (some grade) = le minimum (average grade)

  -- The condition on one result, of the runner and of `validate_passed`.
  unfoldable pub result_passed : EvalThresholds Carrier → CaseResult → Bool
  unfolding average deterministic_score
  result_passed t r =
      le t.minimum_deterministic_score (deterministic_score r)
      && (is_graded t.minimum_model_grade r.grade
          && not (t.fail_on_critical && any is_critical_failure r.findings))

  abbrev pub same : Bool → Bool → Bool
  same a b = if a then b else not b

  -- `EvalReport(...)`
  unfoldable pub make_report : EvalReport Carrier → Result (EvalReport Carrier)
  unfolding result_passed
  make_report r = do
    raise_if (ltb r.dataset_version 1) (value_error "dataset_version out of range")
    check_some r.results
    raise_if (not (same r.passed (all (result_passed r.thresholds) r.results)))
        (value_error "passed does not match results and thresholds")
    ok r
