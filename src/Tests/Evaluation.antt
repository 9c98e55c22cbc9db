-- ===== src/Tests/Evaluation.antt =====
-- A case with a secret, a provider that keeps it, and the theorems on evaluating it.
use Prim.Native.Char.{code}
use rumor_mill_ai.Prelude.{
  ◌≡◌, refl, true, false, none, some, [], ◌∷◌, ◌==◌, Exc, ok, raise, ◌≤◌, arith,
}
use rumor_mill_ai.Prelude.Int.{ℤ, pos}
use rumor_mill_ai.Floats.Micro.{micro}
use rumor_mill_ai.Scenes.Build.{Generation}
use rumor_mill_ai.Evaluation.Cases.{
  EvalCase, EvalCategory, EvaluationMode, EvalThresholds, EvalReport, Dataset, make_dataset,
}
use rumor_mill_ai.Evaluation.Rules.{TextTools, evaluate_rules}
use rumor_mill_ai.Evaluation.Runner.{EvaluationRunner, Tokens, CaseDumps, total, run}
use rumor_mill_ai.Evaluation.Contained.{Pairwise, IsClean, run-IsClean}
use rumor_mill_ai.Evaluation.Budget.{run-within_budget}

abbrev tools : TextTools
tools = record {
  casefold = λ s. s;
  is_space = λ c. code c == 32;
  cited_sources = λ s. [];
  print_texts = λ ss. "";
  print_ℕ = λ n. "1";
}

abbrev dumps : CaseDumps
dumps = record { dump_case = λ c. "{}"; dump_graded = λ c s. "{}" }

abbrev lamp_case : EvalCase
lamp_case = record {
  id = "lamp";
  category = EvalCategory.secret_containment;
  prompt = "Who broke the lamp?";
  candidate = "ben did";
  character_voice_markers = [];
  grounded_claims = [];
  forbidden_secrets = "ben" ∷ [];
  canon_facts = [];
  forbidden_canon_claims = [];
  required_source_ids = [];
  prior_plot_state = [];
  required_plot_developments = [];
}

abbrev dataset : Dataset
dataset = record { version = 1; cases = lamp_case ∷ [] }

dataset-accepted : make_dataset (λ s. true) dataset ≡ ok dataset
unfolding make_dataset
dataset-accepted = refl

abbrev usage : Generation
usage = record {
  provider = "mock";
  model = "m";
  request_id = "r";
  input_tokens = 3;
  output_tokens = 2;
  total_tokens = 5;
}

abbrev runner : EvaluationRunner
runner = record {
  provider = some (record {
    generate_candidate = λ request.
        ok (record { data_ = some (record { candidate = "nobody" }); generation = usage });
    generate_grade = λ request. raise (Exc.other "unused");
  });
  max_total_tokens = 8;
  grade_with_model = false;
}

abbrev thresholds : EvalThresholds ℤ
thresholds = record {
  minimum_deterministic_score = pos 1000000;
  minimum_model_grade = pos 3000000;
  fail_on_critical = true;
}

abbrev nothing_spent : Tokens
nothing_spent = record { input_tokens = 0; output_tokens = 0 }

abbrev kept_report : EvalReport ℤ
kept_report = record {
  dataset_version = 1;
  mode = EvaluationMode.live;
  results =
      record {
        case_id = "lamp";
        category = EvalCategory.secret_containment;
        candidate = "nobody";
        findings = evaluate_rules tools lamp_case "nobody";
        grade = none;
      }
      ∷ [];
  thresholds = thresholds;
  input_tokens = 3;
  output_tokens = 2;
  passed = true;
}

live-run :
    run micro tools dumps runner dataset EvaluationMode.live none thresholds nothing_spent
    ≡ (ok kept_report, record { input_tokens = 3; output_tokens = 2 })
unfolding run
live-run = refl

run-IsClean_example :
    Pairwise (IsClean tools micro dumps runner) (lamp_case ∷ []) kept_report.results
run-IsClean_example =
    run-IsClean tools micro dumps runner dataset EvaluationMode.live none thresholds nothing_spent
      live-run refl refl

-- A second run on the same runner goes over the budget.
spent-run :
    (run micro tools dumps runner dataset EvaluationMode.live none thresholds
      (record { input_tokens = 3; output_tokens = 2 })).0
    ≡ raise (Exc.other "TokenBudgetExceededError")
unfolding run
spent-run = refl

abbrev after_run : Tokens
after_run =
    (run micro tools dumps runner dataset EvaluationMode.live none thresholds nothing_spent).1

run-within_budget_example : (total nothing_spent ≤ total after_run) × (total after_run ≤ 8)
run-within_budget_example =
    run-within_budget micro tools dumps runner dataset EvaluationMode.live none thresholds
      nothing_spent (omega arith) (omega arith)
