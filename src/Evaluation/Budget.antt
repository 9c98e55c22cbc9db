-- ===== src/Evaluation/Budget.antt =====
-- The token budget of an evaluation (Evaluation/Runner).
use rumor_mill_ai.Prelude.{
  ℕ, ◌≤◌, ◌<◌, String, Bool, true, false, Option, none, some, List, [], ◌∷◌, Result, ok, raise, Exc,
  if◌then◌else◌, arith,
}
use rumor_mill_ai.Floats.{Floats}
use rumor_mill_ai.Scenes.Generate.{GenerationResult}
use rumor_mill_ai.Evaluation.Cases.{
  EvalCase, EvaluationMode, fixture, recorded, live, EvalThresholds, Dataset, RubricGrade,
}
use rumor_mill_ai.Evaluation.Rules.{TextTools}
use rumor_mill_ai.Evaluation.Runner.{
  EvaluationRunner, Tokens, CaseDumps, Run, Provider, then_run, of_result, total, record_usage,
  received, expected, with_provider, live_candidate, candidate_of, provider_grade, grade_of,
  case_result, evaluate_case, evaluate_cases, recorded_of, recorded_or_empty, check_mode, report,
  run, ◌>>=◌,
}

module _ (F : Floats) (tools : TextTools) (dumps : CaseDumps) (r : EvaluationRunner) where
  open F use {Carrier}

  -- The counters stay within a limit that is set, and never go back.
  record IsSpent (before after : Tokens) : Type 0 where
    limited :
        0 < r.max_total_tokens
        → total before ≤ r.max_total_tokens
        → total after ≤ r.max_total_tokens
    grown : total before ≤ total after

  record Spends {A : Type 0} (m : Run A) : Type 0 where
    spent : (s : Tokens) → IsSpent s (m s).1

  still : {A : Type 0} (result : Result A) → Spends (of_result result)
  still result = record { spent = λ s. record { limited = λ pos h. h; grown = omega arith } }

  then_run-IsSpent :
      {A B : Type 0} (s : Tokens) (p : Result A × Tokens) (f : A → Run B)
      → IsSpent s p.1
      → ((a : A) → Spends (f a))
      → IsSpent s (then_run p f).1
  then_run-IsSpent s (raise e, s₁) f h k = h
  then_run-IsSpent s (ok a, s₁) f h k = record {
    limited = λ pos within. ((k a).spent s₁).limited pos (h.limited pos within);
    grown = omega (arith, h.grown, ((k a).spent s₁).grown);
  }

  bind :
      {A B : Type 0} (m : Run A) (f : A → Run B)
      → Spends m
      → ((a : A) → Spends (f a))
      → Spends (m >>= f)
  bind m f h k = record { spent = λ s. then_run-IsSpent s (m s) f (h.spent s) k }

  either : {A : Type 0} (b : Bool) (m n : Run A) → Spends m → Spends n → Spends (if b then m else n)
  either true m n h k = h
  either false m n h k = k

  record_usage-Spends : (input output : ℕ) → Spends (record_usage F tools dumps r input output)
  unfolding record_usage
  record_usage-Spends input output = record {
    spent = λ s. record { limited = λ pos within. ground arith; grown = ground arith };
  }

  received-Spends :
      {A : Type 0} (result : Result (GenerationResult A)) → Spends (received F tools dumps r result)
  unfolding received
  received-Spends {A} (raise e) = still {A = A} (raise e)
  received-Spends (ok result) =
      bind _ _ (record_usage-Spends result.generation.input_tokens result.generation.output_tokens)
        (λ recorded_usage. still (expected result.data_))

  with_provider-Spends :
      {A : Type 0} (call : Provider → Run A) (provider : Option Provider)
      → ((p : Provider) → Spends (call p))
      → Spends (with_provider F tools dumps r call provider)
  with_provider-Spends {A} call none h = still {A = A} (raise (Exc.other "AssertionError"))
  with_provider-Spends call (some p) h = h p

  candidate_of-Spends :
      (c : EvalCase) (mode : EvaluationMode) (outputs : List (String × String))
      → Spends (candidate_of F tools dumps r c mode outputs)
  unfolding candidate_of
  candidate_of-Spends c fixture outputs = still (ok c.candidate)
  candidate_of-Spends c recorded outputs = still (recorded_of c.id outputs)
  candidate_of-Spends c live outputs =
      with_provider-Spends (live_candidate F tools dumps r c) r.provider
        (λ p. bind _ _ (received-Spends _) (λ output. still (ok output.candidate)))

  grade_of-Spends :
      (c : EvalCase) (candidate : String) → Spends (grade_of F tools dumps r c candidate)
  unfolding grade_of
  grade_of-Spends c candidate =
      either r.grade_with_model _ (of_result {A = Option RubricGrade} (ok none))
        (bind
          (with_provider F tools dumps r (provider_grade F tools dumps r c candidate) r.provider) _
          (with_provider-Spends (provider_grade F tools dumps r c candidate) r.provider
            (λ p. received-Spends _))
          (λ grade. still (ok (some grade))))
        (still {A = Option RubricGrade} (ok none))

  evaluate_case-Spends :
      (mode : EvaluationMode) (outputs : List (String × String)) (c : EvalCase)
      → Spends (evaluate_case F tools dumps r mode outputs c)
  unfolding evaluate_case
  evaluate_case-Spends mode outputs c = bind _ _ (candidate_of-Spends c mode outputs) (λ candidate.
      bind _ _ (grade_of-Spends c candidate)
        (λ grade. still (ok (case_result F tools dumps r c candidate grade))))

  evaluate_cases-Spends :
      (mode : EvaluationMode) (outputs : List (String × String)) (cases : List EvalCase)
      → Spends (evaluate_cases F tools dumps r mode outputs cases)
  unfolding evaluate_cases
  evaluate_cases-Spends mode outputs [] = still (ok [])
  evaluate_cases-Spends mode outputs (c ∷ cases) =
      bind _ _ (evaluate_case-Spends mode outputs c) (λ result.
        bind _ _ (evaluate_cases-Spends mode outputs cases)
          (λ results. still (ok (result ∷ results))))

  run-IsSpent :
      (d : Dataset) (mode : EvaluationMode) (outputs : Option (List (String × String)))
      (t : EvalThresholds Carrier) (s : Tokens)
      → IsSpent s (run F tools dumps r d mode outputs t s).1
  unfolding run
  run-IsSpent d mode outputs t s =
      (bind (of_result (check_mode F tools dumps r mode outputs)) _
          (still (check_mode F tools dumps r mode outputs))
          (λ checked.
            bind (evaluate_cases F tools dumps r mode (recorded_or_empty outputs) d.cases)
              (report F tools dumps r d mode t)
              (evaluate_cases-Spends mode (recorded_or_empty outputs) d.cases)
              (λ results. record {
                spent = λ s'. (still (report F tools dumps r d mode t results s').0).spent s';
              }))).spent
        s

  -- A runner with a limit whose counters are within it: an evaluation, whether it returns or raises,
  -- lets the counters neither go back nor past the limit.
  pub run-within_budget :
      (d : Dataset) (mode : EvaluationMode) (outputs : Option (List (String × String)))
      (t : EvalThresholds Carrier) (s : Tokens)
      → 0 < r.max_total_tokens
      → total s ≤ r.max_total_tokens
      → (total s ≤ total (run F tools dumps r d mode outputs t s).1)
        × (total (run F tools dumps r d mode outputs t s).1 ≤ r.max_total_tokens)
  run-within_budget d mode outputs t s pos within =
      let spent = run-IsSpent d mode outputs t s in (spent.grown, spent.limited pos within)
