-- ===== src/Evaluation/Contained.antt =====
-- What a report that passes says about the candidates (Evaluation/Runner).
use rumor_mill_ai.Prelude.{
  ◌≡◌, refl, ap, ◌∙◌, subst, String, Bool, true, false, Option, List, [], ◌∷◌, ◌++◌, any, all, All,
  any-select_nil, Result, ok, raise, arith,
}
use rumor_mill_ai.Prelude.Sets.{none_pass}
use rumor_mill_ai.Floats.{Floats}
use rumor_mill_ai.Domain.Subjective.{is_empty}
use rumor_mill_ai.Text.{occurs}
use rumor_mill_ai.Evaluation.Cases.{
  EvalCase, EvaluationMode, RuleFinding, CaseResult, EvalThresholds, EvalReport, Dataset,
  is_critical_failure, result_passed, make_report,
}
use rumor_mill_ai.Evaluation.Rules.{
  TextTools, applied, contains_phrase, or_nonempty, voice_rule, grounding_rule, secret_rule,
  later_rules, present, secret_finding, evaluate_rules,
}
use rumor_mill_ai.Evaluation.Runner.{
  EvaluationRunner, Tokens, CaseDumps, Run, then_run, of_result, candidate_of, grade_of,
  case_result, evaluate_case, evaluate_cases, recorded_or_empty, check_mode, drafted, run,
}

-- Two lists of one length, related place by place.
abbrev pub Pairwise : {A B : Type 0} → (A → B → Type 0) → List A → List B → Type 0
Pairwise R [] [] = Unit
Pairwise R (x ∷ xs) (y ∷ ys) = R x y × Pairwise R xs ys
Pairwise R _ _ = ⊥

then_run-eq-ok :
    {A B : Type 0} (p : Result A × Tokens) (f : A → Run B) {b : B} {s' : Tokens}
    → then_run p f ≡ (ok b, s')
    → (a : A) × (s₁ : Tokens) × (p ≡ (ok a, s₁)) × (f a s₁ ≡ (ok b, s'))
then_run-eq-ok (raise e, s) f h = absurd (cc h)
then_run-eq-ok (ok a, s) f h = (a, s, refl, h)

any-of_append :
    {A : Type 0} (p : A → Bool) (xs ys : List A)
    → any p (xs ++ ys) ≡ false
    → (any p xs ≡ false) × (any p ys ≡ false)
any-of_append p [] ys h = (refl, h)
any-of_append p (x ∷ xs) ys h = ground (arith, h, any-of_append p xs ys)

is_empty-nil : {A : Type 0} (xs : List A) → is_empty xs ≡ true → xs ≡ []
is_empty-nil [] h = refl
is_empty-nil (x ∷ xs) h = absurd (cc h)

module _ (tools : TextTools) where
  open tools use {casefold}

  -- No secret that the case forbids stands in the text, whatever the letters' case.
  abbrev pub Contains : EvalCase → (candidate : String) → Type 0
  Contains c candidate =
      All (λ secret. occurs (casefold secret) (casefold candidate) ≡ false) c.forbidden_secrets

  none_present :
      (candidate : String) (secrets : List String)
      → present tools candidate secrets ≡ []
      → All (λ secret. occurs (casefold secret) (casefold candidate) ≡ false) secrets
  unfolding present contains_phrase
  none_present candidate secrets h =
      none_pass (contains_phrase tools candidate) secrets
        (any-select_nil (contains_phrase tools candidate) secrets h)

  no_secret :
      (candidate : String) (secrets : List String)
      → any is_critical_failure (applied secrets (secret_finding tools candidate secrets)) ≡ false
      → All (λ secret. occurs (casefold secret) (casefold candidate) ≡ false) secrets
  unfolding secret_finding
  no_secret candidate [] h = tt
  no_secret candidate (secret ∷ secrets) h =
      none_present candidate (secret ∷ secrets)
        (is_empty-nil (present tools candidate (secret ∷ secrets)) (ground (arith, h)))

  any-of_nonempty :
      (candidate : String) (checks : List RuleFinding)
      → any is_critical_failure (or_nonempty tools candidate checks) ≡ false
      → any is_critical_failure checks ≡ false
  any-of_nonempty candidate [] h = refl
  any-of_nonempty candidate (f ∷ checks) h = h

  -- Rules without a critical failure.
  rules-Contains :
      (c : EvalCase) (candidate : String)
      → any is_critical_failure (evaluate_rules tools c candidate) ≡ false
      → Contains c candidate
  unfolding evaluate_rules
  rules-Contains c candidate h =
      let from_secrets = secret_rule tools c candidate ++ later_rules tools c candidate in
      let from_grounding = grounding_rule tools c candidate ++ from_secrets in
      let every = any-of_nonempty candidate (voice_rule tools c candidate ++ from_grounding) h in
      let grounded =
        any-of_append is_critical_failure (voice_rule tools c candidate) from_grounding every in
      let secret =
        any-of_append is_critical_failure (grounding_rule tools c candidate) from_secrets
          grounded.1 in
      no_secret candidate c.forbidden_secrets
        (any-of_append is_critical_failure (secret_rule tools c candidate)
          (later_rules tools c candidate) secret.1).0

  module _ (F : Floats) (dumps : CaseDumps) (r : EvaluationRunner) where
    open F use {Carrier}

    -- A result of the case, with its own candidate and grade.
    abbrev pub IsOf : EvalCase → CaseResult → Type 0
    IsOf c result = result ≡ case_result F tools dumps r c result.candidate result.grade

    evaluate_case-IsOf :
        (mode : EvaluationMode) (outputs : List (String × String)) (c : EvalCase) (s : Tokens)
        {result : CaseResult} {s' : Tokens}
        → evaluate_case F tools dumps r mode outputs c s ≡ (ok result, s')
        → IsOf c result
    unfolding evaluate_case
    evaluate_case-IsOf mode outputs c s h =
        let (candidate, s₁, drawn, h₁) =
          then_run-eq-ok (candidate_of F tools dumps r c mode outputs s) _ h in
        let (grade, s₂, graded, h₂) =
          then_run-eq-ok (grade_of F tools dumps r c candidate s₁) _ h₁ in
        ground (arith, h₂)

    evaluate_cases-Pairwise :
        (mode : EvaluationMode) (outputs : List (String × String)) (cases : List EvalCase)
        (s : Tokens) {results : List CaseResult} {s' : Tokens}
        → evaluate_cases F tools dumps r mode outputs cases s ≡ (ok results, s')
        → Pairwise IsOf cases results
    unfolding evaluate_cases
    evaluate_cases-Pairwise mode outputs [] s {results} h =
        let same : [] ≡ results = cc h in subst (Pairwise IsOf []) same tt
    evaluate_cases-Pairwise mode outputs (c ∷ cases) s {results} h =
        let (result, s₁, first, h₁) =
          then_run-eq-ok (evaluate_case F tools dumps r mode outputs c s) _ h in
        let (rest, s₂, others, h₂) =
          then_run-eq-ok (evaluate_cases F tools dumps r mode outputs cases s₁) _ h₁ in
        let same : result ∷ rest ≡ results = cc h₂ in
        subst (Pairwise IsOf (c ∷ cases)) same (
          evaluate_case-IsOf mode outputs c s first,
          evaluate_cases-Pairwise mode outputs cases s₁ others,
        )

    -- A candidate that was evaluated for the case.
    abbrev pub IsClean : EvalCase → CaseResult → Type 0
    IsClean c result = (result.case_id ≡ c.id) × Contains c result.candidate

    no_failure :
        (t : EvalThresholds Carrier) (result : CaseResult)
        → t.fail_on_critical ≡ true
        → result_passed F t result ≡ true
        → any is_critical_failure result.findings ≡ false
    unfolding result_passed
    no_failure t result strict h = ground (arith, strict, h)

    result-IsClean :
        (t : EvalThresholds Carrier) (c : EvalCase) (result : CaseResult)
        → t.fail_on_critical ≡ true
        → result_passed F t result ≡ true
        → IsOf c result
        → IsClean c result
    result-IsClean t c result strict h own = (
      ap (λ r. r.case_id) own,
      rules-Contains c result.candidate (
          subst (λ findings. any is_critical_failure findings ≡ false) (ap (λ r. r.findings) own)
            (no_failure t result strict h)),
    )

    results-IsClean :
        (t : EvalThresholds Carrier) (cases : List EvalCase) (results : List CaseResult)
        → t.fail_on_critical ≡ true
        → all (result_passed F t) results ≡ true
        → Pairwise IsOf cases results
        → Pairwise IsClean cases results
    results-IsClean t [] [] strict h own = tt
    results-IsClean t (c ∷ cases) (result ∷ results) strict h own = (
      result-IsClean t c result strict (ground (arith, h)) own.0,
      results-IsClean t cases results strict (ground (arith, h)) own.1,
    )
    results-IsClean t [] (result ∷ results) strict h own = absurd own
    results-IsClean t (c ∷ cases) [] strict h own = absurd own

    make_report-same :
        (drafted : EvalReport Carrier) {made : EvalReport Carrier}
        → make_report F drafted ≡ ok made
        → drafted ≡ made
    unfolding make_report
    make_report-same drafted h = ground (arith, h)

    -- No secret gets through: if an evaluation with critical failures counted returns a report that
    -- passes, the report has one result for each case, in order, and the candidate that was evaluated
    -- for a case contains none of the secrets that the case forbids, whatever the case of letters.
    pub run-IsClean :
        (d : Dataset) (mode : EvaluationMode) (outputs : Option (List (String × String)))
        (t : EvalThresholds Carrier) (s : Tokens) {made : EvalReport Carrier} {s' : Tokens}
        → run F tools dumps r d mode outputs t s ≡ (ok made, s')
        → t.fail_on_critical ≡ true
        → made.passed ≡ true
        → Pairwise IsClean d.cases made.results
    unfolding run
    run-IsClean d mode outputs t s {made} h strict passed =
        let (checked, s₁, allowed, h₁) =
          then_run-eq-ok (of_result (check_mode F tools dumps r mode outputs) s) _ h in
        let (results, s₂, evaluated, h₂) =
          then_run-eq-ok
            (evaluate_cases F tools dumps r mode (recorded_or_empty outputs) d.cases s₁) _ h₁ in
        let own = evaluate_cases-Pairwise mode (recorded_or_empty outputs) d.cases s₁ evaluated in
        let same =
          make_report-same (drafted F tools dumps r d mode t results s₂) (ap (λ p. p.0) h₂) in
        subst (λ m. Pairwise IsClean d.cases m.results) same
          (results-IsClean t d.cases results strict (ap (λ m. m.passed) same ∙ passed) own)
