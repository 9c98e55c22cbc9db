-- ===== src/Evaluation/Rules.antt =====
-- evaluate_rules (src/rumor_mill/evals/rules.py). Case folding, the regular expression that finds
-- the cited sources, and the printing of lists and numbers are parameters.
use Prim.Native.Char.{Char}
use Prim.Native.String.{◌++◌ as str_append}
use rumor_mill_ai.Prelude.{
  ℕ, String, Bool, true, false, not, List, [], ◌∷◌, ◌++◌, select, any, length, ◌==◌, str_eq,
}
use rumor_mill_ai.Domain.Base.{text_length}
use rumor_mill_ai.Domain.Subjective.{is_empty}
use rumor_mill_ai.Text.{strip, occurs}
use rumor_mill_ai.Evaluation.Cases.{EvalCase, RuleFinding}

pub record TextTools : Type 0 where
  pub casefold : String → String
  pub is_space : Char → Bool
  pub cited_sources : String → List String
  pub print_texts : List String → String
  pub print_ℕ : ℕ → String

abbrev pub finding : String → Bool → String → RuleFinding
finding rule passed detail = record {
  rule = rule;
  passed = passed;
  critical = false;
  detail = detail;
}

-- The finding of a rule that applies if the case names some phrases.
abbrev pub applied : List String → RuleFinding → List RuleFinding
applied [] f = []
applied (phrase ∷ phrases) f = f ∷ []

module _ (tools : TextTools) where
  open tools use {casefold, is_space, cited_sources, print_texts, print_ℕ}

  -- `_contains`
  unfoldable pub contains_phrase : (text phrase : String) → Bool
  unfolding occurs
  contains_phrase text phrase = occurs (casefold phrase) (casefold text)

  unfoldable pub present : (candidate : String) → List String → List String
  unfolding contains_phrase
  present candidate phrases = select (contains_phrase candidate) phrases

  unfoldable pub missing : (candidate : String) → List String → List String
  unfolding contains_phrase
  missing candidate phrases = select (λ phrase. not (contains_phrase candidate phrase)) phrases

  abbrev pub missing_sources : (candidate : String) → List String → List String
  missing_sources candidate sources =
      let cited = cited_sources (casefold candidate) in
      select (λ source. not (any (str_eq (casefold source)) cited)) sources

  -- A rule that fails with the list of the phrases that make it fail.
  abbrev pub listing : (rule : String) (wrong : List String) (label : String) → RuleFinding
  listing rule wrong label = finding rule (is_empty wrong) (str_append label (print_texts wrong))

  abbrev pub voice_finding : (candidate : String) → List String → RuleFinding
  voice_finding candidate phrases =
      let matched = present candidate phrases in
      finding "voice_markers" (not (is_empty matched)) (
        str_append "matched " (
          str_append (print_ℕ (length matched))
            (str_append "/" (str_append (print_ℕ (length phrases)) " voice markers"))))

  unfoldable pub secret_finding : (candidate : String) → List String → RuleFinding
  unfolding present
  secret_finding candidate secrets =
      record (listing "secret_containment" (present candidate secrets)
        "leaked forbidden secrets: ") { critical = true }

  abbrev pub or_nonempty : (candidate : String) → List RuleFinding → List RuleFinding
  or_nonempty candidate [] =
      finding "nonempty" (not (text_length (strip is_space candidate) == 0))
        "candidate must not be empty"
      ∷ []
  or_nonempty candidate (f ∷ checks) = f ∷ checks

  -- The rules from that on canon facts to that on plot developments.
  abbrev pub later_rules : EvalCase → (candidate : String) → List RuleFinding
  later_rules c candidate =
      applied c.canon_facts
        (listing "canon_facts" (missing candidate c.canon_facts) "missing canon facts: ")
      ++ (applied c.forbidden_canon_claims (
            listing "canon_consistency" (present candidate c.forbidden_canon_claims)
              "contradicting claims: ")
          ++ (applied c.required_source_ids (
                listing "rumor_traceability" (missing_sources candidate c.required_source_ids)
                  "missing sources: ")
              ++ applied c.required_plot_developments (
                  listing "plot_progression" (missing candidate c.required_plot_developments)
                    "missing developments: ")))

  abbrev pub voice_rule : EvalCase → (candidate : String) → List RuleFinding
  voice_rule c candidate =
      applied c.character_voice_markers (voice_finding candidate c.character_voice_markers)

  abbrev pub grounding_rule : EvalCase → (candidate : String) → List RuleFinding
  grounding_rule c candidate =
      applied c.grounded_claims (
        listing "belief_grounding" (missing candidate c.grounded_claims)
          "missing grounded claims: ")

  abbrev pub secret_rule : EvalCase → (candidate : String) → List RuleFinding
  secret_rule c candidate =
      applied c.forbidden_secrets (secret_finding candidate c.forbidden_secrets)

  -- `evaluate_rules`
  unfoldable pub evaluate_rules : EvalCase → (candidate : String) → List RuleFinding
  unfolding secret_finding present missing strip text_length
  evaluate_rules c candidate = or_nonempty candidate (
      voice_rule c candidate
      ++ (grounding_rule c candidate ++ (secret_rule c candidate ++ later_rules c candidate)))
