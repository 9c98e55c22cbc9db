-- ===== src/Conversations/Safety.antt =====
-- CharacterConversationEngine._validate_output and _normalize_for_safety
-- (src/rumor_mill/engine/conversation.py). NFKC and case folding are the parameter `fold`, and
-- `is_space` is the table behind `str.strip`.
use Prim.Native.Char.{Char}
use rumor_mill_ai.Prelude.{
  concat_map, ℕ, String, Bool, false, not, ◌&&◌, Option, none, some, List, [], ◌∷◌, ◌++◌, map,
  select, any, contains, subset, leb, Result, Exc, raise_if, ◌>>◌,
}
use rumor_mill_ai.Domain.Base.{text_length}
use rumor_mill_ai.Text.{strip, plain_words, occurs, join}
use rumor_mill_ai.Conversations.Context.{ConversationContext}
use rumor_mill_ai.Conversations.Output.{CharacterConversationOutput, ConversationMemoryProposal}

-- `ConversationSafetyError`, which carries its code.
abbrev pub safety_error : String → Exc
safety_error code = Exc.other code

-- `prompt_extraction_markers`
abbrev pub markers : List String
markers =
    "system prompt" ∷ "developer instructions" ∷ "scoped character context"
    ∷ "disclosure boundaries" ∷ "chain of thought" ∷ "as an ai language model" ∷ []

-- The values that are neither None nor empty.
abbrev pub filled : List (Option String) → List String
filled [] = []
filled (none ∷ values) = filled values
filled (some String.[] ∷ values) = filled values
filled (some (String.◌∷◌ c s) ∷ values) = String.◌∷◌ c s ∷ filled values

abbrev pub proposed : {C : Type 0} → Option (ConversationMemoryProposal C) → Option String
proposed none = none
proposed (some memory) = some memory.content

-- What a visitor, or the character later on, gets to read.
unfoldable pub exposed : {C : Type 0} → CharacterConversationOutput C → String
unfolding join
exposed o = join " " (filled (some o.reply ∷ o.action ∷ proposed o.conversation_memory ∷ []))

module _ {C : Type 0} where
  abbrev pub allowed_claims : ConversationContext C → List ℕ
  allowed_claims c = map (λ b. b.claim_id) c.beliefs ++ map (λ b. b.claim_id) c.presented_evidence

  abbrev pub cited_claims : CharacterConversationOutput C → List ℕ
  cited_claims o = o.cited_claim_ids ++ map (λ b. b.claim_id) o.visitor_beliefs

  unfoldable pub protected_statements : ConversationContext C → List String
  protected_statements c =
      let protected = concat_map (λ d. d.protected_claim_ids) c.disclosure_boundaries in
      map (λ b. b.statement) (select (λ b. contains b.claim_id protected) c.beliefs)

module _ (is_space : Char → Bool) (fold : String → String) where
  -- `_normalize_for_safety`
  unfoldable pub normalize_for_safety : String → String
  unfolding strip plain_words
  normalize_for_safety value = strip is_space (plain_words false (fold value))

  -- The loop over the protected statements of the text that is exposed.
  unfoldable pub discloses : (text statement : String) → Bool
  unfolding occurs text_length normalize_for_safety
  discloses text statement =
      let protected = normalize_for_safety statement in
      leb 12 (text_length protected) && occurs protected text

  module _ {C : Type 0} where
    -- `_validate_output`
    unfoldable pub validate_output :
        ConversationContext C → CharacterConversationOutput C → Result (Unit {0})
    unfolding exposed normalize_for_safety discloses occurs protected_statements
    validate_output c o =
        let text = normalize_for_safety (exposed o) in
        raise_if (not (subset o.cited_memory_ids (map (λ m. m.memory_id) c.relevant_memories)))
          (safety_error "out_of_scope_memory")
        >> (raise_if (not (subset (cited_claims o) (allowed_claims c)))
              (safety_error "out_of_scope_claim")
            >> (raise_if (any (discloses text) (protected_statements c))
                  (safety_error "protected_claim_disclosure")
                >> raise_if (any (λ marker. occurs marker text) markers)
                    (safety_error "instruction_disclosure")))
