-- ===== src/Conversations/Output.antt =====
-- What a provider proposes for one turn, and the events of the turn
-- (src/rumor_mill/engine/conversation.py).
use rumor_mill_ai.Prelude.{
  ℕ, String, not, ◌||◌, Option, none, some, List, Result, ok, raise_if, ◌>>◌, value_error,
}
use rumor_mill_ai.Floats.{Floats, is_unit}
use rumor_mill_ai.Scenes.Plan.{check_each, check_nonempty}
use rumor_mill_ai.Scenes.Generate.{GenerationResult}

pub data CharacterStance : Type 0 where
  answer refuse mislead speculate uncertain : CharacterStance

pub record ConversationMemoryProposal (C : Type 0) : Type 0 where
  pub content : String
  pub salience : C

pub record VisitorBeliefProposal (C : Type 0) : Type 0 where
  pub claim_id : ℕ
  pub confidence : C

pub record CharacterConversationOutput (C : Type 0) : Type 0 where
  pub reply : String
  pub action : Option String
  pub stance : CharacterStance
  pub cited_memory_ids : List ℕ
  pub cited_claim_ids : List ℕ
  pub conversation_memory : Option (ConversationMemoryProposal C)
  pub visitor_beliefs : List (VisitorBeliefProposal C)
  pub trust_delta : C

-- The two shapes of an event that `validate_shape` accepts.
pub data ConversationStreamEvent (C : Type 0) : Type 0 where
  reply_delta : String → ConversationStreamEvent C
  completed :
      CharacterConversationOutput C
      → GenerationResult (CharacterConversationOutput C)
      → ConversationStreamEvent C

-- The two shapes of an event of a provider (src/rumor_mill/engine/ports/model_provider.py).
pub data StreamEvent (T : Type 0) : Type 0 where
  text_delta : String → StreamEvent T
  completed : GenerationResult T → StreamEvent T

abbrev pub check_optional : {A : Type 0} → (A → Result (Unit {0})) → Option A → Result (Unit {0})
check_optional check none = ok tt
check_optional check (some a) = check a

module _ (F : Floats) where
  open F use {Carrier, sub, le, of_ℕ, decimal}

  unfoldable pub check_proposal : ConversationMemoryProposal Carrier → Result (Unit {0})
  unfolding check_nonempty
  check_proposal m = do
    check_nonempty m.content
    raise_if (not (is_unit F m.salience)) (value_error "salience out of range")

  unfoldable pub check_visitor_belief : VisitorBeliefProposal Carrier → Result (Unit {0})
  check_visitor_belief b =
      raise_if (not (is_unit F b.confidence)) (value_error "confidence out of range")

  -- `CharacterConversationOutput(...)`
  unfoldable pub make_output :
      CharacterConversationOutput Carrier → Result (CharacterConversationOutput Carrier)
  unfolding check_nonempty check_proposal check_visitor_belief
  make_output o = do
    check_nonempty o.reply
    check_optional check_nonempty o.action
    check_optional check_proposal o.conversation_memory
    check_each check_visitor_belief o.visitor_beliefs
    raise_if
        (not (le (sub (of_ℕ 0) (decimal 15 2)) o.trust_delta)
          || not (le o.trust_delta (decimal 15 2)))
        (value_error "trust_delta out of range")
    ok o
