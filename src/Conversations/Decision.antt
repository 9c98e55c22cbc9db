-- ===== src/Conversations/Decision.antt =====
-- When a turn is answered (Conversations/Stream).
use Prim.Native.Char.{Char}
use rumor_mill_ai.Prelude.{
  ℕ, ◌≤◌, ◌≡◌, refl, ap, ◌∙◌, ◌⊎◌, inl, inr, String, Bool, false, none, some, List, ltb, ◌==◌,
  Result, Exc, ok, raise, ◌>>◌, arith,
}
use rumor_mill_ai.Domain.Base.{text_length}
use rumor_mill_ai.Text.{strip}
use rumor_mill_ai.Scenes.Generate.{GenerationRequest, GenerationResult}
use rumor_mill_ai.Conversations.Context.{ConversationContext, ConversationHistoryMessage}
use rumor_mill_ai.Conversations.Output.{
  CharacterConversationOutput, ConversationStreamEvent, StreamEvent,
}
use rumor_mill_ai.Conversations.Request.{request}
use rumor_mill_ai.Conversations.Safety.{validate_output}
use rumor_mill_ai.Conversations.Stream.{completion_of, events_of, reply_with, stream}
use rumor_mill_ai.Conversations.Scope.{IsInScope, validate_output_iff}

-- A check returns or raises.
unit-cases : (r : Result (Unit {0})) → (r ≡ ok tt) ⊎ ((e : Exc) × (r ≡ raise e))
unit-cases (raise e) = inr (e, refl)
unit-cases (ok tt) = inl refl

module _ {C : Type 0} (is_space : Char → Bool) (fold : String → String)
    (dump_context : ConversationContext C → String)
    (provider_stream : GenerationRequest
      → Result (List (StreamEvent (CharacterConversationOutput C))))
    (reply_chunk_size : ℕ) (context : ConversationContext C) (visitor_input : String)
    (history : List ConversationHistoryMessage) where
  abbrev answer : Result (List (ConversationStreamEvent C))
  answer =
      stream is_space fold dump_context provider_stream reply_chunk_size context visitor_input
        history

  stream-checked :
      {provided : List (StreamEvent (CharacterConversationOutput C))}
      {completion : GenerationResult (CharacterConversationOutput C)}
      {output : CharacterConversationOutput C}
      → 1 ≤ text_length (strip is_space visitor_input)
      → text_length (strip is_space visitor_input) ≤ 4000
      → provider_stream (request dump_context context (strip is_space visitor_input) history)
        ≡ ok provided
      → completion_of none provided ≡ some completion
      → completion.data_ ≡ some output
      → answer ≡ (
          validate_output is_space fold context output
          >> ok (events_of reply_chunk_size output completion))
  unfolding stream
  stream-checked {provided} {completion} {output} filled short provides completes carries =
      let cleaned = strip is_space visitor_input in
      let some_text : (text_length cleaned == 0) ≡ false = ground (arith, filled) in
      let fits : ltb 4000 (text_length cleaned) ≡ false = ground (arith, short) in
      rw (some_text, fits, provides, completes)
        (ap
          (reply_with is_space fold dump_context provider_stream reply_chunk_size context
            completion)
          carries)

  -- A turn with text of the visitor, not too long, that the provider completes with an output of the
  -- expected model: it is answered with that output's events if the output stays within the context,
  -- and otherwise it raises and nothing of the output gets out.
  pub stream-decides :
      {provided : List (StreamEvent (CharacterConversationOutput C))}
      (completion : GenerationResult (CharacterConversationOutput C))
      (output : CharacterConversationOutput C)
      → 1 ≤ text_length (strip is_space visitor_input)
      → text_length (strip is_space visitor_input) ≤ 4000
      → provider_stream (request dump_context context (strip is_space visitor_input) history)
        ≡ ok provided
      → completion_of none provided ≡ some completion
      → completion.data_ ≡ some output
      → (IsInScope is_space fold context output
          × (answer ≡ ok (events_of reply_chunk_size output completion)))
        ⊎ ((¬ IsInScope is_space fold context output) × ((e : Exc) × (answer ≡ raise e)))
  stream-decides completion output filled short provides completes carries =
      let checked = stream-checked filled short provides completes carries in
      let sent = ok (events_of reply_chunk_size output completion) in
      let (sound, complete) = validate_output_iff is_space fold context output in
      elim (unit-cases (validate_output is_space fold context output)) [
        | inl passed ↦ inl (sound passed, checked ∙ ap (λ check. check >> sent) passed)
        | inr (e, raised) ↦ inr (
          (λ scoped. cc (complete scoped, raised)),
          (e, checked ∙ ap (λ check. check >> sent) raised),
        )
      ]
