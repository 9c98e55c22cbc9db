-- ===== src/Conversations/Stream.antt =====
-- CharacterConversationEngine.stream (src/rumor_mill/engine/conversation.py). All checks run
-- before the first event is yielded, so a turn is an exception or the whole list of its events. A
-- provider's stream is a parameter: the events up to its end, or its exception.
use Prim.Native.Char.{Char}
use rumor_mill_ai.Prelude.{
  ℕ, ◌+◌, String, Bool, Option, none, some, List, [], ◌∷◌, ◌++◌, map, leb, ltb, ◌==◌, Result, Exc,
  ok, raise, raise_if, ◌>>=◌, ◌>>◌, value_error, type_error,
}
use rumor_mill_ai.Domain.Base.{text_length}
use rumor_mill_ai.Text.{strip, slice, range}
use rumor_mill_ai.Scenes.Generate.{GenerationRequest, GenerationResult}
use rumor_mill_ai.Conversations.Context.{ConversationContext, ConversationHistoryMessage}
use rumor_mill_ai.Conversations.Output.{
  CharacterConversationOutput, ConversationStreamEvent, StreamEvent,
}
use rumor_mill_ai.Conversations.Request.{request}
use rumor_mill_ai.Conversations.Safety.{validate_output}

-- `CharacterConversationEngine(...)`, which returns the chunk size that it keeps.
unfoldable pub make_engine : (reply_chunk_size : ℕ) → Result ℕ
make_engine size =
    raise_if (leb size 0) (value_error "reply_chunk_size must be positive") >> ok size

-- The loop over the provider's events, whose last completion counts.
unfoldable pub completion_of :
    {T : Type 0} → Option (GenerationResult T) → List (StreamEvent T) → Option (GenerationResult T)
completion_of last [] = last
completion_of last (StreamEvent.text_delta delta ∷ events) = completion_of last events
completion_of last (StreamEvent.completed result ∷ events) = completion_of (some result) events

-- The offsets of the deltas, `range(0, len(reply), size)`, and the deltas.
unfoldable pub deltas : (size : ℕ) (reply : String) → List String
unfolding slice range text_length
deltas size reply = map (λ i. slice i (i + size) reply) (range 0 (text_length reply) size)

abbrev pub events_of :
    {C : Type 0}
    → (size : ℕ) → CharacterConversationOutput C
    → GenerationResult (CharacterConversationOutput C)
    → List (ConversationStreamEvent C)
events_of size output completion =
    map ConversationStreamEvent.reply_delta (deltas size output.reply)
    ++ ConversationStreamEvent.completed output completion ∷ []

module _ {C : Type 0} (is_space : Char → Bool) (fold : String → String)
    (dump_context : ConversationContext C → String)
    (provider_stream : GenerationRequest
      → Result (List (StreamEvent (CharacterConversationOutput C))))
    (reply_chunk_size : ℕ) where
  abbrev pub reply_with :
      ConversationContext C
      → GenerationResult (CharacterConversationOutput C)
      → Option (CharacterConversationOutput C)
      → Result (List (ConversationStreamEvent C))
  reply_with context completion none = raise type_error
  reply_with context completion (some output) =
      validate_output is_space fold context output
      >> ok (events_of reply_chunk_size output completion)

  abbrev pub reply_from :
      ConversationContext C
      → Option (GenerationResult (CharacterConversationOutput C))
      → Result (List (ConversationStreamEvent C))
  reply_from context none = raise (Exc.other "RuntimeError")
  reply_from context (some completion) = reply_with context completion completion.data_

  -- `stream`
  unfoldable pub stream :
      ConversationContext C
      → (visitor_input : String) → List ConversationHistoryMessage
      → Result (List (ConversationStreamEvent C))
  unfolding strip text_length request completion_of deltas validate_output
  stream context visitor_input history =
      let cleaned = strip is_space visitor_input in
      raise_if (text_length cleaned == 0) (value_error "visitor input cannot be empty")
      >> (raise_if (ltb 4000 (text_length cleaned))
            (value_error "visitor input cannot exceed 4000 characters")
          >> (provider_stream (request dump_context context cleaned history) >>= λ events.
              reply_from context (completion_of none events)))
