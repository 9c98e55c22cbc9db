-- ===== src/Conversations/Reply.antt =====
-- What a visitor gets from one turn (Conversations/Stream).
use Prim.Native.Char.{Char}
use rumor_mill_ai.Prelude.{
  ℕ, ◌≤◌, ◌<◌, ◌≡◌, refl, String, Bool, Option, none, some, List, [], ◌∷◌, ◌++◌, map, All, ltb,
  ◌==◌, Result, ok, >>=-eq-ok, raise_if, value_error, arith,
}
use rumor_mill_ai.Domain.Base.{text_length}
use rumor_mill_ai.Text.{strip, concat}
use rumor_mill_ai.Text.Slices.{concat-pieces, pieces_bounds}
use rumor_mill_ai.Scenes.Generate.{GenerationRequest, GenerationResult}
use rumor_mill_ai.Conversations.Context.{ConversationContext, ConversationHistoryMessage}
use rumor_mill_ai.Conversations.Output.{
  CharacterConversationOutput, ConversationStreamEvent, StreamEvent,
}
use rumor_mill_ai.Conversations.Request.{request}
use rumor_mill_ai.Conversations.Safety.{validate_output}
use rumor_mill_ai.Conversations.Stream.{
  make_engine, completion_of, deltas, reply_with, reply_from, stream,
}
use rumor_mill_ai.Conversations.Scope.{IsInScope, validate_output_iff}

deltas_whole : (size : ℕ) (reply : String) → 0 < size → concat (deltas size reply) ≡ reply
unfolding deltas
deltas_whole size reply pos = concat-pieces size reply pos

deltas_bounds :
    (size : ℕ) (reply : String)
    → 0 < size
    → All (λ delta. (0 < text_length delta) × (text_length delta ≤ size)) (deltas size reply)
unfolding deltas
deltas_bounds size reply pos = pieces_bounds size reply pos

make_engine_pos : (size : ℕ) {kept : ℕ} → make_engine size ≡ ok kept → (size ≡ kept) × (0 < size)
unfolding make_engine
make_engine_pos size h = ground arith

module _ {C : Type 0} (is_space : Char → Bool) (fold : String → String)
    (dump_context : ConversationContext C → String)
    (provider_stream : GenerationRequest
      → Result (List (StreamEvent (CharacterConversationOutput C))))
    (reply_chunk_size : ℕ) where
  -- The events of a good turn: deltas that make up the reply of the completed output, none empty
  -- or longer than a chunk, and the output, which stays within the context.
  pub record IsReply (context : ConversationContext C) (events : List (ConversationStreamEvent C))
      : Type 0 where
    pub output : CharacterConversationOutput C
    pub completion : GenerationResult (CharacterConversationOutput C)
    pub parts : List String
    pub received : completion.data_ ≡ some output
    pub shape :
        events
        ≡ map ConversationStreamEvent.reply_delta parts
          ++ ConversationStreamEvent.completed output completion ∷ []
    pub whole : concat parts ≡ output.reply
    pub sizes : All (λ part. (0 < text_length part) × (text_length part ≤ reply_chunk_size)) parts
    pub scoped : IsInScope is_space fold context output

  with_output :
      (context : ConversationContext C)
      (completion : GenerationResult (CharacterConversationOutput C))
      (found : Option (CharacterConversationOutput C)) {events : List (ConversationStreamEvent C)}
      → 0 < reply_chunk_size
      → completion.data_ ≡ found
      → reply_with is_space fold dump_context provider_stream reply_chunk_size context completion
          found
        ≡ ok events
      → IsReply context events
  with_output context completion none pos same h = absurd (cc h)
  with_output context completion (some output) pos same h =
      let (checked, passed, sent) = >>=-eq-ok (validate_output is_space fold context output) _ h in
      record {
        output = output;
        completion = completion;
        parts = deltas reply_chunk_size output.reply;
        received = same;
        shape = cc sent;
        whole = deltas_whole reply_chunk_size output.reply pos;
        sizes = deltas_bounds reply_chunk_size output.reply pos;
        scoped = (validate_output_iff is_space fold context output).0 passed;
      }

  with_completion :
      (context : ConversationContext C)
      (found : Option (GenerationResult (CharacterConversationOutput C)))
      {events : List (ConversationStreamEvent C)}
      → 0 < reply_chunk_size
      → reply_from is_space fold dump_context provider_stream reply_chunk_size context found
        ≡ ok events
      → IsReply context events
  with_completion context none pos h = absurd (cc h)
  with_completion context (some completion) pos h =
      with_output context completion completion.data_ pos refl h

  -- Whatever the visitor writes and whatever the provider answers, the events of a turn that an
  -- engine with an accepted chunk size returns are a good reply: deltas that are neither empty nor
  -- longer than a chunk and together make the reply of the output that comes last, which the
  -- provider completed and which stays within the context.
  pub stream-IsReply :
      (context : ConversationContext C) (visitor_input : String)
      (history : List ConversationHistoryMessage) {events : List (ConversationStreamEvent C)}
      → make_engine reply_chunk_size ≡ ok reply_chunk_size
      → stream is_space fold dump_context provider_stream reply_chunk_size context visitor_input
          history
        ≡ ok events
      → IsReply context events
  unfolding stream
  stream-IsReply context visitor_input history made h =
      let cleaned = strip is_space visitor_input in
      let (given, filled, h₁) =
        >>=-eq-ok
          (raise_if (text_length cleaned == 0) (value_error "visitor input cannot be empty")) _ h in
      let (bounded, short, h₂) =
        >>=-eq-ok
          (raise_if (ltb 4000 (text_length cleaned))
            (value_error "visitor input cannot exceed 4000 characters"))
          _ h₁ in
      let (provided, streamed, h₃) =
        >>=-eq-ok (provider_stream (request dump_context context cleaned history)) _ h₂ in
      with_completion context (completion_of none provided)
        ((make_engine_pos reply_chunk_size made).1) h₃
