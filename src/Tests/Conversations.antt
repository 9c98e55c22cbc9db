-- ===== src/Tests/Conversations.antt =====
-- A turn with a lighthouse keeper, and the theorems on it.
use Prim.Native.Char.{Char, code}
use rumor_mill_ai.Prelude.{
  ◌≡◌, ◌↔◌, ◌⊎◌, refl, arith, String, Bool, true, false, none, some, List, [], ◌∷◌, ◌==◌, Result,
  Exc, ok, raise,
}
use rumor_mill_ai.Prelude.Int.{ℤ, pos, ◌-ℤ◌}
use rumor_mill_ai.Floats.Micro.{micro}
use rumor_mill_ai.Scenes.Generate.{GenerationRequest, GenerationResult}
use rumor_mill_ai.Conversations.Context.{ConversationContext, ContactMode, make_context}
use rumor_mill_ai.Conversations.Output.{
  CharacterConversationOutput, CharacterStance, ConversationStreamEvent, StreamEvent, make_output,
}
use rumor_mill_ai.Conversations.Safety.{validate_output}
use rumor_mill_ai.Conversations.Stream.{make_engine, stream, deltas, completion_of}
use rumor_mill_ai.Conversations.Decision.{stream-decides}
use rumor_mill_ai.Text.{strip}
use rumor_mill_ai.Domain.Base.{text_length}
use rumor_mill_ai.Conversations.Scope.{IsInScope, validate_output_iff}
use rumor_mill_ai.Conversations.Reply.{IsReply, stream-IsReply}

abbrev is_space : Char → Bool
is_space c = code c == 32

abbrev unfolded : String → String
unfolded s = s

abbrev keeper : ConversationContext ℤ
keeper = record {
  run_id = 7;
  character_id = 5;
  character_name = "Ada";
  persona = "A keeper.";
  location = record {
    home_location_id = none;
    home_location_name = none;
    current_location_id = some 40;
    current_location_name = some "Tower";
    publicly_present = false;
    private_contact_mode = ContactMode.live;
  };
  goals = "Keep the light." ∷ [];
  beliefs =
      record {
        claim_id = 3;
        statement = "the lamp was broken by ben";
        confidence = pos 900000;
        unresolved = false;
      }
      ∷ [];
  relevant_memories = record { memory_id = 8; content = "It was dark." } ∷ [];
  visitor_relationship = record { summary = "Strangers."; trust = pos 100000 };
  disclosure_boundaries =
      record { topic = "Lamp"; instruction = "Protect Ben."; protected_claim_ids = 3 ∷ [] } ∷ [];
  presented_evidence = [];
  occurred_at = record { instant = 9; aware = true };
}

keeper-accepted : make_context micro keeper ≡ ok keeper
unfolding make_context
keeper-accepted = refl

abbrev evasive : CharacterConversationOutput ℤ
evasive = record {
  reply = "it was dark";
  action = none;
  stance = CharacterStance.refuse;
  cited_memory_ids = 8 ∷ [];
  cited_claim_ids = 3 ∷ [];
  conversation_memory = none;
  visitor_beliefs = [];
  trust_delta = pos 0;
}

evasive-accepted : make_output micro evasive ≡ ok evasive
unfolding make_output ◌-ℤ◌
evasive-accepted = refl

-- An output that names the culprit.
candid-refused :
    validate_output is_space unfolded keeper
      (record evasive { reply = "Oh, the lamp was broken by ben!" })
    ≡ raise (Exc.other "protected_claim_disclosure")
unfolding validate_output
candid-refused = refl

validate_output_iff_example :
    (validate_output is_space unfolded keeper evasive ≡ ok tt)
    ↔ IsInScope is_space unfolded keeper evasive
validate_output_iff_example = validate_output_iff is_space unfolded keeper evasive

abbrev result : GenerationResult (CharacterConversationOutput ℤ)
result = record {
  data_ = some evasive;
  generation = record {
    provider = "mock";
    model = "m";
    request_id = "r";
    input_tokens = 1;
    output_tokens = 1;
    total_tokens = 2;
  };
}

abbrev provider : GenerationRequest → Result (List (StreamEvent (CharacterConversationOutput ℤ)))
provider request = ok (StreamEvent.text_delta "{" ∷ StreamEvent.completed result ∷ [])

abbrev dump : ConversationContext ℤ → String
dump c = "{}"

abbrev events : List (ConversationStreamEvent ℤ)
events =
    ConversationStreamEvent.reply_delta "it was d"
    ∷ ConversationStreamEvent.reply_delta "ark"
    ∷ ConversationStreamEvent.completed evasive result
    ∷ []

engine-made : make_engine 8 ≡ ok 8
unfolding make_engine
engine-made = refl

turn : stream is_space unfolded dump provider 8 keeper " Who? " [] ≡ ok events
unfolding stream
turn = refl

stream-IsReply_example : IsReply is_space unfolded dump provider 8 keeper events
stream-IsReply_example =
    stream-IsReply is_space unfolded dump provider 8 keeper " Who? " [] engine-made turn

stream-decides_example :
    (IsInScope is_space unfolded keeper evasive
      × (stream is_space unfolded dump provider 8 keeper " Who? " [] ≡ ok events))
    ⊎ ((¬ IsInScope is_space unfolded keeper evasive)
        × ((e : Exc) × (stream is_space unfolded dump provider 8 keeper " Who? " [] ≡ raise e)))
unfolding strip text_length deltas completion_of
stream-decides_example =
    stream-decides is_space unfolded dump provider 8 keeper " Who? " [] result evasive (omega arith)
      (omega arith) refl refl refl
