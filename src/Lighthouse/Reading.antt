-- ===== src/Lighthouse/Reading.antt =====
-- What the pipeline reads of JSON definitions and payloads
-- (src/rumor_mill/engine/lighthouse_pipeline.py). A key that is missing raises `key_error`; to
-- iterate over what is no list raises `type_error`.
use rumor_mill_ai.Prelude.{
  ℕ, ◌+◌, ◌*◌, String, Bool, true, false, Option, none, some, List, [], ◌∷◌, ◌++◌, Result, ok,
  raise, ◌>>=◌, key_error, type_error, value_error,
}
use rumor_mill_ai.Json.{Json, Items, get}

-- `time.fromisoformat`'s result.
pub record Time : Type 0 where
  pub hour : ℕ
  pub minute : ℕ
  pub second : ℕ
  pub microsecond : ℕ
  pub has_tzinfo : Bool

-- `time.fromisoformat`, nothing where it raises ValueError; `int` of a text; `str` of a value that
-- is no text; the printing of run identifiers.
pub record Formats : Type 0 where
  pub fromisoformat : String → Option Time
  pub parse_int : String → Result ℕ
  pub print_json : Json → String
  pub print_id : ℕ → String

-- `value[key]`
abbrev pub require : String → Json → Result Json
require key value = elim (get key value) [ none ↦ raise key_error | some v ↦ ok v ]

abbrev pub to_list : Items → List Json
to_list Items.nil = []
to_list (Items.cons j js) = j ∷ to_list js

-- The items of a list.
abbrev pub elements : Json → Result (List Json)
elements (Json.arr js) = ok (to_list js)
elements _ = raise type_error

-- `value.get(key, [])`
abbrev pub get_list : String → Json → Result (List Json)
get_list key value = elim (get key value) [ none ↦ ok [] | some v ↦ elements v ]

-- `definition.get("beat_graph", {}).get("beats", [])`
unfoldable pub beats_of : Json → Result (List Json)
beats_of definition = elim (get "beat_graph" definition) [
  | none ↦ ok []
  | some graph ↦ get_list "beats" graph
]

-- `definition.get("routines", [])`
unfoldable pub routines_of : Json → Result (List Json)
routines_of definition = get_list "routines" definition

-- A loop that appends a list for each item.
abbrev pub collect : {A B : Type 0} → (A → Result (List B)) → List A → Result (List B)
collect f [] = ok []
collect f (x ∷ xs) = f x >>= λ new. collect f xs >>= λ rest. ok (new ++ rest)

-- A JSON number, or a Boolean, which Python counts as one.
abbrev pub is_number : Json → Bool
is_number (Json.num n) = true
is_number (Json.bool b) = true
is_number _ = false

abbrev pub number : Json → ℕ
number (Json.num n) = n
number (Json.bool b) = elim b [ true ↦ 1 | false ↦ 0 ]
number _ = 0

module _ (fmt : Formats) where
  -- `str(value)`
  abbrev pub as_text : Json → String
  as_text (Json.str s) = s
  as_text value = fmt.print_json value

  -- `int(value)`
  abbrev pub as_int : Json → Result ℕ
  as_int (Json.num n) = ok n
  as_int (Json.bool b) = ok (number (Json.bool b))
  as_int (Json.str s) = fmt.parse_int s
  as_int _ = raise type_error

  abbrev pub offset_of : Time → Result ℕ
  offset_of parsed = elim parsed.has_tzinfo [
    | true ↦ raise (value_error "routine start_time must not include a UTC offset")
    | false ↦
        ok
          (((parsed.hour * 60 + parsed.minute) * 60 + parsed.second) * 1000000 + parsed.microsecond)
  ]

  -- `_routine_offset`; a RoutineTimeError is a ValueError.
  unfoldable pub routine_offset : Option Json → Result ℕ
  routine_offset (some (Json.str value)) = elim (fmt.fromisoformat value) [
    | none ↦ raise (value_error "routine start_time must be a valid ISO local time")
    | some parsed ↦ offset_of parsed
  ]
  routine_offset _ = raise (value_error "routine start_time must be an ISO local time string")
