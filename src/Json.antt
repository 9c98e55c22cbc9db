-- ===== src/Json.antt =====
-- JSON columns and payloads: the values that the code types as `dict[str, Any]`.
use rumor_mill_ai.Prelude.{ℕ, String, Bool, Option, none, some, str_eq, if◌then◌else◌}

mutual
  pub data Json : Type 0 where
    null : Json
    bool : Bool → Json
    num : ℕ → Json
    str : String → Json
    arr : Items → Json
    obj : Fields → Json

  pub data Items : Type 0 where
    nil : Items
    cons : Json → Items → Items

  pub data Fields : Type 0 where
    end : Fields
    field : String → Json → Fields → Fields

-- `value.get(key)` of an object; nothing for what is no object.
abbrev pub get_field : String → Fields → Option Json
get_field key end = none
get_field key (field k v rest) = if str_eq k key then some v else get_field key rest

abbrev pub get : String → Json → Option Json
get key (obj fields) = get_field key fields
get key _ = none
