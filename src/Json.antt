-- ===== src/Json.antt =====
-- json11, as the platforms use it.
use dmproxy.Base.{Bytes, ℕ, List, Option, Bool, none, some}

-- The document that a text parses to, with `none` where `err` is not empty, and the reading of a
-- value. A member that is missing and an item of what is no array read as other values; the value
-- that a failed parse returns is `null`.
pub record JsonApi : Type 1 where
  pub Json : Type 0
  pub null : Json
  pub parse : Bytes → Option Json
  pub member : Json → Bytes → Json
  pub array_items : Json → List Json
  pub string_value : Json → Bytes
  pub is_number : Json → Bool
  pub is_string : Json → Bool
  pub int_value : Json → ℕ  -- the bit pattern of the `int`
  pub to_uint64 : Json → ℕ  -- `static_cast<uint64_t>(number_value())`
  pub print_fixed : Json → Bytes  -- `number_value()` printed fixed, with no decimals

-- `Json::parse(text, err)` where the caller goes on after an error.
abbrev pub parse_or_null : (j : JsonApi) → Bytes → j.Json
parse_or_null j text = elim (j.parse text) [ none ↦ j.null | some v ↦ v ]
