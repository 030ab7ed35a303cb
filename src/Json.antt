-- ===== src/Json.antt =====
-- What the service takes from the crate `serde_json`: its values as an interface, with the laws of
-- `get`, of indexed assignment to an object and of the readers that the theorems rely on.
pub mod Toy
use smooth_agent.Base.{ℕ, String, Bool, Option, none, some, List, string_eq, ◌≡◌}
use smooth_agent.Base.Dict.{Dict, get, insert}
use smooth_agent.Base.Int.{ℤ}
use smooth_agent.Base.Outcome.{Outcome}

pub record Json : Type 1 where
  pub Value : Type 0
  pub from_str : String → Outcome Value
  pub null : Value
  pub boolean : Bool → Value
  pub string : String → Value
  pub number : ℤ → Value
  -- A floating-point number, as it is written.
  pub literal : String → Value
  pub array : List Value → Value
  pub object : Dict String Value → Value
  pub field : Value → String → Option Value
  pub set_field : Value → String → Value → Value
  pub as_str : Value → Option String
  pub as_i64 : Value → Option ℤ
  pub as_u64 : Value → Option ℕ
  pub field-object :
      (fields : Dict String Value) (k : String) → field (object fields) k ≡ get fields k
  pub set_field-object :
      (fields : Dict String Value) (k : String) (v : Value)
      → set_field (object fields) k v ≡ object (insert fields k v)
  pub as_str-string : (s : String) → as_str (string s) ≡ some s

-- `value.get(k).and_then(Value::as_str)`, and the same for numbers.
abbrev pub str_field : (json : Json) → json.Value → String → Option String
str_field json v k = elim (json.field v k) [ none ↦ none | some w ↦ json.as_str w ]

abbrev pub i64_field : (json : Json) → json.Value → String → Option ℤ
i64_field json v k = elim (json.field v k) [ none ↦ none | some w ↦ json.as_i64 w ]

abbrev pub u64_field : (json : Json) → json.Value → String → Option ℕ
u64_field json v k = elim (json.field v k) [ none ↦ none | some w ↦ json.as_u64 w ]
