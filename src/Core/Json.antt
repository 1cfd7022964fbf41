-- ===== src/Core/Json.antt =====
-- What the source uses of `serde_json::Value` and of `f64`, which are not its own code.
pub mod Reference
use moaray.Base.{ℕ, ◌^◌, ◌<◌, String, ◌≡◌, Bool, Option, some, List}
use moaray.Base.Int.{ℤ, Fits}
use moaray.Base.Dict
use moaray.Base.Dict.{Dict}

pub record Json : Type 1 where
  pub Value : Type 0
  pub Float : Type 0
  -- `Value::String`, and the text of a value of that form
  pub string : String → Value
  pub as_str : Value → Option String
  -- `Value::get` at a key
  pub field : Value → String → Option Value
  -- `Value::Object`, and the fields of a value of that form
  pub object : Dict Value → Value
  pub as_object : Value → Option (Dict Value)
  -- `Value::from(i64)`, and the number of a value that holds an `i64`
  pub from_i64 : ℤ → Value
  pub as_i64 : Value → Option ℤ
  -- `Value::to_string`, compact JSON
  pub to_string : Value → String
  -- `Value::Null`, `Value::Bool`, `Value::Array`, and numbers of the other two kinds
  pub null : Value
  pub is_null : Value → Bool
  pub boolean : Bool → Value
  pub as_bool : Value → Option Bool
  pub array : List Value → Value
  pub as_array : Value → Option (List Value)
  pub from_u64 : ℕ → Value
  pub as_u64 : Value → Option ℕ
  pub from_f64 : Float → Value
  pub as_f64 : Value → Option Float
  -- `serde_json::from_str`
  pub parse : String → Option Value
  pub as_i64-from_i64 : (z : ℤ) → Fits 64 z → as_i64 (from_i64 z) ≡ some z
  pub as_u64-from_u64 : (n : ℕ) → n < 2 ^ 64 → as_u64 (from_u64 n) ≡ some n
  pub as_object-object : (m : Dict Value) → as_object (object m) ≡ some m
  pub field-object : (m : Dict Value) (k : String) → field (object m) k ≡ Dict.get m k
  pub as_str-string : (s : String) → as_str (string s) ≡ some s
  pub as_array-array : (xs : List Value) → as_array (array xs) ≡ some xs
