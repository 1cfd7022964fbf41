-- ===== src/Core/Json/Reference.antt =====
-- JSON values as data, for the examples: an instance of what the models take of `serde_json`. Floats
-- are whole numbers, and what the parser knows is given.
use moaray.Base.{ℕ, ◌≡◌, refl, Bool, true, false, String, Option, none, some, List, [], ◌∷◌, arith}
use moaray.Base.Int.{ℤ, pos}
use moaray.Base.Dict
use moaray.Base.Dict.{Dict}
use moaray.Core.Json.{Json}

mutual
  pub data Value : Type 0 where
    null : Value
    boolean : Bool → Value
    text : String → Value
    number : ℤ → Value
    float : ℕ → Value
    sequence : Items → Value
    table : Fields → Value

  pub data Items : Type 0 where
    nil : Items
    item : Value → Items → Items

  pub data Fields : Type 0 where
    end : Fields
    entry : String → Value → Fields → Fields

abbrev pub to_dict : Fields → Dict Value
to_dict end = []
to_dict (entry k v fs) = (k, v) ∷ to_dict fs

abbrev pub of_dict : Dict Value → Fields
of_dict [] = end
of_dict ((k, v) ∷ m) = entry k v (of_dict m)

pub to_dict-of_dict : (m : Dict Value) → to_dict (of_dict m) ≡ m
to_dict-of_dict [] = refl
to_dict-of_dict ((k, v) ∷ m) = ground (arith, to_dict-of_dict m)

abbrev pub to_list : Items → List Value
to_list nil = []
to_list (item v vs) = v ∷ to_list vs

abbrev pub of_list : List Value → Items
of_list [] = nil
of_list (v ∷ vs) = item v (of_list vs)

pub to_list-of_list : (vs : List Value) → to_list (of_list vs) ≡ vs
to_list-of_list [] = refl
to_list-of_list (v ∷ vs) = ground (arith, to_list-of_list vs)

abbrev pub text_of : Value → Option String
text_of (text s) = some s
text_of _ = none

abbrev pub number_of : Value → Option ℤ
number_of (number z) = some z
number_of _ = none

abbrev pub natural_of : Value → Option ℕ
natural_of (number (pos n)) = some n
natural_of _ = none

abbrev pub float_of : Value → Option ℕ
float_of (float x) = some x
float_of _ = none

abbrev pub flag_of : Value → Option Bool
flag_of (boolean b) = some b
flag_of _ = none

abbrev pub is_null_of : Value → Bool
is_null_of null = true
is_null_of _ = false

abbrev pub fields_of : Value → Option (Dict Value)
fields_of (table fs) = some (to_dict fs)
fields_of _ = none

abbrev pub items_of : Value → Option (List Value)
items_of (sequence vs) = some (to_list vs)
items_of _ = none

unfoldable pub field_of : Value → String → Option Value
field_of (table fs) k = Dict.get (to_dict fs) k
field_of _ k = none

pub field_of-table : (m : Dict Value) (k : String) → field_of (table (of_dict m)) k ≡ Dict.get m k
unfolding field_of
field_of-table m k = ground (arith, to_dict-of_dict m)

pub fields_of-table : (m : Dict Value) → fields_of (table (of_dict m)) ≡ some m
fields_of-table m = ground (arith, to_dict-of_dict m)

pub items_of-sequence : (vs : List Value) → items_of (sequence (of_list vs)) ≡ some vs
items_of-sequence vs = ground (arith, to_list-of_list vs)

abbrev pub reference : (String → Option Value) → Json
reference known = record {
  Value = Value;
  Float = ℕ;
  string = text;
  as_str = text_of;
  field = field_of;
  object = λ m. table (of_dict m);
  as_object = fields_of;
  from_i64 = number;
  as_i64 = number_of;
  to_string = λ v. "{}";
  null = null;
  is_null = is_null_of;
  boolean = boolean;
  as_bool = flag_of;
  array = λ vs. sequence (of_list vs);
  as_array = items_of;
  from_u64 = λ n. number (pos n);
  as_u64 = natural_of;
  from_f64 = float;
  as_f64 = float_of;
  parse = known;
  as_i64-from_i64 = λ z f. refl;
  as_u64-from_u64 = λ n l. refl;
  as_object-object = fields_of-table;
  field-object = field_of-table;
  as_str-string = λ s. refl;
  as_array-array = items_of-sequence;
}
