-- ===== src/Json.antt =====
-- JSON values as `serde_json::Value` represents them, with the accessors that the services call:
-- `Value::get`, `as_str`, `as_i64`, `as_object`, `as_array` and `Map::insert`. Parsing and
-- printing belong to serde_json, and are parameters where they are used (`Codec`).
pub mod Laws
use aigis_zero.Prelude.{
  ℕ, ◌^◌, String, Bool, Option, none, some, List, [], ◌∷◌, Result, ltb, if◌then◌else◌, str_eq, ℤ,
  pos, negsuc,
}

-- `serde_json::Number`: a `u64`, a negative `i64`, or the bit pattern of an `f64`.
pub data Number : Type 0 where
  pos_int : ℕ → Number
  neg_int : ℕ → Number
  float : ℕ → Number

mutual
  pub data Value : Type 0 where
    null : Value
    bool : Bool → Value
    number : Number → Value
    string : String → Value
    array : Values → Value
    object : Fields → Value

  pub data Values : Type 0 where
    nil : Values
    cons : Value → Values → Values

  pub data Fields : Type 0 where
    end : Fields
    field : String → Value → Fields → Fields

abbrev pub values : Values → List Value
values nil = []
values (cons v vs) = v ∷ values vs

-- `Map::get`
unfoldable pub get_field : String → Fields → Option Value
get_field k end = none
get_field k (field j v fs) = if str_eq j k then some v else get_field k fs

-- `Map::insert`: a key is replaced in place, or added.
unfoldable pub insert : String → Value → Fields → Fields
insert k v end = field k v end
insert k v (field j w fs) = if str_eq j k then field j v fs else field j w (insert k v fs)

-- `Value::get(key)`, which is `None` on anything but an object.
unfoldable pub get : String → Value → Option Value
unfolding get_field
get k (object fs) = get_field k fs
get k null = none
get k (bool b) = none
get k (number n) = none
get k (string s) = none
get k (array vs) = none

abbrev pub as_str : Value → Option String
as_str (string s) = some s
as_str null = none
as_str (bool b) = none
as_str (number n) = none
as_str (array vs) = none
as_str (object fs) = none

-- A `u64` above `i64::MAX` and a float are no `i64`.
abbrev pub number_as_i64 : Number → Option ℤ
number_as_i64 (pos_int n) = if ltb n (2 ^ 63) then some (pos n) else none
number_as_i64 (neg_int n) = some (negsuc n)
number_as_i64 (float b) = none

abbrev pub as_i64 : Value → Option ℤ
as_i64 (number n) = number_as_i64 n
as_i64 null = none
as_i64 (bool b) = none
as_i64 (string s) = none
as_i64 (array vs) = none
as_i64 (object fs) = none

abbrev pub as_object : Value → Option Fields
as_object (object fs) = some fs
as_object null = none
as_object (bool b) = none
as_object (number n) = none
as_object (string s) = none
as_object (array vs) = none

abbrev pub as_array : Value → Option (List Value)
as_array (array vs) = some (values vs)
as_array null = none
as_array (bool b) = none
as_array (number n) = none
as_array (string s) = none
as_array (object fs) = none

abbrev pub Bytes : Type 0
Bytes = List ℕ

-- `serde_json::from_slice::<Value>` and `serde_json::to_vec`, with the text of an error.
pub record Codec : Type 0 where
  pub from_slice : Bytes → Result String Value
  pub to_vec : Value → Result String Bytes
