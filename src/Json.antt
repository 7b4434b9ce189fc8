-- ===== src/Json.antt =====
-- JSON values as the program reads them (serde_json::Value), and the operations of serde_json
-- that the program calls, as a record of functions with their documented laws.
use ai_engineering_boilerpla.Base.{
  ℕ, ◌<◌, ◌^◌, String, ◌≡◌, Bool, true, Option, none, some, List, [], ◌∷◌, ◌↔◌, ◌==◌, if◌then◌else◌,
}

-- serde_json::Value. A number is kept as its text: the program reads it only through `Json`.
mutual
  pub data Value : Type 0 where
    null : Value
    bool : Bool → Value
    number : String → Value
    string : String → Value
    array : Items → Value
    object : Fields → Value

  pub data Items : Type 0 where
    nil : Items
    cons : Value → Items → Items

  pub data Fields : Type 0 where
    end : Fields
    field : String → Value → Fields → Fields

-- A Vec<Value> and the elements of an array are the same lists.
unfoldable pub to_list : Items → List Value
to_list nil = []
to_list (cons x xs) = x ∷ to_list xs

unfoldable pub of_list : List Value → Items
of_list [] = nil
of_list (x ∷ xs) = cons x (of_list xs)

abbrev pub is_null : Value → Bool
is_null null = true
is_null _ = Bool.false

abbrev pub as_str : Value → Option String
as_str (string s) = some s
as_str _ = none

abbrev pub as_array : Value → Option Items
as_array (array xs) = some xs
as_array _ = none

-- `as_object_mut().expect(..)`: anything else panics.
abbrev pub as_object : Value → Option Fields
as_object (object m) = some m
as_object _ = none

-- The calls into serde_json and what its documentation says of them.
pub record Json : Type 0 where
  -- Map::get, Map::insert, Map::is_empty, Map::extend
  pub get : Fields → String → Option Value
  pub insert : Fields → String → Value → Fields
  pub is_empty : Fields → Bool
  pub extend : Fields → Fields → Fields
  -- Value::pointer, and == on values
  pub pointer : Value → String → Option Value
  pub value_eq : Value → Value → Bool
  -- Number::as_u64, and whether Number::as_f64 is a number other than zero
  pub as_u64 : String → Option ℕ
  pub is_nonzero : String → Bool
  pub get-end : (k : String) → get end k ≡ none
  pub get-insert :
      (m : Fields) (k j : String) (v : Value)
      → get (insert m k v) j ≡ (if k == j then some v else get m j)
  pub get-extend :
      (m n : Fields) (k : String)
      → get (extend m n) k ≡ elim (get n k) [ some v ↦ some v | none ↦ get m k ]
  pub as_u64_bound : (n : String) (v : ℕ) → as_u64 n ≡ some v → v < 2 ^ 64
  pub value_eq_iff : (v w : Value) → (value_eq v w ≡ true) ↔ (v ≡ w)

-- `Value::get` with a text: a field of an object.
abbrev pub value_get : Json → Value → String → Option Value
value_get J (object m) k = J.get m k
value_get J _ k = none
