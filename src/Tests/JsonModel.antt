-- ===== src/Tests/JsonModel.antt =====
-- A concrete store of JSON values, which meets the laws that the models rely on.
use Prim.Native.Char.{code}
use mathlib.Core.Bool.{false≢true}
use mathlib.Core.Logic.{ite}
use ai_engineering_boilerpla.Base.{
  ℕ, ◌+◌, ◌*◌, ◌-◌, ◌^◌, ◌<◌, String, ◌≡◌, refl, sym, ◌∙◌, ◌↔◌, Bool, true, false, not, Option,
  none, some, List, [], ◌∷◌, ◌>>=◌, get_or, ◌==◌, eq_iff, eqb, ltb, if◌then◌else◌, arith,
}
use ai_engineering_boilerpla.Json.{Json, Value, Fields, null, string, object, end, field, as_str}
use ai_engineering_boilerpla.EngineCore.State.{Reducer, replace, append, append_each, merge}
use ai_engineering_boilerpla.EngineCore.LlmOutput.{Serde, ToolRecord, LlmOutput}

unfoldable pub lookup : Fields → String → Option Value
lookup end k = none
lookup (field j v m) k = if j == k then some v else lookup m k

unfoldable pub store : Fields → String → Value → Fields
store end k v = field k v end
store (field j w m) k v = if j == k then field k v m else field j w (store m k v)

unfoldable pub store_all : Fields → Fields → Fields
unfolding store
store_all m end = m
store_all m (field k v n) = store (store_all m n) k v

pub lookup-store :
    (m : Fields) (k j : String) (v : Value)
    → lookup (store m k v) j ≡ (if k == j then some v else lookup m j)
unfolding lookup store
lookup-store end k j v = refl
lookup-store (field i w m) k j v =
    ground (arith, eq_iff k j, eq_iff i k, eq_iff i j, lookup-store m k j v)

pub lookup-store_all :
    (m n : Fields) (k : String)
    → lookup (store_all m n) k ≡ elim (lookup n k) [ some v ↦ some v | none ↦ lookup m k ]
unfolding lookup store_all
lookup-store_all m end k = refl
lookup-store_all m (field j v n) k =
    ground (arith, lookup-store (store_all m n) j k v, lookup-store_all m n k)

-- The segments of a pointer, and what stands before its first slash.
unfoldable pub segments : String → String × List String
segments String.[] = ("", [])
segments (String.◌∷◌ c s) =
    let (current, rest) = segments s in
    if eqb (code c) b'/' then ("", current ∷ rest) else (String.◌∷◌ c current, rest)

unfoldable pub walk : List String → Value → Option Value
unfolding lookup
walk [] v = some v
walk (k ∷ ks) (object m) = lookup m k >>= walk ks
walk (k ∷ ks) v = none

unfoldable pub follow : Value → String → Option Value
unfolding segments walk
follow v p = let (current, rest) = segments p in if current == "" then walk rest v else none

unfoldable pub decimal : ℕ → String → ℕ
decimal n String.[] = n
decimal n (String.◌∷◌ c s) = decimal (n * 10 + (code c - 48)) s

unfoldable pub to_u64 : String → Option ℕ
unfolding decimal
to_u64 n = if ltb (decimal 0 n) (2 ^ 64) then some (decimal 0 n) else none

pub to_u64_bound : (n : String) (v : ℕ) → to_u64 n ≡ some v → v < 2 ^ 64
unfolding to_u64
to_u64_bound n v h = ground arith

unfoldable pub String-discrete : Discrete String
String-discrete a b = by_test (a == b) refl
  where
    by_test : (t : Bool) → (a == b) ≡ t → Dec (a ≡ b)
    by_test true e = yes ((eq_iff a b).0 e)
    by_test false e = no (λ p. false≢true (sym e ∙ (eq_iff a b).1 p))

unfoldable pub Value-discrete : Discrete Value
unfolding String-discrete
Value-discrete = hlevel String-discrete

unfoldable pub no_fields : Fields → Bool
no_fields end = true
no_fields (field k v m) = false

unfoldable pub same_value : Value → Value → Bool
unfolding Value-discrete
same_value v w = ite (Value-discrete v w) true false

ite_iff : {A : Type 0} (d : Dec A) → (ite d true false ≡ true) ↔ A
ite_iff (yes p) = ((λ _. p), (λ _. refl))
ite_iff (no n) = ((λ h. cc), (λ p. absurd (n p)))

pub same_value_iff : (v w : Value) → (same_value v w ≡ true) ↔ (v ≡ w)
unfolding same_value
same_value_iff v w = ite_iff (Value-discrete v w)

pub lookup-end : (k : String) → lookup end k ≡ none
unfolding lookup
lookup-end k = refl

instance abbrev pub json : Json
json = record {
  get = lookup;
  insert = store;
  is_empty = no_fields;
  extend = store_all;
  pointer = follow;
  value_eq = same_value;
  as_u64 = to_u64;
  is_nonzero = λ n. not (n == "0");
  get-end = lookup-end;
  get-insert = lookup-store;
  get-extend = lookup-store_all;
  as_u64_bound = to_u64_bound;
  value_eq_iff = same_value_iff;
}

-- The unit variants of an enum are written as their names, and a record field by field.
unfoldable pub reducer_name : Reducer → Value
reducer_name replace = string "Replace"
reducer_name append = string "Append"
reducer_name append_each = string "AppendEach"
reducer_name merge = string "Merge"

unfoldable pub named_reducer : Value → Option Reducer
named_reducer (string s) =
    if s == "Replace"
    then some replace
    else if s == "Append"
    then some append
    else if s == "AppendEach"
    then some append_each
    else if s == "Merge"
    then some merge
    else none
named_reducer v = none

pub named_reducer-reducer_name : (r : Reducer) → named_reducer (reducer_name r) ≡ some r
unfolding named_reducer reducer_name
named_reducer-reducer_name replace = refl
named_reducer-reducer_name append = refl
named_reducer-reducer_name append_each = refl
named_reducer-reducer_name merge = refl

unfoldable pub written : ToolRecord → Value
written r = object (
    field "name" (string r.name) (
      field "args" r.args (field "result" r.result (field "fetched_at" (string r.fetched_at) end))))

unfoldable pub parsed : Value → Option ToolRecord
unfolding lookup
parsed (object m) = do
  name ← lookup m "name" >>= as_str
  result ← lookup m "result"
  some (record {
    name = name;
    args = get_or null (lookup m "args");
    result = result;
    fetched_at = get_or "" (lookup m "fetched_at" >>= as_str);
  })
parsed v = none

pub parsed-written : (r : ToolRecord) → parsed (written r) ≡ some r
unfolding parsed written
parsed-written r = refl

unfoldable pub parsed_output : Value → Option LlmOutput
unfolding lookup
parsed_output (object m) = some (record {
  tool_call = get_or null (lookup m "tool_call");
  reply = get_or null (lookup m "reply");
})
parsed_output v = none

instance abbrev pub serde : Serde
serde = record {
  read_reducer = named_reducer;
  read_record = parsed;
  write_record = written;
  read_output = parsed_output;
  write_reducer = reducer_name;
  read-write_reducer = named_reducer-reducer_name;
  read-write = parsed-written;
}
