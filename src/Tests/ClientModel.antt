-- ===== src/Tests/ClientModel.antt =====
-- A concrete client of Tool Service, which meets the laws that the models rely on.
use ai_engineering_boilerpla.Base.{
  String, ◌≡◌, refl, ◌∙◌, ap, none, some, List, [], ◌∷◌, map, Any, here, there, get_or,
}
use ai_engineering_boilerpla.Base.Results.{Result, ok, err, ◌>>=◌, >>=-eq-ok, of_ok_eq}
use ai_engineering_boilerpla.Json.{Value, null, string, object}
use ai_engineering_boilerpla.EngineCore.LlmOutput.{ToolCall}
use ai_engineering_boilerpla.Engine.ToolNode.{Client, CallOutcome}
use ai_engineering_boilerpla.Tests.JsonModel.{json, serde, lookup}

-- The first error in order is the one that is reported.
unfoldable pub joined : List (Result String CallOutcome) → Result String (List CallOutcome)
joined [] = ok []
joined (err e ∷ rs) = err e
joined (ok o ∷ rs) = joined rs >>= λ os. ok (o ∷ os)

pub joined-ok : (values : List CallOutcome) → joined (map ok values) ≡ ok values
unfolding joined
joined-ok [] = refl
joined-ok (o ∷ os) = rw (joined-ok os) refl

pub joined_ended :
    (rs : List (Result String CallOutcome)) (values : List CallOutcome)
    → joined rs ≡ ok values
    → rs ≡ map ok values
unfolding joined
joined_ended [] values h = ap (map ok) (of_ok_eq h)
joined_ended (err e ∷ rs) values h = cc
joined_ended (ok o ∷ rs) values h =
    let (os, rest, same) = >>=-eq-ok (joined rs) (λ os. ok (o ∷ os)) {end = values} h in
    ap (λ t. ok o ∷ t) (joined_ended rs os rest) ∙ ap (map ok) (of_ok_eq same)

rest_failed :
    (o : CallOutcome) (r : Result String (List CallOutcome)) (e : String)
    → (r >>= λ os. ok (o ∷ os)) ≡ err e
    → r ≡ err e
rest_failed o (err f) e h = cc
rest_failed o (ok os) e h = cc

pub joined_failed :
    (rs : List (Result String CallOutcome)) (e : String)
    → joined rs ≡ err e
    → Any (λ r. r ≡ err e) rs
unfolding joined
joined_failed [] e h = cc
joined_failed (err f ∷ rs) e h = here h'
  where
    h' : ◌≡◌ {A = Result String CallOutcome} (err f) (err e)
    h' = cc
joined_failed (ok o ∷ rs) e h = there (joined_failed rs e (rest_failed o (joined rs) e h))

unfoldable pub read_tool_call : Value → Result String ToolCall
unfolding lookup
read_tool_call (object m) = elim (lookup m "name") [
  | some (string name) ↦ ok (record { name = name; args = get_or null (lookup m "args") })
  | _ ↦ err "missing field name"
]
read_tool_call v = err "not a map"

-- A client with the given parser of texts.
abbrev pub client_reading : (String → Result String Value) → Client
client_reading from_text = record {
  read_input = λ v. none;
  read_call = read_tool_call;
  write_calls = λ calls. null;
  from_text = from_text;
  to_text = λ v. "{}";
  decimal = λ n. "3";
  try_join_all = joined;
  try_join_all-ok = joined-ok;
  try_join_all_ended = joined_ended;
  try_join_all_failed = joined_failed;
}
