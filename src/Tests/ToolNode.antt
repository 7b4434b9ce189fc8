-- ===== src/Tests/ToolNode.antt =====
-- The theorems on tool nodes at concrete runs.
use ai_engineering_boilerpla.Base.{
  true, String, ◌≡◌, ◌≢◌, ◌↔◌, refl, none, some, List, [], ◌∷◌, map, flatten, arith, inl, eq_iff,
  ◌==◌, if◌then◌else◌,
}
use ai_engineering_boilerpla.Base.Results.{Result, ok, err}
use ai_engineering_boilerpla.Json.{
  Value, null, string, array, object, nil, cons, end, field, of_list,
}
use ai_engineering_boilerpla.EngineCore.LlmOutput.{
  ToolRecord, ToolCall, all_under, tool_result_state_key, made_in_the_same_step_as,
}
use ai_engineering_boilerpla.EngineCore.LlmOutput.Shown.{IsOneStep}
use ai_engineering_boilerpla.EngineCore.State.{reduce}
use ai_engineering_boilerpla.Engine.Nodes.{IdempotencyKey}
use ai_engineering_boilerpla.Engine.ToolNode.{
  Client, ToolService, succeeded, failed_at_source, requested_calls, execute,
  recoverable_unless_the_run_is_too_long, nothing_reached_its_source,
}
use ai_engineering_boilerpla.Engine.ToolNode.Steps.{AreSteps}
use ai_engineering_boilerpla.Engine.ToolNode.Records.{IsReport, execute-ok}
use ai_engineering_boilerpla.Engine.ToolNode.Grows.{stored}
use ai_engineering_boilerpla.Engine.ToolNode.GivesUp.{
  TwoFailed, recoverable-TwoFailed, third_failure,
}
use ai_engineering_boilerpla.Tests.ClientModel.{client_reading, joined, read_tool_call}
use ai_engineering_boilerpla.Tests.JsonModel.{
  json, serde, lookup, store, parsed_output, parsed, written,
}

abbrev client : Client
client = client_reading (λ t. ok (string t))

-- The search is down; every other tool answers with its name.
abbrev tools : ToolService
tools r = ok (record {
  status = if r.slug == "search" then some failed_at_source else some succeeded;
  output_json = r.slug;
  error_message = "down";
})

abbrev call_named : String → Value
call_named name = object (field "name" (string name) end)

abbrev asking : Value
asking = object (
    field "llm"
      (object (
        field "tool_call" (array (cons (call_named "search") (cons (call_named "clock") nil))) end))
      end)

abbrev step : IdempotencyKey
step = record { execution = "x"; node = "tools"; iteration = 4 }

abbrev config : Value
config = object end

abbrev noon : String
noon = "noon"

abbrev value_of : Result String Value → Value
value_of (ok v) = v
value_of (err e) = null

abbrev answer : Value
answer = value_of (execute json serde client tools config asking step noon)

noon_named : noon ≢ ""
noon_named = ground (arith, eq_iff noon "")

answers : execute json serde client tools config asking step noon ≡ ok answer
unfolding execute lookup parsed_output read_tool_call joined store
answers = refl

execute-ok_example :
    (cs : List ToolCall) × (rs : List ToolRecord) × (requested_calls json serde client config asking
      ≡ ok cs)
    × IsReport json serde client tools step noon cs rs
    × IsOneStep rs
    × (answer ≡ array (of_list (map serde.write_record rs)))
execute-ok_example =
    execute-ok json serde client tools step noon config asking answer noon_named answers

abbrev record_at : String → String → ToolRecord
record_at name time = record {
  name = name;
  args = null;
  result = object (field "error" (string "down") end);
  fetched_at = time;
}

abbrev step_at : String → List ToolRecord
step_at time = record_at "search" time ∷ record_at "clock" time ∷ []

abbrev history : List (List ToolRecord)
history = step_at "one" ∷ step_at "two" ∷ []

abbrev remembered : Value
remembered = object (stored json serde (stored json serde end (step_at "one")) (step_at "two"))

reads : all_under json serde remembered tool_result_state_key ≡ flatten history
unfolding all_under stored lookup store parsed written reduce
reads = refl

apart : AreSteps made_in_the_same_step_as history
unfolding made_in_the_same_step_as
apart = ((refl, tt), refl, ((refl, tt), tt, tt))

no_records : json.get end tool_result_state_key ≡ none
unfolding lookup
no_records = refl

none_read : all_under json serde (object end) tool_result_state_key ≡ []
unfolding all_under lookup
none_read = refl

none_reached : (time : String) → nothing_reached_its_source json serde client (step_at time) ≡ true
unfolding nothing_reached_its_source lookup
none_reached time = refl

recoverable-TwoFailed_example :
    ((e : String) × (recoverable_unless_the_run_is_too_long json serde client remembered
          (step_at noon)
        ≡ err e))
    ↔ ((nothing_reached_its_source json serde client (step_at noon) ≡ true)
        × TwoFailed json serde client history)
recoverable-TwoFailed_example =
    recoverable-TwoFailed json serde client remembered (step_at noon) history reads apart

third_failure_example :
    (e : String) × (recoverable_unless_the_run_is_too_long json serde client remembered
        (step_at noon)
      ≡ err e)
third_failure_example =
    third_failure json serde client end [] (step_at "one") (step_at "two") (step_at noon)
      (inl no_records) none_read apart (none_reached "one") (none_reached "two") (none_reached noon)
