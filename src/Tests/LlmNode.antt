-- ===== src/Tests/LlmNode.antt =====
-- The theorems on llm nodes at concrete runs.
use ai_engineering_boilerpla.Base.{
  ℕ, ◌+◌, ◌≤◌, String, ◌≡◌, refl, true, false, none, some, [], ◌∷◌, if◌then◌else◌, ◌==◌, ltb, leb,
}
use ai_engineering_boilerpla.Base.Results.{Result, ok, err}
use ai_engineering_boilerpla.Json.{
  Value, Fields, null, bool, string, number, array, object, nil, cons, end, field,
}
use ai_engineering_boilerpla.EngineCore.LlmOutput.{ToolRecord, ToolCall, LlmOutput}
use ai_engineering_boilerpla.Engine.Nodes.{IdempotencyKey}
use ai_engineering_boilerpla.Engine.ToolNode.{Client, succeeded}
use ai_engineering_boilerpla.Engine.LlmNode.{
  Services, LlmSerde, LlmNodeConfig, CatalogEntry, CompleteRequest, DecideResponse, Answer, Given,
  choice, noul, from_material,
}
use ai_engineering_boilerpla.Engine.LlmNode.Reply.{reply_to_check}
use ai_engineering_boilerpla.Engine.LlmNode.Material.{
  Material, shown, truncated_to, truncation_mark, char_count,
  max_chars_of_tool_results_shown_at_once, only_what_was_carried_and_is_still_fresh,
}
use ai_engineering_boilerpla.Engine.LlmNode.Material.Budget.{allowed, shown-allowed}
use ai_engineering_boilerpla.Engine.LlmNode.Prompt.{complete_request_for}
use ai_engineering_boilerpla.Engine.LlmNode.Spans.{Words, spans}
use ai_engineering_boilerpla.Engine.LlmNode.Spans.Offered.{AreSpans, spans-AreSpans}
use ai_engineering_boilerpla.Engine.LlmNode.Choice.{
  fast_tool_call, path_for, chosen_path, dispatched_or_composed,
}
use ai_engineering_boilerpla.Engine.LlmNode.Choice.Dispatched.{IsDispatched, path_for-IsDispatched}
use ai_engineering_boilerpla.Engine.LlmNode.Checked.{complete_with_retries, or_again, faults_of}
use ai_engineering_boilerpla.Engine.LlmNode.Run.{parse_config}
use ai_engineering_boilerpla.Engine.LlmNode.Run.Speaks.{Vetted}
use ai_engineering_boilerpla.Engine.LlmNode.Run.Paths.{
  run_llm_node, answer_from_material, configured, unless_fast,
}
use ai_engineering_boilerpla.Engine.LlmNode.Run.Grounded.{run_llm_node-Vetted}
use ai_engineering_boilerpla.Engine.LlmNode.Run.Unchecked.{
  SaysAndCalls, answer_from_material-unchecked,
}
use ai_engineering_boilerpla.Tests.ClientModel.{client_reading}
use ai_engineering_boilerpla.Tests.JsonModel.{json, serde, lookup, store}

-- The tool weather has one required argument, the place, which a message may name.
abbrev place : Value
place = object (field "type" (string "string") (field "x-value-in-message" (bool true) end))

abbrev weather_schema : Value
weather_schema = object (
    field "required" (array (cons (string "place") nil))
      (field "properties" (object (field "place" place end)) end))

abbrev client : Client
client = client_reading (λ t. ok weather_schema)

abbrev weather : CatalogEntry
weather = record {
  name = "weather";
  title = "The weather";
  description = "what the weather is";
  input_schema_json = "schema";
}

abbrev plain_config : LlmNodeConfig
plain_config = record { system_prompt = none; tool_calling = false; available_tools = weather ∷ [] }

-- The ranks of the numbers that occur.
abbrev rank : String → ℕ
rank n = if n == "0.1" then 1 else if n == "0.5" then 5 else if n == "0.6" then 6 else 9

abbrev said : String → Value → LlmOutput
said reply call = record { tool_call = call; reply = string reply }

abbrev written_output : LlmOutput → Value
written_output o = object (field "tool_call" o.tool_call (field "reply" o.reply end))

abbrev llm_serde : LlmSerde json
llm_serde = record {
  read_config = λ v. ok plain_config;
  read_output_text =
      λ t. if t == "both" then some (said "29" (string "weather")) else some (said "29" null);
  read_output_prefix = λ t. none;
  write_output = written_output;
  readable_state = λ v. true;
  readable_instructions = λ v. true;
  from_u64 = λ n. "7";
  read_time = λ t. some 100;
  write_time = λ n. "later";
  less = λ a b. ltb (rank a) (rank b);
  at_most = λ a b. leb (rank a) (rank b);
}

abbrev words : Words
words = record {
  split_whitespace = λ t. "weather" ∷ "in" ∷ "Tokyo" ∷ [];
  trimmed_to_alphanumeric = λ t. t;
  eq_ignore_ascii_case = λ a b. a == b;
  trim = λ t. t;
  contains_line_feed = λ t. false;
}

abbrev given : String → Given → Answer
given id g = record { id = id; answer = some g }

abbrev sure : String → Given
sure c = choice (record { choice = c; confidence = "0.9" })

abbrev decided : DecideResponse
decided = record {
  answers =
      given "promise" (noul "0.1")
      ∷ given "grounded" (noul "0.9")
      ∷ given "tool" (sure "weather")
      ∷ given "value::weather" (sure "Tokyo")
      ∷ given "stated::weather" (noul "0.9")
      ∷ given "one_only::weather" (noul "0.9")
      ∷ [];
  tokens_in = 1;
  tokens_out = 2;
}

-- The world counts the calls. The model says what `content` is.
abbrev services : String → Services ℕ
services content = record {
  complete = λ r w. (ok (record { content = content; tokens_in = 3; tokens_out = 4 }), w + 1);
  decide = λ r w. (ok decided, w + 1);
  execute = λ r w.
      (ok (record { status = some succeeded; output_json = "29"; error_message = "" }), w + 1);
  clock = λ w. 200;
}

abbrev broken : Services ℕ
broken = record {
  complete = λ r w. (err "down", w + 1);
  decide = λ r w. (err "down", w + 1);
  execute = λ r w. (err "down", w + 1);
  clock = λ w. 200;
}

abbrev tools_node : IdempotencyKey
tools_node = record { execution = "x"; node = "llm"; iteration = 0 }

abbrev empty_state : Value
empty_state = object end

abbrev record_of_weather : ToolRecord
record_of_weather = record {
  name = "weather";
  args = null;
  result = object (field "temperature" (number "29") end);
  fetched_at = "earlier";
}

abbrev earlier : Material
earlier = record { carried = record_of_weather ∷ []; fetched = [] }

spans-AreSpans_example : AreSpans words (spans words "weather in Tokyo")
spans-AreSpans_example = spans-AreSpans words "weather in Tokyo"

shown-allowed_example :
    (allowed (shown earlier) ≤ max_chars_of_tool_results_shown_at_once)
    × ((text : String) (n : ℕ) → char_count (truncated_to text n) ≤ n + char_count truncation_mark)
shown-allowed_example = shown-allowed earlier

abbrev tokyo : ToolCall
tokyo = record { name = "weather"; args = object (field "place" (string "Tokyo") end) }

abbrev spent : Value
spent = object (
    field "usage" (object (field "tokens_in" (number "7") (field "tokens_out" (number "7") end)))
      end)

chosen_path_of :
    path_for json client llm_serde words decided (weather ∷ []) "weather in Tokyo"
    ≡ fast_tool_call tokyo spent
unfolding path_for chosen_path dispatched_or_composed lookup store
chosen_path_of = refl

path_for-IsDispatched_example :
    IsDispatched json client llm_serde words (weather ∷ []) "weather in Tokyo" decided.answers tokyo
path_for-IsDispatched_example =
    path_for-IsDispatched json client llm_serde words decided (weather ∷ []) "weather in Tokyo"
      tokyo spent chosen_path_of

abbrev request : CompleteRequest
request = record { system_prompt = []; user_prompt = "weather in Tokyo"; json_object = false }

abbrev answer_of_run : Result String Value × ℕ → Value
answer_of_run (ok v, w) = v
answer_of_run (err e, w) = null

abbrev run : Result String Value × ℕ
run =
    run_llm_node json serde client llm_serde words (services "answer") empty_state empty_state
      tools_node 0

runs : run ≡ (ok (answer_of_run run), 2)
unfolding run_llm_node configured unless_fast or_again lookup store faults_of
runs = refl

says : reply_to_check json llm_serde (answer_of_run run) ≡ some "29"
unfolding run_llm_node reply_to_check configured unless_fast or_again lookup store faults_of
says = refl

run_llm_node-Vetted_example :
    (c : LlmNodeConfig) × (parse_config json serde client llm_serde words empty_state ≡ ok c)
    × Vetted json serde client llm_serde words (services "answer") c empty_state "29"
run_llm_node-Vetted_example =
    run_llm_node-Vetted json serde client llm_serde words (services "answer") empty_state
      empty_state tools_node 0 2 (answer_of_run run) "29" runs says

-- The model says and calls at once.
abbrev both : Fields
both = field "tool_call" (string "weather") (
    field "reply" (string "29") (
      field "usage" (object (field "tokens_in" (number "7") (field "tokens_out" (number "7") end)))
        end))

fresh_enough :
    (only_what_was_carried_and_is_still_fresh json serde llm_serde earlier 200).carried
    ≡ record_of_weather ∷ []
unfolding only_what_was_carried_and_is_still_fresh
fresh_enough = refl

completed :
    complete_with_retries
      (services "both")
      json
      llm_serde
      (complete_request_for json serde client plain_config empty_state from_material
        (only_what_was_carried_and_is_still_fresh json serde llm_serde earlier 200))
      0
    ≡ (ok (object both), 1)
unfolding complete_with_retries or_again store
completed = refl

says_and_calls : SaysAndCalls json serde client llm_serde words both "29"
unfolding lookup
says_and_calls = (refl, refl, refl)

answer_from_material-unchecked_example :
    (v : Value) × (answer_from_material json serde client llm_serde words
        (services "both")
        plain_config
        empty_state
        earlier
        spent
        0
      ≡ (ok v, 1))
    × (reply_to_check json llm_serde v ≡ some "29")
answer_from_material-unchecked_example =
    answer_from_material-unchecked json serde client llm_serde words (services "both") plain_config
      empty_state earlier spent 0 1 record_of_weather [] both "29" fresh_enough completed
      says_and_calls
