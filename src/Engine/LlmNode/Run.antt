-- ===== src/Engine/LlmNode/Run.antt =====
-- services/engine/src/executors/llm.rs: a whole run of an llm node.
pub mod Compose
pub mod Paths
pub mod Speaks
pub mod Grounded
pub mod Unchecked
use Prim.Native.String.{◌++◌}
use ai_engineering_boilerpla.Base.{
  String, Bool, true, false, not, ◌||◌, Option, none, some, List, [], ◌∷◌, ◌>>=◌, chain, any, find,
  get_or, ◌==◌, if◌then◌else◌,
}
use ai_engineering_boilerpla.Base.Results.{Result, ok, err}
use ai_engineering_boilerpla.Json.{Json, Value, null, string, object, end, as_str, value_get}
use ai_engineering_boilerpla.EngineCore.LlmOutput.{
  Serde, ToolRecord, ToolCall, tool_result_error_key, record_of,
}
use ai_engineering_boilerpla.Engine.Nodes.{IdempotencyKey}
use ai_engineering_boilerpla.Engine.ToolNode.{
  Client, ExecuteStatus, succeeded, ExecuteRequest, ExecuteResponse, decided_call,
  question_in_state,
}
use ai_engineering_boilerpla.Engine.LlmNode.{
  Services, LlmSerde, Mode, loop, compose_only, from_material, CatalogEntry, LlmNodeConfig,
  compose_refusal, CompleteRequest, DecideRequest, DecideResponse, Answer,
}
use ai_engineering_boilerpla.Engine.LlmNode.Reply.{
  merge_usage, without_tool_call, attach_fast_tool_call, compose_failure,
}
use ai_engineering_boilerpla.Engine.LlmNode.Material.{
  Material, material_of, only_what_was_carried_and_is_still_fresh, with_lookup, rendered_carried,
}
use ai_engineering_boilerpla.Engine.LlmNode.Prompt.{complete_request_for}
use ai_engineering_boilerpla.Engine.LlmNode.Ask.{pointed_at_id, pointed_at_request}
use ai_engineering_boilerpla.Engine.LlmNode.Spans.{Words, is_nonempty, decidable_argument}
use ai_engineering_boilerpla.Engine.LlmNode.Questions.{decide_request}
use ai_engineering_boilerpla.Engine.LlmNode.Choice.{
  FastPath, fast_tool_call, fast_compose, fast_material, fast_decline, path_for,
}
use ai_engineering_boilerpla.Engine.LlmNode.Checked.{
  complete_with_retries, decided_once_more_on_error, checked_against, find_noul,
}

abbrev pub pointed_at_enough_to_dispatch : String
pointed_at_enough_to_dispatch = "0.8"

abbrev pub below_every_threshold : String
below_every_threshold = "0.0"

abbrev pub missing_value_fallback : String
missing_value_fallback = "to know what to look it up for"

abbrev pub nothing_connected : String
nothing_connected =
    "I'm not connected to anything I can answer from at the moment. Please try again shortly."

abbrev pub decline_opening : String
decline_opening = "I can only answer from what I'm connected to: "

abbrev pub clarify_opening : String
clarify_opening = "I can look that up, but I need "

abbrev pub decline_closing : String
decline_closing = "Which of those did you mean?"

unfoldable pub as_the_operator_named_it : CatalogEntry → String
as_the_operator_named_it tool = if is_nonempty tool.title then tool.title else tool.name

-- The loop over the tools, with the names so far.
unfoldable pub named_once_each : List String → List CatalogEntry → List String
unfolding as_the_operator_named_it
named_once_each names [] = names
named_once_each names (t ∷ ts) =
    named_once_each
      (if any (λ n. n == as_the_operator_named_it t) names
        then names
        else chain names (as_the_operator_named_it t ∷ []))
      ts

unfoldable pub sources_named_once_each : LlmNodeConfig → List String
unfolding named_once_each
sources_named_once_each config = named_once_each [] config.available_tools

-- The names from the second on, the last after `and`.
unfoldable pub listed_after : List String → String
listed_after [] = ""
listed_after (last ∷ []) = ", and " ++ last
listed_after (n ∷ m ∷ ms) = ", " ++ n ++ listed_after (m ∷ ms)

unfoldable pub listed_in_a_sentence : List String → String
unfolding listed_after
listed_in_a_sentence [] = ""
listed_in_a_sentence (only ∷ rest) = only ++ listed_after rest

-- The reply that names the sources, or says that there are none.
unfoldable pub declining : List String → String
unfolding listed_in_a_sentence
declining [] = nothing_connected
declining (n ∷ ns) = decline_opening ++ listed_in_a_sentence (n ∷ ns) ++ ". " ++ decline_closing

unfoldable pub in_catalog : LlmNodeConfig → ToolCall → Bool
in_catalog config call = any (λ (e : CatalogEntry). e.name == call.name) config.available_tools

unfoldable pub schema_of : LlmNodeConfig → String → String
schema_of config name = elim (find (λ (t : CatalogEntry). t.name == name) config.available_tools) [
  | some t ↦ t.input_schema_json
  | none ↦ ""
]

module _ (J : Json) (S : Serde) (C : Client) (L : LlmSerde J) (T : Words) where
  -- `json!` of a reply without a tool call
  abbrev pub plain_reply : String → Value
  plain_reply reply = object (J.insert (J.insert end "tool_call" null) "reply" (string reply))

  abbrev pub error_value : String → Value
  error_value message = object (J.insert end tool_result_error_key (string message))

  unfoldable pub decline : LlmNodeConfig → Value → Value
  unfolding sources_named_once_each declining merge_usage
  decline config decide_usage =
      merge_usage J L decide_usage (plain_reply (declining (sources_named_once_each config)))

  abbrev pub description_of : Option (String × String) → String
  description_of none = missing_value_fallback
  description_of (some (field, description)) = description

  unfoldable pub clarify : String → Value → Value
  unfolding decidable_argument merge_usage
  clarify input_schema_json decide_usage = merge_usage J L decide_usage (
      plain_reply
        (clarify_opening ++ description_of (decidable_argument J C input_schema_json) ++ "."))

  -- `LlmNodeConfig::parse`
  unfoldable pub parse_config : Value → Result String LlmNodeConfig
  parse_config config = elim (L.read_config config) [
    | ok c ↦ ok c
    | err e ↦ err ("llm node config is not usable: " ++ e)
  ]

  unfoldable pub composed_call : Value → Option ToolCall
  composed_call output = S.read_output output >>= λ written. elim (C.read_call written.tool_call) [
    | ok call ↦ some call
    | err e ↦ none
  ]

  abbrev pub is_success : Option ExecuteStatus → Bool
  is_success (some succeeded) = true
  is_success status = false

  unfoldable pub tool_result_value : ExecuteResponse → Value
  tool_result_value response =
      if is_success response.status
      then elim (C.from_text response.output_json) [
        | ok v ↦ v
        | err e ↦ error_value "tool returned invalid JSON"
      ]
      else error_value (
          if is_nonempty response.error_message then response.error_message else "tool call failed")

  module _ {World : Type 0} (V : Services World) where
    unfoldable pub result_or_error : Result String ExecuteResponse × World → Value × World
    unfolding tool_result_value
    result_or_error (ok response, w) = (tool_result_value response, w)
    result_or_error (err e, w) = (error_value e, w)

    unfoldable pub dispatch_tool_fast : ToolCall → IdempotencyKey → World → Value × World
    dispatch_tool_fast call key w = result_or_error (
        V.execute
          (record {
            slug = call.name;
            input_json = C.to_text call.args;
            idempotency_key = decided_call key;
          })
          w)

    -- The operator `?` on a result and the world after it.
    abbrev pub and_with :
        {A B : Type 0}
        → Result String A × World
        → (A → World → Result String B × World)
        → Result String B × World
    and_with (ok a, w) next = next a w
    and_with (err e, w) next = (err e, w)

    abbrev pub done : Value × World → Result String Value × World
    done (v, w) = (ok v, w)

    -- A model is asked, and its output is checked.
    unfoldable pub completed_and_checked :
        CompleteRequest → Material → World → Result String Value × World
    unfolding complete_with_retries checked_against
    completed_and_checked request material w =
        and_with (complete_with_retries V J L request w)
          (λ output w'. done (checked_against V J L S C request material output w'))

    unfoldable pub with_usage : Value → Value × World → Value × World
    unfolding merge_usage
    with_usage usage (v, w) = (merge_usage J L usage v, w)

    unfoldable pub answered_with_the_lookup :
        LlmNodeConfig
        → Value
        → Material
        → ToolCall
        → IdempotencyKey
        → World
        → Result String Value × World
    unfolding dispatch_tool_fast completed_and_checked with_lookup attach_fast_tool_call
        complete_request_for record_of
    answered_with_the_lookup config state material call key w =
        let (result, w') = dispatch_tool_fast call key w in
        let looked_up : ToolRecord = record_of call result (L.write_time (V.clock w')) in
        let seen = with_lookup material looked_up in
        and_with (completed_and_checked (complete_request_for J S C config state loop seen) seen w')
          (λ output w''. (ok (attach_fast_tool_call J L S output looked_up), w''))

    unfoldable pub run_fast_tool_call :
        LlmNodeConfig
        → Value
        → Material
        → ToolCall
        → Value
        → IdempotencyKey
        → World
        → Result String Value × World
    unfolding answered_with_the_lookup merge_usage
    run_fast_tool_call config state material call decide_usage key w =
        and_with (answered_with_the_lookup config state material call key w)
          (λ output w'. (ok (merge_usage J L decide_usage output), w'))
