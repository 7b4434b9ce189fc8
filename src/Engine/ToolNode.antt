-- ===== src/Engine/ToolNode.antt =====
-- services/engine/src/executors/tool.rs: runs a tool node by calling Tool Service, and what it puts
-- into the state. common/src/execution_input.rs: the question that a run starts with.
pub mod Steps
pub mod Records
pub mod Grows
pub mod GivesUp
use Prim.Native.String.{◌++◌}
use mathlib.Core.List.{reverse}
use ai_engineering_boilerpla.Base.{
  ℕ, suc, String, Bool, not, ◌&&◌, Option, none, some, List, [], ◌∷◌, get_or, all, length,
  take_while, last, map, ltb, leb, if◌then◌else◌, ◌≡◌, Any,
}
use ai_engineering_boilerpla.Base.Results.{Result, ok, err, ◌>>=◌}
use ai_engineering_boilerpla.Json.{
  Json, Value, Items, null, array, object, string, end, to_list, of_list, as_str, is_null,
  value_get,
}
use ai_engineering_boilerpla.EngineCore.LlmOutput.{
  Serde, ToolRecord, ToolCall, tool_result_state_key, tool_result_error_key, llm_tool_call_pointer,
  chunk_by, made_in_the_same_step_as, all_under, reached_its_source, record_of, in_state,
}
use ai_engineering_boilerpla.Engine.Nodes.{IdempotencyKey}

abbrev pub max_consecutive_tool_errors : ℕ
max_consecutive_tool_errors = 3

abbrev pub max_parallel_tool_calls : ℕ
max_parallel_tool_calls = 8

abbrev pub the_request_as_a_whole : String
the_request_as_a_whole = "tool_call"

pub record ExecutionInput : Type 0 where
  pub question : String

-- tools.proto
pub data ExecuteStatus : Type 0 where
  unspecified succeeded requires_approval failed_at_source not_executable : ExecuteStatus

-- `{key}:{index}` of a tool node's calls, `{key}:decide-tool` of an llm node's.
pub data CallKey : Type 0 where
  nth_call : IdempotencyKey → ℕ → CallKey
  decided_call : IdempotencyKey → CallKey

pub record ExecuteRequest : Type 0 where
  pub slug : String
  pub input_json : String
  pub idempotency_key : CallKey

-- A status that this build does not know is `none`.
pub record ExecuteResponse : Type 0 where
  pub status : Option ExecuteStatus
  pub output_json : String
  pub error_message : String

pub data CallOutcome : Type 0 where
  output : Value → CallOutcome
  error : String → CallOutcome

-- Tool Service as the client sees it: its answer to a request, or the error of the call.
abbrev pub ToolService : Type 0
ToolService = ExecuteRequest → Result String ExecuteResponse

-- What serde derives and serde_json does for this file, the text of a number, and
-- `futures::future::try_join_all`: every future's value in order, or the error of one of them.
pub record Client : Type 0 where
  pub read_input : Value → Option ExecutionInput
  pub read_call : Value → Result String ToolCall
  pub write_calls : List ToolCall → Value
  pub from_text : String → Result String Value
  pub to_text : Value → String
  pub decimal : ℕ → String
  pub try_join_all : List (Result String CallOutcome) → Result String (List CallOutcome)
  pub try_join_all-ok : (values : List CallOutcome) → try_join_all (map ok values) ≡ ok values
  pub try_join_all_ended :
      (rs : List (Result String CallOutcome)) (values : List CallOutcome)
      → try_join_all rs ≡ ok values
      → rs ≡ map ok values
  pub try_join_all_failed :
      (rs : List (Result String CallOutcome)) (e : String)
      → try_join_all rs ≡ err e
      → Any (λ r. r ≡ err e) rs

-- `Option::and_then`
abbrev pub and_then : {A B : Type 0} → Option A → (A → Option B) → Option B
and_then none f = none
and_then (some a) f = f a

abbrev pub text_of : Option String → String
text_of o = get_or "" o

abbrev pub no_question : ExecutionInput
no_question = record { question = "" }

-- `Value::Array(calls) => calls, single => vec![single]`
unfoldable pub one_or_many : Value → List Value
unfolding to_list
one_or_many (array calls) = to_list calls
one_or_many single = single ∷ []

module _ (J : Json) (S : Serde) (C : Client) where
  open C use {read_input, read_call, write_calls, from_text, to_text, decimal, try_join_all}

  unfoldable pub question_in_state : Value → ExecutionInput
  question_in_state state = get_or no_question (read_input state)

  unfoldable pub nothing_reached_its_source : List ToolRecord → Bool
  unfolding reached_its_source
  nothing_reached_its_source step = all (λ r. not (reached_its_source J S r)) step

  unfoldable pub consecutive_failed_steps : Value → ℕ
  unfolding all_under chunk_by made_in_the_same_step_as nothing_reached_its_source
  consecutive_failed_steps state = length (
      take_while nothing_reached_its_source
        (reverse (chunk_by made_in_the_same_step_as (all_under J S state tool_result_state_key))))

  -- `json!` with one field
  abbrev pub with_field : String → Value → Value
  with_field key value = object (J.insert end key value)

  unfoldable pub failed : ToolCall → String → String → ToolRecord
  unfolding record_of
  failed call message fetched_at =
      record_of call (with_field tool_result_error_key (string message)) fetched_at

  unfoldable pub last_error : List ToolRecord → String
  last_error this_step = text_of (
      and_then (and_then (last this_step) (λ r. value_get J r.result tool_result_error_key)) as_str)

  unfoldable pub giving_up : List ToolRecord → String
  unfolding last_error
  giving_up this_step =
      decimal max_consecutive_tool_errors
      ++ " consecutive tool errors, giving up; last error: "
      ++ last_error this_step

  -- The condition under which the run ends.
  unfoldable pub too_long : Value → List ToolRecord → Bool
  unfolding consecutive_failed_steps nothing_reached_its_source
  too_long state this_step =
      nothing_reached_its_source this_step
      && leb max_consecutive_tool_errors (suc (consecutive_failed_steps state))

  unfoldable pub recoverable_unless_the_run_is_too_long :
      Value → List ToolRecord → Result String Value
  unfolding too_long giving_up of_list
  recoverable_unless_the_run_is_too_long state this_step =
      if too_long state this_step
      then err (giving_up this_step)
      else ok (array (of_list (map S.write_record this_step)))

  unfoldable pub parsed_call : Value → Result String ToolCall
  parsed_call call = elim (read_call call) [
    | ok c ↦ ok c
    | err e ↦ err ("tool_call is not usable: " ++ e)
  ]

  -- `map(parsed_call).collect()` stops at the first that is not usable.
  unfoldable pub parsed_calls : List Value → Result String (List ToolCall)
  unfolding parsed_call
  parsed_calls [] = ok []
  parsed_calls (v ∷ vs) = parsed_call v >>= λ c. parsed_calls vs >>= λ cs. ok (c ∷ cs)

  unfoldable pub call_for_question : Value → String → ToolCall
  unfolding question_in_state
  call_for_question state slug = record {
    name = slug;
    args = with_field "query" (string (question_in_state state).question);
  }

  unfoldable pub nonempty_calls : List Value → Result String (List ToolCall)
  unfolding parsed_calls
  nonempty_calls [] = err "tool_call is an empty list"
  nonempty_calls (v ∷ vs) = parsed_calls (v ∷ vs)

  unfoldable pub requested_calls : Value → Value → Result String (List ToolCall)
  unfolding call_for_question in_state llm_tool_call_pointer nonempty_calls one_or_many
  requested_calls config state = elim (and_then (value_get J config "tool_slug") as_str) [
    | some slug ↦ ok (call_for_question state slug ∷ [])
    | none ↦
        let requested = (in_state J S state).tool_call in
        if is_null requested
        then err ("no tool call at " ++ llm_tool_call_pointer)
        else nonempty_calls (one_or_many requested)
  ]

  unfoldable pub refused_whole : List ToolCall → String → ToolRecord
  unfolding failed
  refused_whole calls now =
      failed (record { name = the_request_as_a_whole; args = write_calls calls })
        ("one turn may call at most "
          ++ decimal max_parallel_tool_calls
          ++ " tools at once, got "
          ++ decimal (length calls))
        now

  unfoldable pub record_of_outcome : ToolCall → CallOutcome → String → ToolRecord
  unfolding record_of failed
  record_of_outcome call (output value) fetched_at = record_of call value fetched_at
  record_of_outcome call (error message) fetched_at = failed call message fetched_at

  unfoldable pub records_of : List ToolCall → List CallOutcome → String → List ToolRecord
  unfolding record_of_outcome
  records_of (c ∷ cs) (o ∷ os) fetched_at =
      record_of_outcome c o fetched_at ∷ records_of cs os fetched_at
  records_of cs os fetched_at = []

  module _ (service : ToolService) where
    abbrev pub read_output : Result String Value → Result String CallOutcome
    read_output (ok value) = ok (output value)
    read_output (err e) = err e

    unfoldable pub outcome_of : ExecuteResponse → Option ExecuteStatus → Result String CallOutcome
    outcome_of r (some succeeded) = read_output (from_text r.output_json)
    outcome_of r (some requires_approval) = err "tool requires approval — not yet wired in Engine"
    outcome_of r _ = ok (error r.error_message)

    unfoldable pub call_tool : ToolCall → CallKey → Result String CallOutcome
    unfolding outcome_of
    call_tool call key =
        service (record { slug = call.name; input_json = to_text call.args; idempotency_key = key })
        >>= λ r. outcome_of r r.status

    -- The futures of the calls from the place `index` on.
    unfoldable pub calls_from :
        IdempotencyKey → ℕ → List ToolCall → List (Result String CallOutcome)
    unfolding call_tool
    calls_from step index [] = []
    calls_from step index (c ∷ cs) =
        call_tool c (nth_call step index) ∷ calls_from step (suc index) cs

    unfoldable pub run_all : List ToolCall → IdempotencyKey → Result String (List CallOutcome)
    unfolding calls_from
    run_all calls step = try_join_all (calls_from step 0 calls)

    -- The rest of `execute`, with the calls known; `now` is the clock's text.
    unfoldable pub execute_calls :
        Value → IdempotencyKey → String → List ToolCall → Result String Value
    unfolding run_all records_of refused_whole recoverable_unless_the_run_is_too_long
    execute_calls state step now calls =
        if ltb max_parallel_tool_calls (length calls)
        then recoverable_unless_the_run_is_too_long state (refused_whole calls now ∷ [])
        else run_all calls step >>= λ outcomes.
            recoverable_unless_the_run_is_too_long state (records_of calls outcomes now)

    unfoldable pub execute : Value → Value → IdempotencyKey → String → Result String Value
    unfolding requested_calls execute_calls
    execute config state step now = requested_calls config state >>= execute_calls state step now
