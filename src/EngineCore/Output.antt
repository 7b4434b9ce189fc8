-- ===== src/EngineCore/Output.antt =====
-- engine-core/src/step.rs: what the output of one node does to an
-- execution: its event, its charge, and what it writes into the state. `none` is a panic.
pub mod Frame
use ai_engineering_boilerpla.Base.{
  ℕ, ◌+◌, min, String, Option, none, some, List, ◌>>=◌, get_or, is_some, if◌then◌else◌, Result, ok,
  err,
}
use ai_engineering_boilerpla.Json.{Json, Value, number, as_str, value_get}
use ai_engineering_boilerpla.EngineCore.Budget.{charge, u64_max}
use ai_engineering_boilerpla.EngineCore.State.{Reducer, replace, append, apply_reducer}
use ai_engineering_boilerpla.EngineCore.Graph.{NodeId, Graph, Node, task, node}
use ai_engineering_boilerpla.EngineCore.LlmOutput.{
  Serde, fast_tool_call_field, tool_result_state_key,
}
use ai_engineering_boilerpla.EngineCore.Execution.{
  Execution, ExecutionPayload, node_completed, node_failed, ExecutionEvent, Stamps, push_event,
}
use ai_engineering_boilerpla.EngineCore.FanIn.{NodeOutput, u32_max}

abbrev pub one_tool_call : ℕ
one_tool_call = 1

abbrev pub unmeasured_wall_time : ℕ
unmeasured_wall_time = 0

module _ (J : Json) (S : Serde) where
  open S use {read_reducer, read_record, write_record}

  unfoldable pub extra_tool_call_charge : Value → ℕ
  extra_tool_call_charge value = if is_some (value_get J value fast_tool_call_field) then 1 else 0

  unfoldable pub value_as_u64 : Value → Option ℕ
  value_as_u64 (number n) = J.as_u64 n
  value_as_u64 _ = none

  abbrev pub usage_field : Value → String → ℕ
  usage_field usage name = get_or 0 (value_get J usage name >>= value_as_u64)

  abbrev pub tokens_used : Option Value → ℕ
  tokens_used none = 0
  tokens_used (some usage) =
      min (min (usage_field usage "tokens_in" + usage_field usage "tokens_out") u64_max) u32_max

  unfoldable pub charge_budget : Execution → Value → Execution
  unfolding charge value_as_u64 extra_tool_call_charge
  charge_budget x value = record x {
    budget =
        charge x.budget (tokens_used (value_get J value "usage"))
          (min (one_tool_call + extra_tool_call_charge value) u32_max) unmeasured_wall_time;
  }

  unfoldable pub apply_fast_tool_call : Execution → Value → Option Execution
  unfolding apply_reducer
  apply_fast_tool_call x value = elim (value_get J value fast_tool_call_field >>= read_record) [
    | none ↦ some x
    | some r ↦
        apply_reducer J x.state tool_result_state_key append (write_record r)
        >>= (λ state. some (record x { state = state }))
  ]

  unfoldable pub state_key : Value → Option String
  state_key config = value_get J config "state_key" >>= as_str

  unfoldable pub reducer_of : Value → Option Reducer
  reducer_of config = elim (value_get J config "reducer") [
    | none ↦ some replace
    | some declared ↦ read_reducer declared
  ]

  abbrev pub stored : Execution → Option String → Option Reducer → Value → Option Execution
  stored x (some key) (some reducer) value = do
    state ← apply_reducer J x.state key reducer value
    some (record x { state = state })
  stored x _ reducer value = some x

  -- The `if let Some(Node::Task { config, .. })` of `apply_output`.
  abbrev pub apply_task : Execution → Option Node → Value → Option Execution
  apply_task x (some (task id kind config)) value = do
    x' ← apply_fast_tool_call (charge_budget x value) value
    stored x' (state_key config) (reducer_of config) value
  apply_task x _ value = some x

  unfoldable pub report : NodeOutput → ExecutionPayload
  report output = elim output.result [
    | ok value ↦ node_completed output.node.node value
    | err error ↦ node_failed output.node.node error
  ]

  abbrev pub apply_result : Graph → Execution → NodeId → Result String Value → Option Execution
  apply_result g x id (ok value) = apply_task x (node g id) value
  apply_result g x id (err error) = some x

  unfoldable pub apply_output :
      Stamps
      → Graph
      → Execution
      → List ExecutionEvent
      → NodeOutput
      → Option (Execution × List ExecutionEvent)
  unfolding report apply_fast_tool_call charge_budget state_key reducer_of push_event
  apply_output stamps g x events output = do
    x' ← apply_result g x output.node.node output.result
    some (x', push_event stamps x (report output) events)
