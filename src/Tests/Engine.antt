-- ===== src/Tests/Engine.antt =====
-- The theorems on engine-core at concrete inputs.
use ai_engineering_boilerpla.Base.{
  ℕ, zero, suc, ◌<◌, String, ◌≡◌, ◌≢◌, ◌↔◌, refl, some, List, [], ◌∷◌, ◌++◌, map, ok, err, get_or,
  arith, Any, here, there, true,
}
use ai_engineering_boilerpla.Json.{Value, Fields, null, number, array, object, end, field}
use ai_engineering_boilerpla.EngineCore.Graph.{node}
use ai_engineering_boilerpla.EngineCore.Execution.{
  Execution, ExecutionEvent, ExecutionPayload, plain, failed,
}
use ai_engineering_boilerpla.EngineCore.Execution.Kept.{SameRun}
use ai_engineering_boilerpla.EngineCore.FanIn.{
  NodeOutput, nulls, none_null, fan_in_table, fan_in_consuming,
}
use ai_engineering_boilerpla.EngineCore.FanIn.Safe.{StateOk, TableOk}
use ai_engineering_boilerpla.EngineCore.Output.{report, state_key}
use ai_engineering_boilerpla.EngineCore.FanIn.Barrier.{barrier_of, record_all, record_all-in_order}
use ai_engineering_boilerpla.EngineCore.FanIn.Results.{reported, in_order, member}
use ai_engineering_boilerpla.EngineCore.FanIn.Joining.{none_null-reported}
use ai_engineering_boilerpla.EngineCore.Loop.Frame.{IsHardFailure}
use ai_engineering_boilerpla.EngineCore.Loop.Applied.{GraphOk}
use ai_engineering_boilerpla.EngineCore.Loop.Safe.{NamesBranch}
use ai_engineering_boilerpla.EngineCore.Loop.Rounds.{payloads}
use ai_engineering_boilerpla.EngineCore.Step.{step}
use ai_engineering_boilerpla.EngineCore.Step.Settle.{Announced}
use ai_engineering_boilerpla.EngineCore.Step.Safe.{step_total}
use ai_engineering_boilerpla.EngineCore.Step.Outcome.{
  step-Announced, step-SameRun, step_failed_output,
}
use ai_engineering_boilerpla.Tests.JsonModel.{json, serde, lookup, follow, store}
use ai_engineering_boilerpla.Tests.Graphs.{
  fan_graph, stamps, items, execution_at, start, split_output, branch_of,
}

abbrev split_result : Execution × List ExecutionEvent
split_result = get_or (start, []) (step json serde stamps fan_graph start (split_output ∷ []) 0)

split_runs :
    step json serde stamps fan_graph start (split_output ∷ []) 0
    ≡ some (split_result.0, split_result.1)
unfolding step lookup
split_runs = refl

split_nodes :
    split_result.0.current_nodes
    ≡ record { node = "work"; branch = some 0 } ∷ record { node = "work"; branch = some 1 } ∷ []
unfolding step lookup follow
split_nodes = refl

empty_table : TableOk json items
unfolding lookup fan_in_table
empty_table = record { table = end; is_table = refl; slots = λ id slot e. cc }

split_state : StateOk json start.state
split_state = (items, refl, empty_table)

graph_leaves_table : GraphOk json serde fan_graph
unfolding state_key lookup
graph_leaves_table = (tt, (refl, (refl, (tt, tt))))

names_branch : NamesBranch json serde fan_graph split_output
unfolding fan_in_consuming
names_branch n h = cc

step_total_example :
    (y : Execution) × (events : List ExecutionEvent) × (step json serde stamps fan_graph start
        (split_output ∷ [])
        0
      ≡ some (y, events))
    × StateOk json y.state
step_total_example =
    step_total json serde stamps fan_graph start (split_output ∷ []) 0 graph_leaves_table
      (names_branch, tt) split_state

step-Announced_example :
    (tail : List ExecutionPayload) × (payloads split_result.1
      ≡ map (report json serde) (split_output ∷ []) ++ tail)
    × Announced json serde fan_graph split_result.0 tail
step-Announced_example =
    step-Announced json serde stamps fan_graph start split_result.0 (split_output ∷ []) 0
      split_result.1 split_runs

step-SameRun_example : SameRun start split_result.0
step-SameRun_example =
    step-SameRun json serde stamps fan_graph start split_result.0 (split_output ∷ []) 0
      split_result.1 split_runs

abbrev failing : List NodeOutput
failing = branch_of 0 (ok (number "5")) ∷ branch_of 1 (err "timeout") ∷ []

abbrev failed_result : Execution × List ExecutionEvent
failed_result = get_or (start, []) (step json serde stamps fan_graph split_result.0 failing 0)

failed_runs :
    step json serde stamps fan_graph split_result.0 failing 0
    ≡ some (failed_result.0, failed_result.1)
unfolding step lookup follow store
failed_runs = refl

second_fails : Any (IsHardFailure fan_graph) failing
unfolding node
second_fails = there (here (refl, refl))

step_failed_output_example : failed_result.0.status ≡ failed
step_failed_output_example =
    step_failed_output json serde stamps fan_graph split_result.0 failed_result.0 failing 0
      failed_result.1 second_fails failed_runs

abbrev spent : Execution
spent = execution_at (plain "split" ∷ []) (object items) 0

abbrev spent_result : Execution × List ExecutionEvent
spent_result = get_or (spent, []) (step json serde stamps fan_graph spent (split_output ∷ []) 0)

spent_runs :
    step json serde stamps fan_graph spent (split_output ∷ []) 0
    ≡ some (spent_result.0, spent_result.1)
unfolding step lookup
spent_runs = refl

abbrev with_barrier : Fields
with_barrier =
    field "__fan_in" (object (field "join" (object (field "results" (array (nulls 2)) end)) end))
      end

abbrev doubled : ℕ → Value
doubled zero = number "0"
doubled (suc n) = number "2"

two_places : barrier_of json with_barrier "join" ≡ some (nulls 2)
unfolding barrier_of lookup
two_places = refl

both_report : (j : ℕ) → j < 2 → member j (1 ∷ 0 ∷ []) ≡ true
both_report j h = ground arith

record_all-in_order_example :
    (m : Fields) × (record_all json with_barrier "join" doubled (1 ∷ 0 ∷ []) ≡ some m)
    × (barrier_of json m "join" ≡ some (in_order doubled 0 2))
    × ((k : String) → "join" ≢ k → barrier_of json m k ≡ barrier_of json with_barrier k)
record_all-in_order_example =
    record_all-in_order json with_barrier "join" 2 doubled (1 ∷ 0 ∷ []) two_places (omega arith)
      both_report

none_null-reported_example :
    (none_null (reported doubled (1 ∷ 0 ∷ []) (nulls 2)) ≡ true)
    ↔ ((j : ℕ) → j < 2 → (member j (1 ∷ 0 ∷ []) ≡ true) × (doubled j ≢ null))
none_null-reported_example = none_null-reported doubled 2 (1 ∷ 0 ∷ []) (omega arith)
