-- ===== src/EngineCore/Loop.antt =====
-- engine-core/src/step.rs: the loop of a super-step over the outputs of its
-- nodes: which nodes each output activates. `none` is a panic.
pub mod Frame
pub mod Rounds
pub mod Applied
pub mod Safe
use ai_engineering_boilerpla.Base.{
  ℕ, String, Bool, true, false, Option, none, some, List, [], ◌∷◌, ◌++◌, ◌>>=◌, if◌then◌else◌, ok,
  err,
}
use ai_engineering_boilerpla.Json.{Json, Items, as_array}
use ai_engineering_boilerpla.EngineCore.Graph.{
  NodeId, Graph, Node, Edge, fan_out, fan_in, node, edges_from, evaluate_condition,
}
use ai_engineering_boilerpla.EngineCore.LlmOutput.{Serde}
use ai_engineering_boilerpla.EngineCore.Execution.{
  ActiveNode, plain, Execution, Failure, node_failed_with_no_edge, ExecutionEvent, Stamps,
}
use ai_engineering_boilerpla.EngineCore.FanIn.{
  NodeOutput, is_err, fan_in_consuming, branches, count, open_fan_in_barrier, record_fan_in_branch,
}
use ai_engineering_boilerpla.EngineCore.Output.{apply_output}

-- The mutable variables of `step`.
pub record Progress : Type 0 where
  pub execution : Execution
  pub events : List ExecutionEvent
  pub next : List ActiveNode
  pub hard_failure : Option Failure

-- What `fan_handled_output` returns, with what it changed.
pub record Fanned : Type 0 where
  pub handled : Bool
  pub execution : Execution
  pub next : List ActiveNode

-- Counts a `Vec` for `map_or(0, Vec::len)`.
unfoldable pub array_count : Option Items → ℕ
unfolding count
array_count none = 0
array_count (some items) = count items

module _ (J : Json) (S : Serde) where
  -- The branch of a FanOut: one active node for each element of the array that it points to.
  unfoldable pub fan_out_branches :
      Graph → Execution → String → NodeId → List ActiveNode → Option Fanned
  unfolding array_count branches open_fan_in_barrier
  fan_out_branches g x source target next = do
    let branch_count = array_count (J.pointer x.state source >>= as_array)
    x' ← open_fan_in_barrier J g x target branch_count
    some (record { handled = true; execution = x'; next = next ++ branches target 0 branch_count })

  -- A branch that leads to a FanIn reports to its barrier, unless it failed.
  unfoldable pub branch_output :
      Option Node → Execution → NodeOutput → List ActiveNode → Option Fanned
  unfolding record_fan_in_branch
  branch_output none x output next = some (record { handled = false; execution = x; next = next })
  branch_output (some fan_in_node) x output next =
      if is_err output.result
      then some (record { handled = false; execution = x; next = next })
      else record_fan_in_branch J x output fan_in_node next
        >>= (λ (x', next'). some (record { handled = true; execution = x'; next = next' }))

  abbrev pub fan_handled :
      Option Node → Graph → Execution → NodeOutput → List ActiveNode → Option Fanned
  fan_handled (some (fan_out id source item_var target)) g x output next =
      fan_out_branches g x source target next
  fan_handled (some (fan_in id key reducer)) g x output next =
      some (record { handled = false; execution = x; next = next })
  fan_handled _ g x output next = branch_output (fan_in_consuming g output.node.node) x output next

  unfoldable pub fan_handled_output :
      Graph → Execution → NodeOutput → List ActiveNode → Option Fanned
  unfolding fan_out_branches branch_output fan_in_consuming node
  fan_handled_output g x output next = fan_handled (node g output.node.node) g x output next

  -- The targets of the edges that fire.
  unfoldable pub fired : Execution → List Edge → List ActiveNode
  unfolding evaluate_condition
  fired x [] = []
  fired x (e ∷ es) =
      let rest = fired x es in
      if evaluate_condition J e.condition x.state then plain e.target ∷ rest else rest

  unfoldable pub record_edges : Graph → Execution → NodeOutput → Progress → Progress
  unfolding fired edges_from
  record_edges g x output p = elim output.result [
    | ok value ↦ record p { next = p.next ++ fired x (edges_from g output.node.node) }
    | err error ↦ record p { hard_failure = some (node_failed_with_no_edge output.node.node error) }
  ]

  -- The body of the loop over the outputs.
  unfoldable pub process : Stamps → Graph → Progress → NodeOutput → Option Progress
  unfolding apply_output fan_handled_output record_edges
  process stamps g p output = do
    (x, events) ← apply_output J S stamps g p.execution p.events output
    fanned ← fan_handled_output g x output p.next
    let p' : Progress = record p {
      execution = fanned.execution;
      events = events;
      next = fanned.next;
    }
    some (if fanned.handled then p' else record_edges g fanned.execution output p')

  unfoldable pub process_all : Stamps → Graph → Progress → List NodeOutput → Option Progress
  unfolding process
  process_all stamps g p [] = some p
  process_all stamps g p (o ∷ os) = process stamps g p o >>= (λ p'. process_all stamps g p' os)
