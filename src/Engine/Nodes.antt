-- ===== src/Engine/Nodes.antt =====
-- services/engine/src/tick.rs: runs the active nodes of an execution, each on the state of its
-- branch.
use ai_engineering_boilerpla.Base.{
  ℕ, ◌-◌, String, Bool, true, false, Option, none, some, List, [], ◌∷◌, ◌==◌, eqb, find,
  if◌then◌else◌,
}
use ai_engineering_boilerpla.Base.Results.{Result, ok, err, ◌>>=◌}
use ai_engineering_boilerpla.Base.Integers.{ℤ}
use ai_engineering_boilerpla.Json.{Json, Value, Items, null, object, nil, cons, as_array}
use ai_engineering_boilerpla.EngineCore.Graph.{
  Graph, GraphId, Node, NodeId, task, fan_out, subgraph, node,
}
use ai_engineering_boilerpla.EngineCore.Execution.{ExecutionId, ActiveNode, Execution}
use ai_engineering_boilerpla.EngineCore.FanIn.{NodeOutput}
use ai_engineering_boilerpla.Engine.Wire.{WireFault}
use ai_engineering_boilerpla.Engine.Store.{CommitFault}

-- `panicked` is a panic of a node's task or of `step`.
pub data TickFault : Type 0 where
  vanished : ExecutionId → TickFault
  not_registered : GraphId → ℤ → TickFault
  subgraph_not_wired panicked : TickFault
  unreadable_row : WireFault → TickFault
  not_committed : CommitFault → TickFault

abbrev pub wired : {A : Type 0} → Result WireFault A → Result TickFault A
wired (ok a) = ok a
wired (err e) = err (unreadable_row e)

abbrev pub committed : {A : Type 0} → Result CommitFault A → Result TickFault A
committed (ok a) = ok a
committed (err e) = err (not_committed e)

abbrev pub found : {A : Type 0} → TickFault → Option A → Result TickFault A
found fault (some a) = ok a
found fault none = err fault

-- `format!("{}:{}:{}", id, node, iteration)`
pub record IdempotencyKey : Type 0 where
  pub execution : ExecutionId
  pub node : NodeId
  pub iteration : ℕ

-- TaskExecutor: kind, config, state and key; `none` is a panic.
abbrev pub Executor : Type 0
Executor = String → Value → Value → IdempotencyKey → Option (Result String Value)

abbrev pub is_subgraph : Option Node → Bool
is_subgraph (some (subgraph id graph_id version input output_key)) = true
is_subgraph _ = false

abbrev pub fans_out_to : NodeId → Node → Bool
fans_out_to target (fan_out id source item_var t) = t == target
fans_out_to target _ = false

unfoldable pub nth : ℕ → Items → Option Value
nth n nil = none
nth n (cons v vs) = let rest = nth (n - 1) vs in if eqb n 0 then some v else rest

abbrev pub with_item : Json → Value → String → Value → Value
with_item J (object m) item_var item = object (J.insert m item_var item)
with_item J state item_var item = state

module _ (J : Json) where
  abbrev pub source_item : Value → String → ℕ → Option Value
  unfolding nth
  source_item state source branch = elim (J.pointer state source) [
    | none ↦ none
    | some v ↦ elim (as_array v) [ some items ↦ nth branch items | none ↦ none ]
  ]

  -- The state for one branch of a FanOut has the branch's item.
  unfoldable pub scoped : Value → ℕ → Option Node → Value
  unfolding nth
  scoped state branch (some (fan_out id source item_var target)) =
      elim (source_item state source branch) [
        | some item ↦ with_item J state item_var item
        | none ↦ state
      ]
  scoped state branch _ = state

  unfoldable pub branch_state : Value → Graph → ActiveNode → Value
  unfolding scoped
  branch_state state g active = elim active.branch [
    | none ↦ state
    | some branch ↦ scoped state branch (find (fans_out_to active.node) g.nodes)
  ]

  -- The output of one active node.
  unfoldable pub run_node :
      Executor → Graph → Execution → ActiveNode → Option (Node) → Result TickFault NodeOutput
  unfolding branch_state
  run_node executor g x active (some (task id kind config)) =
      let key : IdempotencyKey = record {
        execution = x.id;
        node = active.node;
        iteration = x.iteration;
      } in
      found panicked (executor kind config (branch_state x.state g active) key) >>= λ r.
      ok (record { node = active; result = r })
  run_node executor g x active _ = ok (record { node = active; result = ok null })

  unfoldable pub run_nodes :
      Executor → Graph → Execution → List ActiveNode → Result TickFault (List NodeOutput)
  unfolding node run_node
  run_nodes executor g x [] = ok []
  run_nodes executor g x (a ∷ as') = do
    output ← run_node executor g x a (node g a.node)
    rest ← run_nodes executor g x as'
    ok (output ∷ rest)
