-- ===== src/EngineCore/Loop/Applied.antt =====
-- Applying an output does not panic on well-formed input, and keeps the state well-formed
-- (engine-core/src/step.rs).
use ai_engineering_boilerpla.Base.{
  String, ◌≡◌, refl, subst, true, false, Bool, Option, none, some, List, [], ◌∷◌, ◌>>=◌, of_some_eq,
  ◌==◌, Option-cases, inl, inr, Result, ok, err, All, find_map,
}
use ai_engineering_boilerpla.Json.{Json, Value, object, value_get}
use ai_engineering_boilerpla.EngineCore.State.{Reducer, append, reduce, apply_reducer}
use ai_engineering_boilerpla.EngineCore.Graph.{
  NodeId, Graph, Edge, Node, task, fan_out, fan_in, subgraph, wait, node, edges_from, is_fan_in,
}
use ai_engineering_boilerpla.EngineCore.Graph.Lookup.{node-All}
use ai_engineering_boilerpla.EngineCore.LlmOutput.{
  Serde, fast_tool_call_field, tool_result_state_key,
}
use ai_engineering_boilerpla.EngineCore.Execution.{Execution, ExecutionEvent, Stamps, push_event}
use ai_engineering_boilerpla.EngineCore.FanIn.{
  only_fan_in, NodeOutput, fan_in_table_key, fan_in_consuming,
}
use ai_engineering_boilerpla.EngineCore.FanIn.Safe.{StateOk, reduce-TableOk}
use ai_engineering_boilerpla.EngineCore.Output.{
  charge_budget, apply_fast_tool_call, stored, state_key, reducer_of, apply_task, apply_result,
  apply_output, report,
}

abbrev pub is_reserved : Option String → Bool
is_reserved none = false
is_reserved (some key) = key == fan_in_table_key

-- What every node satisfies, the FanIn that consumes a branch satisfies.
consuming-All :
    (P : Node → Type 0) (g : Graph) (es : List Edge) (n : Node)
    → All P g.nodes
    → only_fan_in (find_map (λ e. node g e.target) es) ≡ some n
    → P n
consuming-All P g [] n a h = cc
consuming-All P g (e ∷ es) n a h = elim (Option-cases (node g e.target)) [
  | inl f ↦ consuming-All P g es n a (rw (f, only_fan_in) at h)
  | inr (m, f) ↦ only m (rw (f, only_fan_in) at h) f
]
  where
    only : (m : Node) → only_fan_in (some m) ≡ some n → node g e.target ≡ some m → P n
    only (fan_in id key r) k f = subst P (of_some_eq k) (node-All P g e.target _ a f)
    only (task id kind config) k f = cc
    only (fan_out id source item_var target) k f = cc
    only (subgraph id gid version input key) k f = cc
    only (wait id on) k f = cc
    only (Node.end id) k f = cc

only_fan_in-is_fan_in :
    (o : Option Node) (n : Node) → only_fan_in o ≡ some n → is_fan_in (some n) ≡ true
only_fan_in-is_fan_in (some (fan_in id key r)) n h = rw (← of_some_eq h)
only_fan_in-is_fan_in none n h = cc
only_fan_in-is_fan_in (some (task id kind config)) n h = cc
only_fan_in-is_fan_in (some (fan_out id source item_var target)) n h = cc
only_fan_in-is_fan_in (some (subgraph id gid version input key)) n h = cc
only_fan_in-is_fan_in (some (wait id on)) n h = cc
only_fan_in-is_fan_in (some (Node.end id)) n h = cc

pub fan_in_consuming-is_fan_in :
    (g : Graph) (id : NodeId) (n : Node)
    → fan_in_consuming g id ≡ some n
    → is_fan_in (some n) ≡ true
unfolding fan_in_consuming
fan_in_consuming-is_fan_in g id n h = only_fan_in-is_fan_in _ n h

pub fan_in_consuming-All :
    (P : Node → Type 0) (g : Graph) (id : NodeId) (n : Node)
    → All P g.nodes
    → fan_in_consuming g id ≡ some n
    → P n
unfolding fan_in_consuming
fan_in_consuming-All P g id n a h = consuming-All P g (edges_from g id) n a h

module _ (J : Json) (S : Serde) where
  -- A node does not write to the key under which the barriers are kept.
  abbrev pub LeavesTable : Node → Type 0
  LeavesTable (task id kind config) = is_reserved (state_key J S config) ≡ false
  LeavesTable (fan_in id key reducer) = (key == fan_in_table_key) ≡ false
  LeavesTable _ = Unit

  reduced_ok :
      (x : Execution) (key : String) (r : Reducer) (v : Value)
      → (key == fan_in_table_key) ≡ false
      → StateOk J x.state
      → (s : Value) × (apply_reducer J x.state key r v ≡ some s) × StateOk J s
  unfolding apply_reducer
  reduced_ok x key r v n (m, e, h) = (
    object (reduce J m key r v),
    rw e,
    (reduce J m key r v, refl, reduce-TableOk J m key r v n h),
  )

  apply_fast_tool_call_ok :
      (x : Execution) (value : Value)
      → StateOk J x.state
      → (y : Execution) × (apply_fast_tool_call J S x value ≡ some y) × StateOk J y.state
  unfolding apply_fast_tool_call
  apply_fast_tool_call_ok x value h =
      elim (Option-cases (value_get J value fast_tool_call_field >>= S.read_record)) [
        | inl e ↦ (x, rw (e, apply_fast_tool_call), h)
        | inr (r, e) ↦
            let (s, a, h') = reduced_ok x tool_result_state_key append (S.write_record r) refl h in
            (record x { state = s }, rw (e, apply_fast_tool_call) (rw a), h')
      ]

  stored_ok :
      (x : Execution) (key : Option String) (r : Option Reducer) (value : Value)
      → is_reserved key ≡ false
      → StateOk J x.state
      → (y : Execution) × (stored J S x key r value ≡ some y) × StateOk J y.state
  stored_ok x none r value n h = (x, refl, h)
  stored_ok x (some key) none value n h = (x, refl, h)
  stored_ok x (some key) (some r) value n h =
      let (s, a, h') = reduced_ok x key r value n h in (record x { state = s }, rw a, h')

  apply_task_ok :
      (x : Execution) (n : Node) (value : Value)
      → LeavesTable n
      → StateOk J x.state
      → (y : Execution) × (apply_task J S x (some n) value ≡ some y) × StateOk J y.state
  apply_task_ok x (task id kind config) value l h =
      let (y, a, hy) =
        apply_fast_tool_call_ok (charge_budget J S x value) value (unfold charge_budget in h) in
      let (z, b, hz) = stored_ok y (state_key J S config) (reducer_of J S config) value l hy in
      (z, rw a b, hz)
  apply_task_ok x _ value l h = (x, refl, h)

  abbrev pub GraphOk : Graph → Type 0
  GraphOk g = All LeavesTable g.nodes

  pub apply_output_ok :
      (stamps : Stamps) (g : Graph) (x : Execution) (events : List ExecutionEvent) (o : NodeOutput)
      → GraphOk g
      → StateOk J x.state
      → (y : Execution) × (events' : List ExecutionEvent) × (apply_output J S stamps g x events o
          ≡ some (y, events'))
        × StateOk J y.state
  unfolding apply_output
  apply_output_ok stamps g x events o a h =
      let (y, b, hy) = result_of o.result in
      (y, push_event stamps x (report J S o) events, rw (b, apply_output), hy)
    where
      task_of :
          (n : Option Node) (value : Value)
          → node g o.node.node ≡ n
          → (y : Execution) × (apply_task J S x n value ≡ some y) × StateOk J y.state
      task_of none value e = (x, refl, h)
      task_of (some n) value e =
          apply_task_ok x n value (node-All LeavesTable g o.node.node n a e) h

      result_of :
          (r : Result String Value)
          → (y : Execution) × (apply_result J S g x o.node.node r ≡ some y) × StateOk J y.state
      result_of (ok value) = task_of (node g o.node.node) value refl
      result_of (err error) = (x, refl, h)
