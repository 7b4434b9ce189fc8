-- ===== src/EngineCore/Output/Frame.antt =====
-- What applying one output leaves alone, and the one event that it emits (engine-core/src/step.rs).
use ai_engineering_boilerpla.Base.{
  String, ◌≡◌, ◌∙◌, sym, ap, subst, Option, none, some, List, inl, inr, ◌>>=◌, >>=-eq-some,
  Option-cases, of_some_eq, of_some_pair_eq, Result, ok, err,
}
use ai_engineering_boilerpla.Json.{Json, Value, value_get}
use ai_engineering_boilerpla.EngineCore.Budget.Laws.{charge-Within}
use ai_engineering_boilerpla.EngineCore.State.{Reducer}
use ai_engineering_boilerpla.EngineCore.Graph.{
  NodeId, Graph, Node, task, fan_out, fan_in, subgraph, wait, node,
}
use ai_engineering_boilerpla.EngineCore.LlmOutput.{Serde, fast_tool_call_field}
use ai_engineering_boilerpla.EngineCore.Execution.{Execution, ExecutionEvent, Stamps, push_event}
use ai_engineering_boilerpla.EngineCore.Execution.Kept.{
  Kept, Kept-refl, Kept-trans, Kept-state, Kept-budget,
}
use ai_engineering_boilerpla.EngineCore.FanIn.{NodeOutput}
use ai_engineering_boilerpla.EngineCore.Output.{
  charge_budget, apply_fast_tool_call, stored, apply_task, apply_result, apply_output, report,
}

-- A new state that some part of the code computes, or its panic.
Kept-with_state :
    (x y : Execution) (s : Option Value)
    → (s >>= (λ v. some (record x { state = v }))) ≡ some y
    → Kept x y
Kept-with_state x y none h = cc
Kept-with_state x y (some v) h = subst (Kept x) (of_some_eq h) (Kept-state x v)

Kept-some : (x y : Execution) → some x ≡ some y → Kept x y
Kept-some x y h = subst (Kept x) (of_some_eq h) (Kept-refl x)

module _ (J : Json) (S : Serde) where
  charge_budget-Kept : (x : Execution) (value : Value) → Kept x (charge_budget J S x value)
  unfolding charge_budget
  charge_budget-Kept x value = Kept-budget x _ (charge-Within x.budget _ _ _)

  apply_fast_tool_call-Kept :
      (x y : Execution) (value : Value) → apply_fast_tool_call J S x value ≡ some y → Kept x y
  unfolding apply_fast_tool_call
  apply_fast_tool_call-Kept x y value h =
      elim (Option-cases (value_get J value fast_tool_call_field >>= S.read_record)) [
        | inl e ↦ Kept-some x y (rw (e, apply_fast_tool_call) at h)
        | inr (r, e) ↦ Kept-with_state x y _ (rw (e, apply_fast_tool_call) at h)
      ]

  stored-Kept :
      (x y : Execution) (key : Option String) (r : Option Reducer) (value : Value)
      → stored J S x key r value ≡ some y
      → Kept x y
  stored-Kept x y none r value h = Kept-some x y h
  stored-Kept x y (some key) none value h = Kept-some x y h
  stored-Kept x y (some key) (some r) value h = Kept-with_state x y _ h

  apply_task-Kept :
      (x y : Execution) (n : Option Node) (value : Value)
      → apply_task J S x n value ≡ some y
      → Kept x y
  apply_task-Kept x y none value h = Kept-some x y h
  apply_task-Kept x y (some (task id kind config)) value h =
      let (z, p, q) =
        >>=-eq-some (apply_fast_tool_call J S (charge_budget J S x value) value) _ h in
      Kept-trans x z y
        (Kept-trans x (charge_budget J S x value) z (charge_budget-Kept x value)
          (apply_fast_tool_call-Kept _ z value p))
        (stored-Kept z y _ _ value q)
  apply_task-Kept x y (some (fan_out id source item_var target)) value h = Kept-some x y h
  apply_task-Kept x y (some (fan_in id key reducer)) value h = Kept-some x y h
  apply_task-Kept x y (some (subgraph id graph_id version input output_key)) value h =
      Kept-some x y h
  apply_task-Kept x y (some (wait id on)) value h = Kept-some x y h
  apply_task-Kept x y (some (Node.end id)) value h = Kept-some x y h

  apply_result-Kept :
      (g : Graph) (x y : Execution) (id : NodeId) (r : Result String Value)
      → apply_result J S g x id r ≡ some y
      → Kept x y
  apply_result-Kept g x y id (ok value) h = apply_task-Kept x y (node g id) value h
  apply_result-Kept g x y id (err error) h = Kept-some x y h

  -- The execution keeps its identity and its limits, and the one new event reports the output.
  pub apply_output-frame :
      (stamps : Stamps) (g : Graph) (x y : Execution) (events events' : List ExecutionEvent)
      (output : NodeOutput)
      → apply_output J S stamps g x events output ≡ some (y, events')
      → Kept x y × (events' ≡ push_event stamps x (report J S output) events)
  unfolding apply_output
  apply_output-frame stamps g x y events events' output h =
      let (z, p, q) = >>=-eq-some (apply_result J S g x output.node.node output.result) _ h in
      let (r, s) = of_some_pair_eq q in
      (apply_result-Kept g x y _ output.result (p ∙ ap some r), sym s)
