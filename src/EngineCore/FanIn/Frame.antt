-- ===== src/EngineCore/FanIn/Frame.antt =====
-- The fan-out barrier touches nothing of an execution but its state (engine-core/src/step.rs).
use ai_engineering_boilerpla.Base.{
  Option, ℕ, ◌≡◌, subst, some, List, >>=-eq-some, of_some_eq, of_some_pair_eq, Bool, true, false,
}
use ai_engineering_boilerpla.Json.{Json, as_object}
use ai_engineering_boilerpla.EngineCore.Graph.{
  NodeId, Graph, Node, task, fan_out, fan_in, subgraph, wait,
}
use ai_engineering_boilerpla.EngineCore.Execution.{ActiveNode, Execution}
use ai_engineering_boilerpla.EngineCore.Execution.Kept.{Kept-refl, Kept, Kept-state}
use ai_engineering_boilerpla.EngineCore.FanIn.{
  NodeOutput, open_barrier, fan_in_table, fan_in_consuming, open_fan_in_barrier, result_ok,
  record_result, none_null, settled, record_fan_in_branch,
}

module _ (J : Json) where
  settled-Kept :
      (x : Execution) (m : _) (rs : _) (b : Bool) (id : NodeId) (key : _) (r : _)
      → Kept x (settled J x m rs b id key r)
  unfolding settled
  settled-Kept x m rs true id key r = Kept-state x _
  settled-Kept x m rs false id key r = Kept-state x _

  open_barrier-Kept :
      (n : Option Node) (x y : Execution) (spawned : ℕ)
      → open_barrier J x n spawned ≡ some y
      → Kept x y
  unfolding open_barrier
  open_barrier-Kept (some (fan_in id key reducer)) x y spawned h =
      let (m, p, q) = >>=-eq-some (as_object x.state) _ h in
      let (table, r, s) = >>=-eq-some (fan_in_table J m) _ q in
      subst (Kept x) (of_some_eq s) (Kept-state x _)
  open_barrier-Kept _ x y spawned h = subst (Kept x) (of_some_eq h) (Kept-refl x)

  pub open_fan_in_barrier-Kept :
      (g : Graph) (x y : Execution) (target : NodeId) (n : ℕ)
      → open_fan_in_barrier J g x target n ≡ some y
      → Kept x y
  unfolding open_fan_in_barrier
  open_fan_in_barrier-Kept g x y target n h = open_barrier-Kept (fan_in_consuming g target) x y n h

  pub record_fan_in_branch-Kept :
      (x y : Execution) (output : NodeOutput) (n : Node) (next next' : List ActiveNode)
      → record_fan_in_branch J x output n next ≡ some (y, next')
      → Kept x y
  unfolding record_fan_in_branch
  record_fan_in_branch-Kept x y output (fan_in id key reducer) next next' h =
      let (i, _, h1) = >>=-eq-some output.node.branch _ h in
      let (v, _, h2) = >>=-eq-some (result_ok J output.result) _ h1 in
      let (m, _, h3) = >>=-eq-some (as_object x.state) _ h2 in
      let ((m', rs), _, h4) = >>=-eq-some (record_result J m id i v) _ h3 in
      subst (Kept x) (of_some_pair_eq h4).0 (settled-Kept x m' rs (none_null rs) id key reducer)
  record_fan_in_branch-Kept x y output (task id kind config) next next' h = cc
  record_fan_in_branch-Kept x y output (fan_out id source item_var target) next next' h = cc
  record_fan_in_branch-Kept x y output (subgraph id gid version input key) next next' h = cc
  record_fan_in_branch-Kept x y output (wait id on) next next' h = cc
  record_fan_in_branch-Kept x y output (Node.end id) next next' h = cc
