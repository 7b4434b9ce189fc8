-- ===== src/EngineCore/Loop/Safe.antt =====
-- The loop of `step` does not panic on well-formed input, and keeps the state well-formed
-- (engine-core/src/step.rs).
use ai_engineering_boilerpla.Base.{
  ℕ, String, ◌≡◌, refl, ap, true, false, Option, none, some, List, [], ◌∷◌, ◌++◌, ◌>>=◌, ◌==◌,
  if◌then◌else◌, Bool-cases, inl, inr, Result, ok, err, All,
}
use ai_engineering_boilerpla.Json.{Json, Value, as_array}
use ai_engineering_boilerpla.EngineCore.State.{Reducer}
use ai_engineering_boilerpla.EngineCore.Graph.{NodeId, Graph, Node, fan_out, fan_in, node}
use ai_engineering_boilerpla.EngineCore.LlmOutput.{Serde}
use ai_engineering_boilerpla.EngineCore.Execution.{ActiveNode, Execution, Stamps}
use ai_engineering_boilerpla.EngineCore.FanIn.{
  branches, NodeOutput, is_err, fan_in_table_key, fan_in_consuming,
}
use ai_engineering_boilerpla.EngineCore.FanIn.Safe.{
  StateOk, open_fan_in_barrier_ok, record_fan_in_branch_ok,
}
use ai_engineering_boilerpla.EngineCore.Loop.Frame.{record_edges-execution}
use ai_engineering_boilerpla.EngineCore.Loop.{
  Progress, Fanned, array_count, fan_out_branches, branch_output, fan_handled, fan_handled_output,
  record_edges, process, process_all,
}
use ai_engineering_boilerpla.EngineCore.Loop.Applied.{
  LeavesTable, GraphOk, apply_output_ok, fan_in_consuming-is_fan_in, fan_in_consuming-All,
}

module _ (J : Json) (S : Serde) where
  -- An output of a branch of a fan-out says which branch it is of.
  abbrev pub NamesBranch : Graph → NodeOutput → Type 0
  NamesBranch g o =
      (n : Node)
      → fan_in_consuming g o.node.node ≡ some n
      → (index : ℕ) × (o.node.branch ≡ some index)

  joined_ok :
      (x : Execution) (o : NodeOutput) (next : List ActiveNode) (id : NodeId) (key : String)
      (r : Reducer) (index : ℕ)
      → (key == fan_in_table_key) ≡ false
      → o.node.branch ≡ some index
      → StateOk J x.state
      → (f : Fanned) × (branch_output J S (some (fan_in id key r)) x o next ≡ some f)
        × StateOk J f.execution.state
  unfolding branch_output
  joined_ok x o next id key r index free b h = by_result o.result refl
    where
      by_result :
          (s : Result String Value)
          → o.result ≡ s
          → (f : Fanned) × (branch_output J S (some (fan_in id key r)) x o next ≡ some f)
            × StateOk J f.execution.state
      by_result (err error) k =
          (record { handled = false; execution = x; next = next }, rw (k, branch_output), h)
      by_result (ok v) k =
          let (y, next', c, hy) = record_fan_in_branch_ok J x o id key r next index v free b k h in
          (
            record { handled = true; execution = y; next = next' },
            rw (ap is_err k, c, branch_output),
            hy,
          )

  branch_output_ok :
      (g : Graph) (n : Option Node) (x : Execution) (o : NodeOutput) (next : List ActiveNode)
      → GraphOk J S g
      → NamesBranch g o
      → fan_in_consuming g o.node.node ≡ n
      → StateOk J x.state
      → (f : Fanned) × (branch_output J S n x o next ≡ some f) × StateOk J f.execution.state
  unfolding branch_output
  branch_output_ok g none x o next a b e h =
      (record { handled = false; execution = x; next = next }, refl, h)
  branch_output_ok g (some (fan_in id key r)) x o next a b e h =
      let (index, i) = b (fan_in id key r) e in
      joined_ok x o next id key r index (fan_in_consuming-All (LeavesTable J S) g o.node.node _ a e)
        i h
  branch_output_ok g (some n) x o next a b e h =
      let k = fan_in_consuming-is_fan_in g o.node.node _ e in cc k

  fan_handled_ok :
      (g : Graph) (n : Option Node) (x : Execution) (o : NodeOutput) (next : List ActiveNode)
      → GraphOk J S g
      → NamesBranch g o
      → StateOk J x.state
      → (f : Fanned) × (fan_handled J S n g x o next ≡ some f) × StateOk J f.execution.state
  unfolding fan_out_branches
  fan_handled_ok g (some (fan_out id source item_var target)) x o next a b h =
      let n = array_count (J.pointer x.state source >>= as_array) in
      let (y, c, hy) = open_fan_in_barrier_ok J g x target n h in
      (record { handled = true; execution = y; next = next ++ branches target 0 n }, rw c, hy)
  fan_handled_ok g (some (fan_in id key r)) x o next a b h =
      (record { handled = false; execution = x; next = next }, refl, h)
  fan_handled_ok g _ x o next a b h = branch_output_ok g _ x o next a b refl h

  process_ok :
      (stamps : Stamps) (g : Graph) (p : Progress) (o : NodeOutput)
      → GraphOk J S g
      → NamesBranch g o
      → StateOk J p.execution.state
      → (q : Progress) × (process J S stamps g p o ≡ some q) × StateOk J q.execution.state
  unfolding process fan_handled_output
  process_ok stamps g p o a b h =
      let (y, events, c, hy) = apply_output_ok J S stamps g p.execution p.events o a h in
      let (f, d, hf) = fan_handled_ok g (node g o.node.node) y o p.next a b hy in
      let r : Progress = record p { execution = f.execution; events = events; next = f.next } in
      (
        (if f.handled then r else record_edges J S g f.execution o r),
        rw (c, process) (rw d refl),
        elim (Bool-cases f.handled) [
          | inl e ↦ rw e hf
          | inr e ↦ rw e (rw (record_edges-execution J S g f.execution o r) hf)
        ],
      )

  pub process_all_ok :
      (stamps : Stamps) (g : Graph) (p : Progress) (os : List NodeOutput)
      → GraphOk J S g
      → All (NamesBranch g) os
      → StateOk J p.execution.state
      → (q : Progress) × (process_all J S stamps g p os ≡ some q) × StateOk J q.execution.state
  unfolding process_all
  process_all_ok stamps g p [] a b h = (p, refl, h)
  process_all_ok stamps g p (o ∷ os) a (b, bs) h =
      let (q, c, hq) = process_ok stamps g p o a b h in
      let (r, d, hr) = process_all_ok stamps g q os a bs hq in (r, rw c d, hr)
