-- ===== src/EngineCore/Loop/Frame.antt =====
-- One round of the loop of `step`: the run goes on, its output is reported by one event, and a
-- failed output is a hard failure unless its node is a FanOut (engine-core/src/step.rs).
use ai_engineering_boilerpla.Base.{
  Result, ok, err, String, ◌≡◌, refl, sym, ap, subst, Option, none, some, List, ◌>>=◌, >>=-eq-some,
  of_some_eq, arith, Bool, true, false, Bool-cases, is_some, inl, inr, if◌then◌else◌,
}
use ai_engineering_boilerpla.Json.{Json, Value}
use ai_engineering_boilerpla.EngineCore.Graph.{NodeId, Graph, Node, fan_out, fan_in, node}
use ai_engineering_boilerpla.EngineCore.LlmOutput.{Serde}
use ai_engineering_boilerpla.EngineCore.Execution.{
  ActiveNode, Failure, node_failed_with_no_edge, Execution, Stamps, push_event,
}
use ai_engineering_boilerpla.EngineCore.Execution.Kept.{Kept, Kept-refl, Kept-trans}
use ai_engineering_boilerpla.EngineCore.FanIn.{
  NodeOutput, is_err, open_fan_in_barrier, record_fan_in_branch,
}
use ai_engineering_boilerpla.EngineCore.FanIn.Frame.{
  open_fan_in_barrier-Kept, record_fan_in_branch-Kept,
}
use ai_engineering_boilerpla.EngineCore.Output.{apply_output, report}
use ai_engineering_boilerpla.EngineCore.Output.Frame.{apply_output-frame}
use ai_engineering_boilerpla.EngineCore.Loop.{
  Progress, Fanned, fan_out_branches, branch_output, fan_handled, fan_handled_output, record_edges,
  process,
}

-- A node that spawns branches: its own failure is not looked at.
abbrev pub is_fan_out : Option Node → Bool
is_fan_out (some (fan_out id source item_var target)) = true
is_fan_out _ = false

-- No failure, or that of a node.
abbrev pub IsOfNode : Option Failure → Type 0
IsOfNode none = Unit
IsOfNode (some (node_failed_with_no_edge id error)) = Unit
IsOfNode (some e) = ⊥

-- A failed output of a node that is no FanOut.
abbrev pub IsHardFailure : Graph → NodeOutput → Type 0
IsHardFailure g o = (is_err o.result ≡ true) × (is_fan_out (node g o.node.node) ≡ false)

module _ (J : Json) (S : Serde) where
  fan_out_branches-Kept :
      (g : Graph) (x : Execution) (source : String) (target : NodeId) (next : List ActiveNode)
      (f : Fanned)
      → fan_out_branches J S g x source target next ≡ some f
      → Kept x f.execution
  unfolding fan_out_branches
  fan_out_branches-Kept g x source target next f h =
      let (y, p, q) = >>=-eq-some (open_fan_in_barrier J g x target _) _ h in
      subst (λ (t : Fanned). Kept x t.execution) (of_some_eq q)
        (open_fan_in_barrier-Kept J g x y target _ p)

  branch_output-Kept :
      (n : Option Node) (x : Execution) (o : NodeOutput) (next : List ActiveNode) (f : Fanned)
      → branch_output J S n x o next ≡ some f
      → Kept x f.execution
  unfolding branch_output
  branch_output-Kept none x o next f h =
      subst (λ (t : Fanned). Kept x t.execution) (of_some_eq h) (Kept-refl x)
  branch_output-Kept (some n) x o next f h = elim (Bool-cases (is_err o.result)) [
    | inl e ↦ subst (λ (t : Fanned). Kept x t.execution) (of_some_eq (rw e at h)) (Kept-refl x)
    | inr e ↦ joined (rw e at h)
  ]
    where
      joined :
          (record_fan_in_branch J x o n next
              >>= (λ (x', next'). some (record { handled = true; execution = x'; next = next' })))
            ≡ some f
          → Kept x f.execution
      joined k =
          let ((y, next'), p, q) = >>=-eq-some (record_fan_in_branch J x o n next) _ k in
          subst (λ (t : Fanned). Kept x t.execution) (of_some_eq q)
            (record_fan_in_branch-Kept J x y o n next next' p)

  fan_handled-Kept :
      (n : Option Node) (g : Graph) (x : Execution) (o : NodeOutput) (next : List ActiveNode)
      (f : Fanned)
      → fan_handled J S n g x o next ≡ some f
      → Kept x f.execution
  fan_handled-Kept (some (fan_out id source item_var target)) g x o next f h =
      fan_out_branches-Kept g x source target next f h
  fan_handled-Kept (some (fan_in id key reducer)) g x o next f h =
      subst (λ (t : Fanned). Kept x t.execution) (of_some_eq h) (Kept-refl x)
  fan_handled-Kept _ g x o next f h = branch_output-Kept _ x o next f h

  branch_output-failed :
      (n : Option Node) (x : Execution) (o : NodeOutput) (next : List ActiveNode) (f : Fanned)
      → branch_output J S n x o next ≡ some f
      → is_err o.result ≡ true
      → f.handled ≡ false
  unfolding branch_output
  branch_output-failed none x o next f h e = sym (ap (λ t. t.handled) (of_some_eq h))
  branch_output-failed (some n) x o next f h e = sym (ap (λ t. t.handled) (of_some_eq (rw e at h)))

  -- A failed output of a node that is no FanOut is not taken over by the fan-out machinery.
  fan_handled-failed :
      (n : Option Node) (g : Graph) (x : Execution) (o : NodeOutput) (next : List ActiveNode)
      (f : Fanned)
      → fan_handled J S n g x o next ≡ some f
      → is_err o.result ≡ true
      → is_fan_out n ≡ false
      → f.handled ≡ false
  fan_handled-failed (some (fan_out id source item_var target)) g x o next f h e b = cc
  fan_handled-failed (some (fan_in id key reducer)) g x o next f h e b =
      sym (ap (λ t. t.handled) (of_some_eq h))
  fan_handled-failed _ g x o next f h e b = branch_output-failed _ x o next f h e

  -- What one round does to the variables of the loop.
  pub record Round (stamps : Stamps) (g : Graph) (p q : Progress) (o : NodeOutput) : Type 0 where
    pub kept : Kept p.execution q.execution
    pub reported : q.events ≡ push_event stamps p.execution (report J S o) p.events
    pub failure_stays : is_some p.hard_failure ≡ true → is_some q.hard_failure ≡ true
    pub failure_noted : IsHardFailure g o → is_some q.hard_failure ≡ true
    pub failure_of_node : IsOfNode p.hard_failure → IsOfNode q.hard_failure

  pub record_edges-execution :
      (g : Graph) (x : Execution) (o : NodeOutput) (p : Progress)
      → (record_edges J S g x o p).execution ≡ p.execution
  unfolding record_edges
  record_edges-execution g x o p = ground arith

  record_edges-events :
      (g : Graph) (x : Execution) (o : NodeOutput) (p : Progress)
      → (record_edges J S g x o p).events ≡ p.events
  unfolding record_edges
  record_edges-events g x o p = ground arith

  record_edges-failure :
      (g : Graph) (x : Execution) (o : NodeOutput) (p : Progress)
      → is_some (record_edges J S g x o p).hard_failure
        ≡ (if is_err o.result then true else is_some p.hard_failure)
  unfolding record_edges
  record_edges-failure g x o p = ground arith

  record_edges-IsOfNode :
      (g : Graph) (x : Execution) (o : NodeOutput) (p : Progress)
      → IsOfNode p.hard_failure
      → IsOfNode (record_edges J S g x o p).hard_failure
  unfolding record_edges
  record_edges-IsOfNode g x o p h = by_result o.result refl
    where
      by_result :
          (r : Result String Value)
          → o.result ≡ r
          → IsOfNode (record_edges J S g x o p).hard_failure
      by_result (ok value) e = rw (e, record_edges) h
      by_result (err error) e = rw (e, record_edges) tt

  -- The end of a round, whichever branch `handled` takes.
  chosen-Round :
      (handled : Bool) (stamps : Stamps) (g : Graph) (p r : Progress) (x : Execution)
      (o : NodeOutput)
      → Kept p.execution r.execution
      → r.events ≡ push_event stamps p.execution (report J S o) p.events
      → r.hard_failure ≡ p.hard_failure
      → (IsHardFailure g o → handled ≡ false)
      → Round stamps g p (if handled then r else record_edges J S g x o r) o
  chosen-Round true stamps g p r x o kept events failure unhandled = record {
    kept = kept;
    reported = events;
    failure_stays = λ h. rw failure h;
    failure_noted = λ h. cc (unhandled h);
    failure_of_node = λ h. subst IsOfNode (sym failure) h;
  }
  chosen-Round false stamps g p r x o kept events failure unhandled = record {
    kept = rw (record_edges-execution g x o r) kept;
    reported = rw (record_edges-events g x o r) events;
    failure_stays = λ h. rw (record_edges-failure g x o r, failure) (ground (arith, h));
    failure_noted = λ h. rw (record_edges-failure g x o r, h.0) refl;
    failure_of_node = λ h. record_edges-IsOfNode g x o r (subst IsOfNode (sym failure) h);
  }

  pub process-Round :
      (stamps : Stamps) (g : Graph) (p q : Progress) (o : NodeOutput)
      → process J S stamps g p o ≡ some q
      → Round stamps g p q o
  unfolding process fan_handled_output
  process-Round stamps g p q o h =
      let ((x, events), a, h1) =
        >>=-eq-some (apply_output J S stamps g p.execution p.events o) _ h in
      let (f, b, h2) = >>=-eq-some (fan_handled J S (node g o.node.node) g x o p.next) _ h1 in
      let (kept, reported) = apply_output-frame J S stamps g p.execution x p.events events o a in
      let r : Progress = record p { execution = f.execution; events = events; next = f.next } in
      subst (λ t. Round stamps g p t o) (of_some_eq h2)
        (chosen-Round f.handled stamps g p r f.execution o
          (Kept-trans p.execution x f.execution kept (fan_handled-Kept _ g x o p.next f b)) reported
          refl (λ (e, n). fan_handled-failed _ g x o p.next f b e n))
