-- ===== src/EngineCore/Step/Limit.antt =====
-- A step below the iteration limit does not end for it (engine-core/src/step.rs).
use mathlib.Core.List.{append-nil}
use ai_engineering_boilerpla.Base.{
  String, ◌<◌, ◌≡◌, refl, sym, ◌∙◌, ap, subst, Bool, inl, inr, Option, none, some, List, [], ◌∷◌,
  ◌++◌, map, not, ◌&&◌, leb, any, Bool-cases, Option-cases, Result, ok, err, All, All-append, arith,
}
use ai_engineering_boilerpla.Json.{Json, Value}
use ai_engineering_boilerpla.EngineCore.Budget.{exhausted}
use ai_engineering_boilerpla.EngineCore.Graph.{Graph, Instant, WaitKind, answer, node}
use ai_engineering_boilerpla.EngineCore.LlmOutput.{Serde}
use ai_engineering_boilerpla.EngineCore.Execution.{
  ActiveNode, Execution, ExecutionEvent, ExecutionPayload, Failure, Stamps, completed, waiting,
  failed, execution_completed, execution_failed, waiting_on, budget_exhausted, deadline_exceeded,
  max_iterations_reached, node_failed_with_no_edge,
}
use ai_engineering_boilerpla.EngineCore.FanIn.{NodeOutput}
use ai_engineering_boilerpla.EngineCore.Output.{report}
use ai_engineering_boilerpla.EngineCore.Loop.{Progress}
use ai_engineering_boilerpla.EngineCore.Loop.Frame.{IsOfNode}
use ai_engineering_boilerpla.EngineCore.Loop.Rounds.{payloads, payloads-push_event}
use ai_engineering_boilerpla.EngineCore.Step.{
  is_end, finish, fail_with, park, park_next, next_iteration, advance, is_due, settle, step, is_nil,
}
use ai_engineering_boilerpla.EngineCore.Step.Outcome.{step-cases}

-- The failure of an execution for its iteration limit.
abbrev pub IsLimit : ExecutionPayload → Type 0
IsLimit (execution_failed (max_iterations_reached n)) = Unit
IsLimit p = ⊥

-- Events after which no failure for the iteration limit was added.
abbrev Unlimited : List ExecutionEvent → Execution × List ExecutionEvent → Type 0
Unlimited events r =
    (tail : List ExecutionPayload) × (payloads r.1 ≡ payloads events ++ tail)
    × All (λ p. ¬ IsLimit p) tail

finish-Unlimited :
    (stamps : Stamps) (x : Execution) (events : List ExecutionEvent) (p : ExecutionPayload)
    → ¬ IsLimit p
    → Unlimited events (finish stamps x events p)
unfolding finish
finish-Unlimited stamps x events p h = (p ∷ [], rw payloads-push_event, (h, tt))

park-Unlimited :
    (stamps : Stamps) (x : Execution) (events : List ExecutionEvent) (on : Option WaitKind)
    → Unlimited events (park stamps x events on)
park-Unlimited stamps x events none = ([], simp append-nil, tt)
park-Unlimited stamps x events (some on) =
    finish-Unlimited stamps (record x { status = waiting on }) events (waiting_on on) (λ h. h)

failed-Unlimited :
    (stamps : Stamps) (x : Execution) (events : List ExecutionEvent) (e : Failure)
    → ¬ IsLimit (execution_failed e)
    → Unlimited events (fail_with stamps x events e)
failed-Unlimited stamps x events e h =
    finish-Unlimited stamps (record x { status = failed }) events (execution_failed e) h

IsOfNode-unlimited : (e : Failure) → IsOfNode (some e) → ¬ IsLimit (execution_failed e)
IsOfNode-unlimited budget_exhausted h = elim h [ ]
IsOfNode-unlimited deadline_exceeded h = elim h [ ]
IsOfNode-unlimited (max_iterations_reached n) h = elim h [ ]
IsOfNode-unlimited (node_failed_with_no_edge id error) h = λ l. l

module _ (J : Json) (S : Serde) where
  advance-Unlimited :
      (stamps : Stamps) (g : Graph) (x : Execution) (events : List ExecutionEvent)
      (next : List ActiveNode)
      → next_iteration x.iteration < x.max_iterations
      → Unlimited events (advance J S stamps g x events next)
  unfolding advance park_next
  advance-Unlimited stamps g x events next h =
      elim (Bool-cases (any (λ a. is_end (node g a.node)) next)) [
        | inl e ↦ rw e (
            finish-Unlimited stamps
              (record x {
                iteration = next_iteration x.iteration;
                current_nodes = [];
                status = completed;
              })
              events (execution_completed x.state (answer J g x.state)) (λ l. l))
        | inr e ↦ rw e (elim (Bool-cases (leb x.max_iterations (next_iteration x.iteration))) [
          | inl f ↦ absurd (ground (arith, f, h))
          | inr f ↦ rw f (
              park-Unlimited stamps
                (record x { current_nodes = next; iteration = next_iteration x.iteration }) events
                _)
        ])
      ]

  settle-Unlimited :
      (stamps : Stamps) (g : Graph) (p : Progress) (b : Bool) (now : Instant)
      → IsOfNode p.hard_failure
      → next_iteration p.execution.iteration < p.execution.max_iterations
      → Unlimited p.events (settle J S stamps g p b now)
  unfolding settle
  settle-Unlimited stamps g p b now k h = elim (Option-cases p.hard_failure) [
    | inl n ↦
        rw (n, settle)
          (elim (Bool-cases (not b && exhausted p.execution.budget)) [
            | inl e ↦ rw e (failed-Unlimited stamps p.execution p.events budget_exhausted (λ l. l))
            | inr e ↦ rw e (elim (Bool-cases (not b && is_due p.execution.deadline now)) [
              | inl f ↦
                  rw f (failed-Unlimited stamps p.execution p.events deadline_exceeded (λ l. l))
              | inr f ↦ rw f (advance-Unlimited stamps g p.execution p.events _ h)
            ])
          ])
    | inr (e, n) ↦
        rw (n, settle)
          (failed-Unlimited stamps p.execution p.events e
            (IsOfNode-unlimited e (subst IsOfNode n k)))
  ]

  report-unlimited :
      (o : NodeOutput) (r : Result String Value) → o.result ≡ r → ¬ IsLimit (report J S o)
  unfolding report
  report-unlimited o (ok value) e = rw (e, report) (λ l. l)
  report-unlimited o (err error) e = rw (e, report) (λ l. l)

  reports-unlimited : (os : List NodeOutput) → All (λ p. ¬ IsLimit p) (map (report J S) os)
  reports-unlimited [] = tt
  reports-unlimited (o ∷ os) = (report-unlimited o o.result refl, reports-unlimited os)

  -- A step whose count of iterations is below the limit does not fail the execution for it.
  pub step-not-IsLimit :
      (stamps : Stamps) (g : Graph) (x y : Execution) (outputs : List NodeOutput) (now : Instant)
      (events : List ExecutionEvent)
      → step J S stamps g x outputs now ≡ some (y, events)
      → next_iteration x.iteration < x.max_iterations
      → All (λ p. ¬ IsLimit p) (payloads events)
  step-not-IsLimit stamps g x y outputs now events e h =
      let (p, rounds, f) = step-cases J S stamps g x y outputs now events e in
      let below : next_iteration p.execution.iteration < p.execution.max_iterations =
        rw (rounds.kept.iteration, rounds.kept.run.max_iterations) h in
      let (tail, a, b) =
        subst (Unlimited p.events) f
          (settle-Unlimited stamps g p (is_nil outputs) now (rounds.failure_of_node tt) below) in
      subst (All (λ q. ¬ IsLimit q)) (sym (a ∙ ap (λ t. t ++ tail) rounds.reported)) (
        All-append (λ q. ¬ IsLimit q) (map (report J S) outputs) tail (reports-unlimited outputs) b)
