-- ===== src/EngineCore/Step/Outcome.antt =====
-- How a super-step ends: the status it leaves, the event that announces it, and the count of
-- iterations (engine-core/src/step.rs).
use ai_engineering_boilerpla.Base.{
  ◌≡◌, ap, ◌∙◌, subst, true, some, List, ◌∷◌, ◌++◌, map, >>=-eq-some, of_some_eq, Any,
}
use ai_engineering_boilerpla.Json.{Json}
use ai_engineering_boilerpla.EngineCore.Budget.{exhausted}
use ai_engineering_boilerpla.EngineCore.Budget.Laws.{exhausted_stays}
use ai_engineering_boilerpla.EngineCore.Graph.{Graph, Instant}
use ai_engineering_boilerpla.EngineCore.LlmOutput.{Serde}
use ai_engineering_boilerpla.EngineCore.Execution.{
  failed, Execution, ExecutionEvent, ExecutionPayload, Stamps,
}
use ai_engineering_boilerpla.EngineCore.Execution.Kept.{SameRun, SameRun-trans}
use ai_engineering_boilerpla.EngineCore.FanIn.{NodeOutput}
use ai_engineering_boilerpla.EngineCore.Output.{report}
use ai_engineering_boilerpla.EngineCore.Loop.{Progress, process_all}
use ai_engineering_boilerpla.EngineCore.Loop.Frame.{IsHardFailure}
use ai_engineering_boilerpla.EngineCore.Loop.Rounds.{Rounds, payloads, process_all-Rounds}
use ai_engineering_boilerpla.EngineCore.Step.Settle.{
  Announced, Settled, settle-Settled, settle-failed, settle-exhausted,
}
use ai_engineering_boilerpla.EngineCore.Step.{settle, is_nil, started, step}

module _ (J : Json) (S : Serde) where
  -- What a step that returns comes from: the loop's variables.
  pub step-cases :
      (stamps : Stamps) (g : Graph) (x y : Execution) (outputs : List NodeOutput) (now : Instant)
      (events : List ExecutionEvent)
      → step J S stamps g x outputs now ≡ some (y, events)
      → (p : Progress) × Rounds J S g (started x outputs) p outputs
        × (settle J S stamps g p (is_nil outputs) now ≡ (y, events))
  unfolding step
  step-cases stamps g x y outputs now events h =
      let (p, a, b) = >>=-eq-some (process_all J S stamps g (started x outputs) outputs) _ h in
      (p, process_all-Rounds J S stamps g (started x outputs) p outputs a, of_some_eq b)

  -- One event reports each output, in the order of the outputs, and after them stands exactly the
  -- event that announces the status in which the step leaves the execution: none when it is ready,
  -- what it waits for, the answer and the final state when it is completed, the error when it
  -- failed. No other status is left, and a completed execution has no active node.
  pub step-Announced :
      (stamps : Stamps) (g : Graph) (x y : Execution) (outputs : List NodeOutput) (now : Instant)
      (events : List ExecutionEvent)
      → step J S stamps g x outputs now ≡ some (y, events)
      → (tail : List ExecutionPayload) × (payloads events ≡ map (report J S) outputs ++ tail)
        × Announced J S g y tail
  step-Announced stamps g x y outputs now events h =
      let (p, rounds, e) = step-cases stamps g x y outputs now events h in
      let s =
        subst (Settled J S g p.execution p.events) e
          (settle-Settled J S stamps g p (is_nil outputs) now) in
      (s.tail, s.extended ∙ ap (λ t. t ++ s.tail) rounds.reported, s.announced)

  -- A step changes neither the execution's identity, owner, graph, deadline and iteration limit,
  -- nor does it ever give budget back.
  pub step-SameRun :
      (stamps : Stamps) (g : Graph) (x y : Execution) (outputs : List NodeOutput) (now : Instant)
      (events : List ExecutionEvent)
      → step J S stamps g x outputs now ≡ some (y, events)
      → SameRun x y
  step-SameRun stamps g x y outputs now events h =
      let (p, rounds, e) = step-cases stamps g x y outputs now events h in
      let s =
        subst (Settled J S g p.execution p.events) e
          (settle-Settled J S stamps g p (is_nil outputs) now) in
      SameRun-trans x p.execution y rounds.kept.run s.run

  -- If any output failed, of a node that is no FanOut, the execution fails, whatever the others
  -- returned.
  pub step_failed_output :
      (stamps : Stamps) (g : Graph) (x y : Execution) (outputs : List NodeOutput) (now : Instant)
      (events : List ExecutionEvent)
      → Any (IsHardFailure g) outputs
      → step J S stamps g x outputs now ≡ some (y, events)
      → y.status ≡ failed
  step_failed_output stamps g x y outputs now events a h =
      let (p, rounds, e) = step-cases stamps g x y outputs now events h in
      subst (λ (r : Execution × List ExecutionEvent). r.0.status ≡ failed) e
        (settle-failed J S stamps g p (is_nil outputs) now (rounds.failure_noted a))

  -- An execution whose budget is exhausted fails at its next output, whatever that returned.
  pub step_exhausted :
      (stamps : Stamps) (g : Graph) (x y : Execution) (o : NodeOutput) (outputs : List NodeOutput)
      (now : Instant) (events : List ExecutionEvent)
      → exhausted x.budget ≡ true
      → step J S stamps g x (o ∷ outputs) now ≡ some (y, events)
      → y.status ≡ failed
  step_exhausted stamps g x y o outputs now events b h =
      let (p, rounds, e) = step-cases stamps g x y (o ∷ outputs) now events h in
      subst (λ (r : Execution × List ExecutionEvent). r.0.status ≡ failed) e
        (settle-exhausted J S stamps g p now
          (exhausted_stays x.budget p.execution.budget rounds.kept.run.budget b))
