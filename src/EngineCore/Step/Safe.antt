-- ===== src/EngineCore/Step/Safe.antt =====
-- A super-step never panics on well-formed input, and leaves a well-formed state
-- (engine-core/src/step.rs).
use ai_engineering_boilerpla.Base.{◌≡◌, sym, arith, subst, some, List, All}
use ai_engineering_boilerpla.Json.{Json}
use ai_engineering_boilerpla.EngineCore.Graph.{Graph, Instant}
use ai_engineering_boilerpla.EngineCore.LlmOutput.{Serde}
use ai_engineering_boilerpla.EngineCore.Execution.{Execution, ExecutionEvent, Stamps, ActiveNode}
use ai_engineering_boilerpla.EngineCore.FanIn.{NodeOutput}
use ai_engineering_boilerpla.EngineCore.FanIn.Safe.{StateOk}
use ai_engineering_boilerpla.EngineCore.Loop.{Progress}
use ai_engineering_boilerpla.EngineCore.Loop.Applied.{GraphOk}
use ai_engineering_boilerpla.EngineCore.Loop.Safe.{NamesBranch, process_all_ok}
use ai_engineering_boilerpla.EngineCore.Step.{
  is_nil, settle, started, step, advance, dedup, expand_completed_fan_ins,
}

module _ (J : Json) (S : Serde) where
  advance-state :
      (stamps : Stamps) (g : Graph) (x : Execution) (events : List ExecutionEvent)
      (next : List ActiveNode)
      → (advance J S stamps g x events next).0.state ≡ x.state
  unfolding advance
  advance-state stamps g x events next = ground arith

  -- What follows the loop leaves the state as the outputs made it.
  settle-state :
      (stamps : Stamps) (g : Graph) (p : Progress) (b : _) (now : Instant)
      → (settle J S stamps g p b now).0.state ≡ p.execution.state
  unfolding settle
  settle-state stamps g p b now = ground (
    arith,
    advance-state stamps g p.execution p.events
        (dedup (expand_completed_fan_ins J S g p.execution p.next)),
  )

  -- On a graph in which no node writes to the key of the barriers, a state that is an object with
  -- a sound table of barriers, and outputs that name their branch where a FanIn consumes them,
  -- `step` returns, and the new state is such a state again.
  pub step_total :
      (stamps : Stamps) (g : Graph) (x : Execution) (outputs : List NodeOutput) (now : Instant)
      → GraphOk J S g
      → All (NamesBranch J S g) outputs
      → StateOk J x.state
      → (y : Execution) × (events : List ExecutionEvent) × (step J S stamps g x outputs now
          ≡ some (y, events))
        × StateOk J y.state
  unfolding step
  step_total stamps g x outputs now a b h =
      let (p, c, hp) = process_all_ok J S stamps g (started x outputs) outputs a b h in
      let r = settle J S stamps g p (is_nil outputs) now in
      (
        r.0,
        r.1,
        rw (c, step),
        subst (StateOk J) (sym (settle-state stamps g p (is_nil outputs) now)) hp,
      )
