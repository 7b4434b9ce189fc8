-- ===== src/Engine/Workers/Limitless.antt =====
-- The iteration limit and the ticks (services/engine/src/tick.rs).
use ai_engineering_boilerpla.Base.{◌<◌, ◌≡◌, List, Any, All, arith}
use ai_engineering_boilerpla.Base.Results.{ok, >>=-eq-ok}
use ai_engineering_boilerpla.Base.Tables.Laws.{All-Any}
use ai_engineering_boilerpla.Json.{Json}
use ai_engineering_boilerpla.EngineCore.Graph.{Instant}
use ai_engineering_boilerpla.EngineCore.LlmOutput.{Serde}
use ai_engineering_boilerpla.EngineCore.Execution.{Execution, ExecutionEvent, Stamps}
use ai_engineering_boilerpla.EngineCore.FanIn.{NodeOutput}
use ai_engineering_boilerpla.EngineCore.Loop.Rounds.{payloads}
use ai_engineering_boilerpla.EngineCore.Step.{step, next_iteration}
use ai_engineering_boilerpla.EngineCore.Step.Limit.{IsLimit, step-not-IsLimit}
use ai_engineering_boilerpla.Engine.Wire.{Columns}
use ai_engineering_boilerpla.Engine.Nodes.{Executor, run_nodes, panicked}
use ai_engineering_boilerpla.Engine.Tick.{Work, stepped}
use ai_engineering_boilerpla.Engine.Answers.{found-ok}
use ai_engineering_boilerpla.Engine.Workers.{System, Reach}
use ai_engineering_boilerpla.Engine.Workers.Fresh.{IsFresh}
use ai_engineering_boilerpla.Engine.Workers.Counters.{Reach-IsFreshSystem}

module _ (C : Columns) (J : Json) (S : Serde) where
  fresh_below : (x : Execution) → IsFresh C x → next_iteration x.iteration < x.max_iterations
  fresh_below x (a, b, c) = rw (a, b) (omega arith)

  -- In every state that can be reached, whatever its nodes return, a tick that runs what it has loaded
  -- emits no event that its execution failed for its iteration limit.
  pub stepped-unlimited :
      (s : System) (w : Work) (executor : Executor) (ended : List NodeOutput → List NodeOutput)
      (stamps : Stamps) (now : Instant) (y : Execution) (events : List ExecutionEvent)
      → Reach C J S s
      → Any (λ v. v ≡ w) s.works
      → stepped C J S executor ended stamps now w ≡ ok (y, events)
      → All (λ p. ¬ IsLimit p) (payloads events)
  unfolding stepped
  stepped-unlimited s w executor ended stamps now y events r m e =
      let (outputs, a, b) =
        >>=-eq-ok (run_nodes J executor w.graph w.execution w.execution.current_nodes) _ e in
      let fresh =
        All-Any (λ (v : Work). IsFresh C v.execution) w s.works m
          (Reach-IsFreshSystem C J S s r).works_kept in
      step-not-IsLimit J S stamps w.graph w.execution y (ended outputs) now events
        (found-ok panicked (step J S stamps w.graph w.execution (ended outputs) now) (y, events) b)
        (fresh_below w.execution fresh)
