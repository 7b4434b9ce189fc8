-- ===== src/EngineCore/Step/Settle.antt =====
-- How the part of `step` after its loop ends, on each of its branches (engine-core/src/step.rs).
use ai_engineering_boilerpla.Base.{
  ℕ, ◌<◌, ◌≡◌, refl, Bool, true, false, inl, inr, Option, none, some, List, [], ◌∷◌, ◌++◌, not,
  ◌&&◌, leb, any, is_some, Bool-cases, Option-cases, arith,
}
use mathlib.Core.List.{append-nil}
use ai_engineering_boilerpla.Json.{Json}
use ai_engineering_boilerpla.EngineCore.Budget.{exhausted}
use ai_engineering_boilerpla.EngineCore.Graph.{Graph, Instant, WaitKind, answer, node}
use ai_engineering_boilerpla.EngineCore.LlmOutput.{Serde}
use ai_engineering_boilerpla.EngineCore.Execution.{
  ActiveNode, Status, ready, completed, failed, waiting, Execution, ExecutionEvent,
  ExecutionPayload, Failure, Stamps, execution_completed, execution_failed, waiting_on,
  budget_exhausted, deadline_exceeded,
}
use ai_engineering_boilerpla.EngineCore.Execution.Kept.{SameRun, SameRun-moved}
use ai_engineering_boilerpla.EngineCore.Loop.{Progress}
use ai_engineering_boilerpla.EngineCore.Loop.Rounds.{payloads, payloads-push_event}
use ai_engineering_boilerpla.EngineCore.Step.{
  is_end, finish, fail_with, park, park_next, next_iteration, advance, is_due, settle,
}

-- Another super-step may follow, at once or after a wait.
abbrev pub is_live : Status → Bool
is_live ready = true
is_live (waiting on) = true
is_live _ = false

module _ (J : Json) (S : Serde) where
  -- The events that announce the status of an execution.
  pub data Announced (g : Graph) (x : Execution) : List ExecutionPayload → Type 0 where
    is_ready : x.status ≡ ready → Announced g x []
    is_waiting : (on : WaitKind) → x.status ≡ waiting on → Announced g x (waiting_on on ∷ [])
    is_completed :
        x.status ≡ completed
        → x.current_nodes ≡ []
        → Announced g x (execution_completed x.state (answer J g x.state) ∷ [])
    is_failed : (e : Failure) → x.status ≡ failed → Announced g x (execution_failed e ∷ [])

  -- The result of settling an execution `x` whose loop emitted `events`.
  pub record Settled (g : Graph) (x : Execution) (events : List ExecutionEvent)
      (r : Execution × List ExecutionEvent) : Type 0 where
    pub tail : List ExecutionPayload
    pub extended : payloads r.1 ≡ payloads events ++ tail
    pub announced : Announced g r.0 tail
    pub run : SameRun x r.0
    pub counted :
        is_live r.0.status ≡ true
        → (r.0.iteration ≡ next_iteration x.iteration) × (r.0.iteration < x.max_iterations)

  fail_with-Settled :
      (stamps : Stamps) (g : Graph) (x : Execution) (n : ℕ) (events : List ExecutionEvent)
      (e : Failure)
      → Settled g x events (fail_with stamps (record x { iteration = n }) events e)
  unfolding finish
  fail_with-Settled stamps g x n events e = record {
    tail = execution_failed e ∷ [];
    extended = rw payloads-push_event;
    announced = is_failed e refl;
    run = SameRun-moved x failed x.current_nodes n;
    counted = λ h. cc;
  }

  park-Settled :
      (stamps : Stamps) (g : Graph) (x : Execution) (next : List ActiveNode) (n : ℕ)
      (events : List ExecutionEvent) (on : Option WaitKind)
      → n ≡ next_iteration x.iteration
      → n < x.max_iterations
      → Settled g x events
          (park stamps (record x { current_nodes = next; iteration = n }) events on)
  unfolding finish
  park-Settled stamps g x next n events none e lt = record {
    tail = [];
    extended = simp append-nil;
    announced = is_ready refl;
    run = SameRun-moved x ready next n;
    counted = λ h. (e, lt);
  }
  park-Settled stamps g x next n events (some on) e lt = record {
    tail = waiting_on on ∷ [];
    extended = rw payloads-push_event;
    announced = is_waiting on refl;
    run = SameRun-moved x (waiting on) next n;
    counted = λ h. (e, lt);
  }

  completed-Settled :
      (stamps : Stamps) (g : Graph) (x : Execution) (n : ℕ) (events : List ExecutionEvent)
      → Settled g x events (
          finish stamps
            (record x { iteration = n; current_nodes = []; status = completed })
            events
            (execution_completed x.state (answer J g x.state)))
  unfolding finish
  completed-Settled stamps g x n events = record {
    tail = execution_completed x.state (answer J g x.state) ∷ [];
    extended = rw payloads-push_event;
    announced = is_completed refl refl;
    run = SameRun-moved x completed [] n;
    counted = λ h. cc;
  }

  advance-Settled :
      (stamps : Stamps) (g : Graph) (x : Execution) (events : List ExecutionEvent)
      (next : List ActiveNode)
      → Settled g x events (advance J S stamps g x events next)
  unfolding advance park_next
  advance-Settled stamps g x events next =
      elim (Bool-cases (any (λ a. is_end (node g a.node)) next)) [
        | inl e ↦ rw e (completed-Settled stamps g x (next_iteration x.iteration) events)
        | inr e ↦ rw e (elim (Bool-cases (leb x.max_iterations (next_iteration x.iteration))) [
          | inl f ↦ rw f (fail_with-Settled stamps g x (next_iteration x.iteration) events _)
          | inr f ↦ rw f (
              park-Settled stamps g x next (next_iteration x.iteration) events _ refl
                (ground arith))
        ])
      ]

  pub settle-Settled :
      (stamps : Stamps) (g : Graph) (p : Progress) (b : Bool) (now : Instant)
      → Settled g p.execution p.events (settle J S stamps g p b now)
  unfolding settle
  settle-Settled stamps g p b now = elim (Option-cases p.hard_failure) [
    | inl h ↦
        rw (h, settle)
          (elim (Bool-cases (not b && exhausted p.execution.budget)) [
            | inl e ↦ rw e (
                fail_with-Settled stamps g p.execution p.execution.iteration p.events
                  budget_exhausted)
            | inr e ↦ rw e (elim (Bool-cases (not b && is_due p.execution.deadline now)) [
              | inl f ↦ rw f (
                  fail_with-Settled stamps g p.execution p.execution.iteration p.events
                    deadline_exceeded)
              | inr f ↦ rw f (advance-Settled stamps g p.execution p.events _)
            ])
          ])
    | inr (e, h) ↦
        rw (h, settle) (fail_with-Settled stamps g p.execution p.execution.iteration p.events e)
  ]

  pub settle-failed :
      (stamps : Stamps) (g : Graph) (p : Progress) (b : Bool) (now : Instant)
      → is_some p.hard_failure ≡ true
      → (settle J S stamps g p b now).0.status ≡ failed
  unfolding settle
  settle-failed stamps g p b now h = elim (Option-cases p.hard_failure) [
    | inl e ↦ cc
    | inr (f, e) ↦ rw (e, settle)
  ]

  pub settle-exhausted :
      (stamps : Stamps) (g : Graph) (p : Progress) (now : Instant)
      → exhausted p.execution.budget ≡ true
      → (settle J S stamps g p false now).0.status ≡ failed
  unfolding settle
  settle-exhausted stamps g p now h = elim (Option-cases p.hard_failure) [
    | inl e ↦ rw (e, settle) (rw h refl)
    | inr (f, e) ↦ rw (e, settle)
  ]
