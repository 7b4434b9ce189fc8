-- ===== src/EngineCore/Step.antt =====
-- engine-core/src/step.rs: one super-step of an execution. `none` is a panic.
pub mod Settle
pub mod Outcome
pub mod Limit
pub mod Safe
use ai_engineering_boilerpla.Base.{
  ℕ, ◌+◌, ◌%◌, ◌^◌, Bool, true, false, not, ◌&&◌, Option, none, some, List, [], ◌∷◌, ◌++◌, ◌>>=◌,
  ◌==◌, eqb, leb, any, find_map, if◌then◌else◌,
}
use ai_engineering_boilerpla.Json.{Json, Value, object, as_object}
use ai_engineering_boilerpla.EngineCore.Budget.{exhausted}
use ai_engineering_boilerpla.EngineCore.Graph.{
  Instant, WaitKind, external_event, Graph, Node, fan_in, subgraph, wait, node, edges_from, answer,
}
use ai_engineering_boilerpla.EngineCore.LlmOutput.{Serde}
use ai_engineering_boilerpla.EngineCore.Execution.{
  ActiveNode, ready, waiting, completed, failed, Execution, Failure, budget_exhausted,
  deadline_exceeded, max_iterations_reached, ExecutionPayload, interrupted, waiting_on,
  execution_completed, execution_failed, ExecutionEvent, Stamps, event, push_event,
}
use ai_engineering_boilerpla.EngineCore.FanIn.{NodeOutput}
use ai_engineering_boilerpla.EngineCore.Loop.{Progress, fired, process_all}

abbrev pub same_branch : Option ℕ → Option ℕ → Bool
same_branch none none = true
same_branch (some i) (some j) = eqb i j
same_branch _ _ = false

unfoldable pub active_eq : ActiveNode → ActiveNode → Bool
active_eq a b = a.node == b.node && same_branch a.branch b.branch

-- `Vec::dedup_by`: drops what equals the element kept before it.
unfoldable pub dedup_after : ActiveNode → List ActiveNode → List ActiveNode
unfolding active_eq
dedup_after a [] = []
dedup_after a (b ∷ bs) =
    let skipped = dedup_after a bs in
    let kept = b ∷ dedup_after b bs in if active_eq b a then skipped else kept

unfoldable pub dedup : List ActiveNode → List ActiveNode
unfolding dedup_after
dedup [] = []
dedup (a ∷ as') = a ∷ dedup_after a as'

abbrev pub is_end : Option Node → Bool
is_end (some (Node.end id)) = true
is_end _ = false

-- The events are pushed after the execution has its new status.
unfoldable pub finish :
    Stamps → Execution → List ExecutionEvent → ExecutionPayload → Execution × List ExecutionEvent
unfolding push_event
finish stamps x events payload = (x, push_event stamps x payload events)

abbrev pub fail_with :
    Stamps → Execution → List ExecutionEvent → Failure → Execution × List ExecutionEvent
fail_with stamps x events error =
    finish stamps (record x { status = failed }) events (execution_failed error)

abbrev pub waits_on : Option Node → Option WaitKind
waits_on (some (wait id on)) = some on
waits_on (some (subgraph id graph_id version input output_key)) = some (external_event id)
waits_on _ = none

abbrev pub park :
    Stamps → Execution → List ExecutionEvent → Option WaitKind → Execution × List ExecutionEvent
park stamps x events (some on) =
    finish stamps (record x { status = waiting on }) events (waiting_on on)
park stamps x events none = (record x { status = ready }, events)

unfoldable pub park_next :
    Stamps
    → Graph
    → Execution
    → List ExecutionEvent
    → List ActiveNode
    → Execution × List ExecutionEvent
unfolding node finish
park_next stamps g x events next =
    park stamps (record x { current_nodes = next }) events
      (find_map (λ a. waits_on (node g a.node)) next)

-- `u32` addition wraps in a release build.
abbrev pub next_iteration : ℕ → ℕ
next_iteration n = (n + 1) % 2 ^ 32

abbrev pub is_due : Option Instant → Instant → Bool
is_due none now = false
is_due (some deadline) now = leb deadline now

abbrev pub is_nil : List NodeOutput → Bool
is_nil [] = true
is_nil (o ∷ os) = false

abbrev pub started : Execution → List NodeOutput → Progress
started x outputs = record {
  execution = x;
  events = [];
  next = if is_nil outputs then x.current_nodes else [];
  hard_failure = none;
}

module _ (J : Json) (S : Serde) where
  unfoldable pub expand : Option Node → Graph → Execution → ActiveNode → List ActiveNode
  unfolding fired edges_from
  expand (some (fan_in id key reducer)) g x active = fired J S x (edges_from g active.node)
  expand _ g x active = active ∷ []

  unfoldable pub expand_completed_fan_ins : Graph → Execution → List ActiveNode → List ActiveNode
  unfolding node expand
  expand_completed_fan_ins g x [] = []
  expand_completed_fan_ins g x (a ∷ as') =
      expand (node g a.node) g x a ++ expand_completed_fan_ins g x as'

  -- From the iteration count on: the end node, the iteration limit, or the next position.
  unfoldable pub advance :
      Stamps
      → Graph
      → Execution
      → List ExecutionEvent
      → List ActiveNode
      → Execution × List ExecutionEvent
  unfolding node answer finish park_next
  advance stamps g x events next =
      let x' : Execution = record x { iteration = next_iteration x.iteration } in
      if any (λ a. is_end (node g a.node)) next
      then finish stamps (record x' { current_nodes = []; status = completed }) events
          (execution_completed x'.state (answer J g x'.state))
      else if leb x'.max_iterations x'.iteration
      then fail_with stamps x' events (max_iterations_reached x'.max_iterations)
      else park_next stamps g x' events next

  -- What `step` does after its loop over the outputs.
  unfoldable pub settle :
      Stamps → Graph → Progress → Bool → Instant → Execution × List ExecutionEvent
  unfolding finish exhausted advance dedup expand_completed_fan_ins
  settle stamps g p no_outputs now = elim p.hard_failure [
    | some error ↦ fail_with stamps p.execution p.events error
    | none ↦
        if not no_outputs && exhausted p.execution.budget
        then fail_with stamps p.execution p.events budget_exhausted
        else if not no_outputs && is_due p.execution.deadline now
        then fail_with stamps p.execution p.events deadline_exceeded
        else advance stamps g p.execution p.events
            (dedup (expand_completed_fan_ins g p.execution p.next))
  ]

  unfoldable pub step :
      Stamps
      → Graph
      → Execution
      → List NodeOutput
      → Instant
      → Option (Execution × List ExecutionEvent)
  unfolding process_all settle
  step stamps g x outputs now = do
    p ← process_all J S stamps g (started x outputs) outputs
    some (settle stamps g p (is_nil outputs) now)

  unfoldable pub interrupt : Stamps → Execution → Value → Option (Execution × ExecutionEvent)
  unfolding event
  interrupt stamps x input = do
    m ← as_object x.state
    let x' : Execution = record x {
      state = object (J.insert m "interrupt_input" input);
      status = ready;
    }
    some (x', event stamps 0 x' interrupted)
