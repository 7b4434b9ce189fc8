-- ===== src/Engine/Control.antt =====
-- services/engine/src/control.rs and owned.rs: interrupts, resumes and cancels an execution that
-- already exists. Each call is a load, a read of the next step, and a commit, three accesses to the
-- database between which others may commit.
pub mod Calls
use ai_engineering_boilerpla.Base.{
  ℕ, ◌+◌, String, Bool, true, false, not, ◌&&◌, Option, none, some, List, [], ◌∷◌, ◌==◌, find,
  is_some, if◌then◌else◌,
}
use ai_engineering_boilerpla.Base.Results.{Result, ok, err, ◌>>=◌}
use ai_engineering_boilerpla.Json.{Json, Value, object}
use ai_engineering_boilerpla.EngineCore.Graph.{Instant, UserId, GraphId}
use ai_engineering_boilerpla.EngineCore.Execution.{
  ExecutionId, Execution, ExecutionEvent, Stamps, Status, ready, waiting, cancelled,
  execution_cancelled, event, Checkpoint,
}
use ai_engineering_boilerpla.EngineCore.LlmOutput.{Serde}
use ai_engineering_boilerpla.EngineCore.Step.{interrupt}
use ai_engineering_boilerpla.Base.Integers.{ℤ}
use ai_engineering_boilerpla.Engine.Rows.{ExecutionRow, Database}
use ai_engineering_boilerpla.Engine.Wire.{Columns, WireFault}
use ai_engineering_boilerpla.Engine.Lease.{is_running}
use ai_engineering_boilerpla.Engine.Store.{CommitFault, latest, commit_step}
use ai_engineering_boilerpla.Engine.Tick.{next_step_after, position, execution_from}

-- error.rs; a text says what its message says.
pub data EngineError : Type 0 where
  invalid_graph : EngineError
  graph_not_found : GraphId → Option ℤ → EngineError
  execution_not_found : ExecutionId → EngineError
  not_yours : ExecutionId → EngineError
  invalid_request : String → EngineError
  not_waiting : ExecutionId → Status → EngineError
  busy : ExecutionId → EngineError
  storage : WireFault → EngineError
  database : CommitFault → EngineError
  panicked : EngineError

abbrev pub same_user : Option UserId → Option UserId → Bool
same_user none none = true
same_user (some a) (some b) = a == b
same_user _ _ = false

-- `OwnedExecution::checked`
unfoldable pub checked :
    ExecutionId → Option UserId → Option UserId → Result EngineError ExecutionId
checked id owner caller =
    if is_some owner && not (same_user owner caller) then err (not_yours id) else ok id

abbrev pub stored : {A : Type 0} → Result WireFault A → Result EngineError A
stored (ok a) = ok a
stored (err e) = err (storage e)

abbrev pub in_db : {A : Type 0} → Result CommitFault A → Result EngineError A
in_db (ok a) = ok a
in_db (err e) = err (database e)

abbrev pub or_panic : {A : Type 0} → Option A → Result EngineError A
or_panic (some a) = ok a
or_panic none = err panicked

abbrev pub parsed : Result String Value → Result EngineError Value
parsed (ok v) = ok v
parsed (err e) = err (invalid_request e)

abbrev pub row_of : ExecutionId → Option ExecutionRow → Result EngineError ExecutionRow
row_of id (some row) = ok row
row_of id none = err (execution_not_found id)

abbrev pub resume_event_state_key : String
resume_event_state_key = "resume_event"

abbrev pub is_waiting_status : Status → Bool
is_waiting_status (waiting on) = true
is_waiting_status _ = false

-- `if let Some(object) = execution.state.as_object_mut()`
abbrev pub with_field : Json → Value → String → Value → Value
with_field J (object m) key v = object (J.insert m key v)
with_field J state key v = state

module _ (C : Columns) where
  unfoldable pub execution_row : ExecutionId → Database → Result EngineError ExecutionRow
  execution_row id db = row_of id (find (λ r. r.id == id) db.executions)

  -- service.rs
  unfoldable pub to_execution : ExecutionRow → Option Checkpoint → Result EngineError Execution
  unfolding execution_from
  to_execution row checkpoint = stored (execution_from C row.id row (position C checkpoint row))

  unfoldable pub next_checkpoint_step : ExecutionId → Database → Result EngineError ℕ
  unfolding latest
  next_checkpoint_step id db = do
    checkpoint ← stored (latest C id db.checkpoints)
    ok (next_step_after C checkpoint)

  unfoldable pub get_execution : ExecutionId → Database → Result EngineError Execution
  unfolding execution_row latest to_execution
  get_execution id db = do
    row ← execution_row id db
    checkpoint ← stored (latest C id db.checkpoints)
    to_execution row checkpoint

  unfoldable pub load_idle : ExecutionId → Database → Result EngineError Execution
  unfolding execution_row latest to_execution
  load_idle id db = do
    row ← execution_row id db
    checkpoint ←
        (if is_running row.status then err (busy id) else stored (latest C id db.checkpoints))
    to_execution row checkpoint

  unfoldable pub persist :
      ExecutionId
      → ℕ
      → Execution × List ExecutionEvent
      → Instant
      → Database
      → Result EngineError Database
  unfolding commit_step
  persist id next_step (x, events) now db = in_db (commit_step C id none next_step x events now db)

  module _ (J : Json) (S : Serde) where
    -- The databases are what the call meets at its three accesses, and `now` is its commit's time.
    unfoldable pub interrupt_execution :
        Stamps
        → ExecutionId
        → Result String Value
        → Instant
        → Database
        → Database
        → Database
        → Result EngineError Database
    unfolding load_idle next_checkpoint_step interrupt persist
    interrupt_execution stamps id sent now at_load at_read at_commit = do
      input ← parsed sent
      x ← load_idle id at_load
      next_step ← next_checkpoint_step id at_read
      r ← or_panic (interrupt J S stamps x input)
      persist id next_step (r.0, r.1 ∷ []) now at_commit

    unfoldable pub resume :
        ExecutionId
        → Result String Value
        → Instant
        → Database
        → Database
        → Database
        → Result EngineError Database
    unfolding load_idle next_checkpoint_step persist
    resume id sent now at_load at_read at_commit = do
      event ← parsed sent
      x ← load_idle id at_load
      idle ← (if is_waiting_status x.status then ok x else err (not_waiting id x.status))
      next_step ← next_checkpoint_step id at_read
      persist id next_step
          (
            record idle {
              state = with_field J idle.state resume_event_state_key event;
              status = ready;
            },
            [],
          )
          now at_commit

    unfoldable pub cancel :
        Stamps
        → ExecutionId
        → Instant
        → Database
        → Database
        → Database
        → Result EngineError Database
    unfolding load_idle next_checkpoint_step persist event
    cancel stamps id now at_load at_read at_commit = do
      x ← load_idle id at_load
      next_step ← next_checkpoint_step id at_read
      let x' : Execution = record x { status = cancelled }
      persist id next_step (x', event stamps 0 x' execution_cancelled ∷ []) now at_commit
