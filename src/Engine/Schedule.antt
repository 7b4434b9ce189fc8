-- ===== src/Engine/Schedule.antt =====
-- services/engine/src/scheduler.rs, schedule_service.rs and cron_next.rs: the cron daemon claims one
-- due schedule per poll and starts its execution. The next time of an expression is a parameter.
pub mod Once
use ai_engineering_boilerpla.Base.{
  ℕ, ◌+◌, String, Bool, true, false, not, ◌&&◌, Option, none, some, List, [], ◌∷◌, ◌++◌, ◌==◌, leb,
  eqb, is_some, if◌then◌else◌,
}
use ai_engineering_boilerpla.Base.Results.{Result, ok, err, ◌>>=◌}
use ai_engineering_boilerpla.Base.Integers.{ℤ}
use ai_engineering_boilerpla.Base.Tables.{first_by, update_where}
use ai_engineering_boilerpla.Json.{Value, object}
use ai_engineering_boilerpla.EngineCore.Graph.{Instant, GraphId, UserId}
use ai_engineering_boilerpla.EngineCore.Execution.{ExecutionId}
use ai_engineering_boilerpla.Engine.Control.{EngineError, invalid_request, parsed}

pub record ScheduleRow : Type 0 where
  pub id : ℕ
  pub graph_id : GraphId
  pub graph_version : Option ℤ
  pub cron_expr : String
  pub input_json : Value
  pub user_id : Option UserId
  pub enabled : Bool
  pub next_run_at : Instant
  pub last_execution_id : Option ExecutionId
  pub created_at : Instant
  pub updated_at : Instant

pub record DueSchedule : Type 0 where
  pub id : ℕ
  pub graph_id : GraphId
  pub graph_version : Option ℤ
  pub input_json : Value
  pub user_id : Option UserId

unfoldable pub is_due : Instant → ScheduleRow → Bool
is_due now s = s.enabled && leb s.next_run_at now

unfoldable pub due_of : ScheduleRow → DueSchedule
due_of s = record {
  id = s.id;
  graph_id = s.graph_id;
  graph_version = s.graph_version;
  input_json = s.input_json;
  user_id = s.user_id;
}

abbrev pub ok_or_none : Result String Instant → Option Instant
ok_or_none (ok next) = some next
ok_or_none (err e) = none

-- A schedule whose expression cannot be advanced is disabled.
unfoldable pub advanced : Option Instant → Instant → ScheduleRow → ScheduleRow
advanced (some next) now s = record s { next_run_at = next; updated_at = now }
advanced none now s = record s { enabled = false; updated_at = now }

abbrev pub object_or_refused : Value → Result EngineError Value
object_or_refused (object m) = ok (object m)
object_or_refused _ = err (invalid_request "input_json must decode to a JSON object")

abbrev pub fires_at : Result String Instant → Result EngineError Instant
fires_at (ok next) = ok next
fires_at (err e) = err (invalid_request e)

-- `next_fire_after`: the next time of an expression after an instant.
module _ (next_fire_after : String → Instant → Result String Instant) where
  unfoldable pub claim_one_due :
      (ℕ → Bool) → Instant → List ScheduleRow → Option DueSchedule × List ScheduleRow
  unfolding is_due due_of advanced
  claim_one_due locked now rows =
      elim (first_by (λ s. is_due now s && not (locked s.id)) (λ s. s.next_run_at) rows) [
        | none ↦ (none, rows)
        | some s ↦
            let next = ok_or_none (next_fire_after s.cron_expr now) in
            (
              if is_some next then some (due_of s) else none,
              update_where (λ r. eqb r.id s.id) (advanced next now) rows,
            )
      ]

  unfoldable pub create_schedule :
      ℕ
      → GraphId
      → Option ℤ
      → String
      → Result String Value
      → Option UserId
      → Instant
      → List ScheduleRow
      → Result EngineError (List ScheduleRow)
  create_schedule id graph_id version cron_expr sent user_id now rows = do
    next_run_at ← fires_at (next_fire_after cron_expr now)
    given ← parsed sent
    input ← object_or_refused given
    ok (
        rows
        ++ record {
          id = id;
          graph_id = graph_id;
          graph_version = version;
          cron_expr = cron_expr;
          input_json = input;
          user_id = user_id;
          enabled = true;
          next_run_at = next_run_at;
          last_execution_id = none;
          created_at = now;
          updated_at = now;
        }
          ∷ [])

unfoldable pub record_last_execution :
    ℕ → ExecutionId → Instant → List ScheduleRow → List ScheduleRow
record_last_execution id execution now rows =
    update_where (λ r. eqb r.id id)
      (λ r. record r { last_execution_id = some execution; updated_at = now }) rows

-- `fire`: `started` is the execution that `start_execution` gave, if it did.
unfoldable pub fire :
    DueSchedule → Option ExecutionId → Instant → List ScheduleRow → List ScheduleRow
unfolding record_last_execution
fire due none now rows = rows
fire due (some execution) now rows = record_last_execution due.id execution now rows
