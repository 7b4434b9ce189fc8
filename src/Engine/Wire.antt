-- ===== src/Engine/Wire.antt =====
-- services/engine/src/wire.rs: between the types of engine-core and the rows.
pub mod RoundTrip
use ai_engineering_boilerpla.Base.{
  ℕ, ◌+◌, min, String, ◌≡◌, Option, none, some, List, [], ◌∷◌, Bool, true, false, eqb,
  if◌then◌else◌,
}
use ai_engineering_boilerpla.Base.Results.{Result, ok, err, ◌>>=◌}
use ai_engineering_boilerpla.Base.Integers.{ℤ, pos, negsuc}
use ai_engineering_boilerpla.Json.{Value}
use ai_engineering_boilerpla.EngineCore.Graph.{Graph, Instant, WaitKind, timer}
use ai_engineering_boilerpla.EngineCore.Budget.{Budget, serialize, deserialize}
use ai_engineering_boilerpla.EngineCore.Execution.{
  ActiveNode, Status, ready, running, waiting, completed, failed, cancelled, Checkpoint,
  checkpoint_schema_version, ExecutionEvent, ExecutionPayload,
}
use ai_engineering_boilerpla.Engine.Rows.{RowStatus, CheckpointRow, EventRow}

-- What serde derives for the columns that hold JSON, with the round trips that it promises, and the
-- query of a timer's instant in a stored wait.
pub record Columns : Type 0 where
  pub nodes_to_value : List ActiveNode → Value
  pub nodes_from_value : Value → Result String (List ActiveNode)
  pub wait_to_value : WaitKind → Value
  pub wait_from_value : Value → Result String WaitKind
  pub budget_to_value : Budget → Value
  pub budget_from_value : Value → Result String Budget
  pub graph_to_value : Graph → Value
  pub graph_from_value : Value → Result String Graph
  pub payload_to_value : ExecutionPayload → Value
  pub timer_until : Value → Option Instant
  pub nodes-round_trip : (ns : List ActiveNode) → nodes_from_value (nodes_to_value ns) ≡ ok ns
  pub wait-round_trip : (w : WaitKind) → wait_from_value (wait_to_value w) ≡ ok w
  pub budget-round_trip :
      (b : Budget)
      → budget_from_value (budget_to_value b)
        ≡ ok (record b { wall_time_remaining = deserialize (serialize b.wall_time_remaining) })
  pub timer_until-timer : (t : Instant) → timer_until (wait_to_value (timer t)) ≡ some t

-- The messages of errors, by what they name.
pub data WireFault : Type 0 where
  out_of_range : String → WireFault
  no_wait_kind : WireFault
  unreadable : String → WireFault
  schema_mismatch : ℤ → WireFault

-- `value.try_into()` for u32.
unfoldable pub counter_column : ℤ → String → Result WireFault ℕ
counter_column (pos n) column = ok n
counter_column (negsuc n) column = err (out_of_range column)

-- `map_err(|e| e.to_string())` on an error of serde.
unfoldable pub read : {A : Type 0} → Result String A → Result WireFault A
read (ok a) = ok a
read (err e) = err (unreadable e)

abbrev pub i32_max : ℕ
i32_max = 0x7fff_ffff

abbrev pub i16_max : ℕ
i16_max = 0x7fff

-- `u32::try_from(..).unwrap_or(0)`, and the same for u16.
abbrev pub unsigned_or_zero : ℤ → ℕ
unsigned_or_zero (pos n) = n
unsigned_or_zero (negsuc n) = 0

abbrev pub same_version : ℤ → Bool
same_version (pos n) = eqb n (min checkpoint_schema_version i16_max)
same_version (negsuc n) = false

module _ (C : Columns) where
  open C use {wait_to_value, wait_from_value, nodes_to_value, nodes_from_value, payload_to_value}

  unfoldable pub status_to_columns : Status → RowStatus × Option Value
  status_to_columns ready = (RowStatus.ready, none)
  status_to_columns running = (RowStatus.running, none)
  status_to_columns (waiting on) = (RowStatus.waiting, some (wait_to_value on))
  status_to_columns completed = (RowStatus.completed, none)
  status_to_columns failed = (RowStatus.failed, none)
  status_to_columns cancelled = (RowStatus.cancelled, none)

  unfoldable pub waiting_on_column : Option Value → Result WireFault Status
  unfolding read
  waiting_on_column none = err no_wait_kind
  waiting_on_column (some v) = do on ← read (wait_from_value v); ok (waiting on)

  unfoldable pub columns_to_status : RowStatus → Option Value → Result WireFault Status
  unfolding waiting_on_column
  columns_to_status RowStatus.ready wait = ok ready
  columns_to_status RowStatus.running wait = ok running
  columns_to_status RowStatus.waiting wait = waiting_on_column wait
  columns_to_status RowStatus.completed wait = ok completed
  columns_to_status RowStatus.failed wait = ok failed
  columns_to_status RowStatus.cancelled wait = ok cancelled

  unfoldable pub checkpoint_to_row : Instant → Checkpoint → CheckpointRow
  checkpoint_to_row now c = record {
    execution_id = c.execution_id;
    step = pos (min c.step i32_max);
    schema_version = pos (min c.schema_version i16_max);
    state = c.state;
    current_nodes = nodes_to_value c.current_nodes;
    created_at = now;
  }

  unfoldable pub checkpoint_from_model : CheckpointRow → Result WireFault Checkpoint
  unfolding read
  checkpoint_from_model m =
      if same_version m.schema_version
      then (do
        nodes ← read (nodes_from_value m.current_nodes)
        ok (record {
          schema_version = unsigned_or_zero m.schema_version;
          execution_id = m.execution_id;
          step = unsigned_or_zero m.step;
          state = m.state;
          current_nodes = nodes;
        }))
      else err (schema_mismatch m.schema_version)

  unfoldable pub event_to_row : ExecutionEvent → EventRow
  event_to_row e = record {
    event_id = e.id;
    execution_id = e.correlation_id;
    user_id = e.user_id;
    version = pos (min e.version i16_max);
    causation_id = e.causation_id;
    occurred_at = e.occurred_at;
    payload = payload_to_value e.payload;
  }
