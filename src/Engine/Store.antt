-- ===== src/Engine/Store.antt =====
-- services/engine/src/store.rs: checkpoints, and the transaction that commits a step.
pub mod Keys
pub mod Commit
pub mod ReadBack
use ai_engineering_boilerpla.Base.{
  ℕ, suc, ◌+◌, String, Bool, true, false, ◌&&◌, ◌||◌, Option, none, some, List, [], ◌∷◌, ◌++◌, ◌==◌,
  eqb, any, map, if◌then◌else◌,
}
use ai_engineering_boilerpla.Base.Results.{Result, ok, err, ◌>>=◌}
use ai_engineering_boilerpla.Base.Integers.{ℤ, pos, negsuc}
use ai_engineering_boilerpla.Base.Tables.{last_by}
use ai_engineering_boilerpla.Json.{Value}
use ai_engineering_boilerpla.EngineCore.Graph.{Instant}
use ai_engineering_boilerpla.EngineCore.Execution.{
  ExecutionId, Execution, ExecutionEvent, Checkpoint, checkpoint_schema_version,
}
use ai_engineering_boilerpla.Engine.Rows.{RowStatus, ExecutionRow, CheckpointRow, Database}
use ai_engineering_boilerpla.Engine.Wire.{
  Columns, WireFault, unsigned_or_zero, status_to_columns, checkpoint_to_row, checkpoint_from_model,
  event_to_row,
}
use ai_engineering_boilerpla.Engine.Lease.{release_lease}

abbrev pub same_step : ℤ → ℤ → Bool
same_step (pos m) (pos n) = eqb m n
same_step (negsuc m) (negsuc n) = eqb m n
same_step _ _ = false

-- The unique key of the checkpoints table.
abbrev pub same_key : CheckpointRow → CheckpointRow → Bool
same_key a b = a.execution_id == b.execution_id && same_step a.step b.step

pub data CommitFault : Type 0 where
  duplicate_checkpoint lease_lost : CommitFault

unfoldable pub insert_checkpoint :
    CheckpointRow → List CheckpointRow → Result CommitFault (List CheckpointRow)
insert_checkpoint c rows =
    if any (λ r. same_key c r) rows then err duplicate_checkpoint else ok (rows ++ c ∷ [])

-- `released == 0`
abbrev pub released_rows : ℕ × List ExecutionRow → Result CommitFault (List ExecutionRow)
released_rows (n, rows) = if eqb n 0 then err lease_lost else ok rows

module _ (C : Columns) where
  open C use {nodes_to_value}

  abbrev pub read_back : Option CheckpointRow → Result WireFault (Option Checkpoint)
  read_back none = ok none
  read_back (some row) = checkpoint_from_model C row >>= λ c. ok (some c)

  -- PgCheckpointStore::latest
  unfoldable pub latest : ExecutionId → List CheckpointRow → Result WireFault (Option Checkpoint)
  latest id rows =
      read_back (last_by (λ r. r.execution_id == id) (λ r. unsigned_or_zero r.step) rows)

  abbrev pub checkpoint_of : ExecutionId → ℕ → Execution → Checkpoint
  checkpoint_of id step x = record {
    schema_version = checkpoint_schema_version;
    execution_id = id;
    step = step;
    state = x.state;
    current_nodes = x.current_nodes;
  }

  -- An error rolls the transaction back: nothing of it is left.
  unfoldable pub commit_step :
      ExecutionId
      → Option String
      → ℕ
      → Execution
      → List ExecutionEvent
      → Instant
      → Database
      → Result CommitFault Database
  unfolding checkpoint_to_row insert_checkpoint event_to_row status_to_columns release_lease
  commit_step id owner step x events now db = do
    checkpoints ←
        insert_checkpoint (checkpoint_to_row C now (checkpoint_of id step x)) db.checkpoints
    let columns = status_to_columns C x.status
    executions ← released_rows (
        release_lease id owner columns.0 columns.1 (nodes_to_value x.current_nodes) now
          db.executions)
    ok (record db {
      executions = executions;
      checkpoints = checkpoints;
      events = db.events ++ map (event_to_row C) events;
      wakes = db.wakes + 1;
    })
