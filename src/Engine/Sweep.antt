-- ===== src/Engine/Sweep.antt =====
-- services/engine/src/sweep.rs: deletes terminal executions and their checkpoints past the retention.
pub mod Only
use ai_engineering_boilerpla.Base.{
  ℕ, ◌-◌, Bool, true, false, not, ◌&&◌, List, [], ◌∷◌, ◌==◌, any, ltb,
}
use ai_engineering_boilerpla.Base.Tables.{first_by, delete_where, count_where}
use ai_engineering_boilerpla.Base.{Option, none, some, get_or, zero, suc}
use ai_engineering_boilerpla.EngineCore.Graph.{Instant}
use ai_engineering_boilerpla.EngineCore.Execution.{ExecutionId}
use ai_engineering_boilerpla.Engine.Rows.{RowStatus, ExecutionRow, Database}

-- TERMINAL_STATUSES
unfoldable pub is_terminal : RowStatus → Bool
is_terminal RowStatus.completed = true
is_terminal RowStatus.failed = true
is_terminal RowStatus.cancelled = true
is_terminal _ = false

abbrev pub among : List ExecutionId → ExecutionId → Bool
among ids id = any (λ i. i == id) ids

unfoldable pub is_over : Instant → ExecutionRow → Bool
unfolding is_terminal
is_over cutoff row = is_terminal row.status && ltb row.updated_at cutoff

-- `.order_by_asc(UpdatedAt).limit(batch)`: the oldest of those that are not yet taken, again and
-- again.
unfoldable pub oldest : ℕ → Instant → List ExecutionId → List ExecutionRow → List ExecutionId
unfolding is_over
oldest zero cutoff taken rows = []
oldest (suc batch) cutoff taken rows =
    elim (first_by (λ r. is_over cutoff r && not (among taken r.id)) (λ r. r.updated_at) rows) [
      | none ↦ []
      | some r ↦ r.id ∷ oldest batch cutoff (r.id ∷ taken) rows
    ]

unfoldable pub without : List ExecutionId → Database → Database
without ids db = record db {
  executions = delete_where (λ r. among ids r.id) db.executions;
  checkpoints = delete_where (λ c. among ids c.execution_id) db.checkpoints;
}

-- `from_std` of chrono is a parameter: `none` is a retention out of its range. A cutoff before the
-- epoch is the epoch, before which nothing is.
unfoldable pub cutoff_of : (ℕ → Option ℕ) → ℕ → Instant → Instant
cutoff_of from_std retention now = now - get_or 0 (from_std retention)

unfoldable pub sweep_terminal : (ℕ → Option ℕ) → ℕ → ℕ → Instant → Database → ℕ × Database
unfolding cutoff_of oldest without
sweep_terminal from_std retention batch now db =
    let ids = oldest batch (cutoff_of from_std retention now) [] db.executions in
    (count_where (λ r. among ids r.id) db.executions, without ids db)
