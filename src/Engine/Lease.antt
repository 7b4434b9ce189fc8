-- ===== src/Engine/Lease.antt =====
-- services/engine/src/lease.rs: claims and releases an execution's lease. Rows that another
-- transaction has locked are skipped. The length of a lease is taken as it is: its only caller hands
-- over a constant that chrono can hold, so that the fallback is never used.
pub mod Exclusive
pub mod Recovery
pub mod Released
use ai_engineering_boilerpla.Base.{
  ℕ, ◌+◌, String, Bool, true, false, not, ◌&&◌, ◌||◌, Option, none, some, List, [], ◌∷◌, ◌==◌, ltb,
  leb, eqb, if◌then◌else◌,
}
use ai_engineering_boilerpla.Base.Tables.{first_by, update_where, count_where}
use ai_engineering_boilerpla.Json.{Value}
use ai_engineering_boilerpla.EngineCore.Graph.{Instant}
use ai_engineering_boilerpla.EngineCore.Execution.{ExecutionId}
use ai_engineering_boilerpla.Engine.Rows.{RowStatus, ExecutionRow, Database}
use ai_engineering_boilerpla.Engine.Wire.{Columns}

abbrev pub is_ready : RowStatus → Bool
is_ready RowStatus.ready = true
is_ready _ = false

abbrev pub is_running : RowStatus → Bool
is_running RowStatus.running = true
is_running _ = false

abbrev pub is_waiting : RowStatus → Bool
is_waiting RowStatus.waiting = true
is_waiting _ = false

-- Comparisons with NULL are not true.
abbrev pub is_before : Option Instant → Instant → Bool
is_before none now = false
is_before (some t) now = ltb t now

abbrev pub is_after : Option Instant → Instant → Bool
is_after none now = false
is_after (some t) now = ltb now t

abbrev pub is_owner : Option String → Option String → Bool
is_owner none none = true
is_owner (some a) (some b) = a == b
is_owner _ _ = false

unfoldable pub release_lease :
    ExecutionId
    → Option String
    → RowStatus
    → Option Value
    → Value
    → Instant
    → List ExecutionRow
    → ℕ × List ExecutionRow
release_lease id owner status wait nodes now rows =
    let held : ExecutionRow → Bool = λ row. row.id == id && is_owner owner row.lease_owner in
    (
      count_where held rows,
      update_where held
          (λ row. record row {
            status = status;
            wait_kind = wait;
            current_nodes = nodes;
            lease_owner = none;
            lease_until = none;
            updated_at = now;
          })
          rows,
    )

unfoldable pub expire_abandoned_leases : Instant → List ExecutionRow → ℕ × List ExecutionRow
expire_abandoned_leases now rows =
    let leased : ExecutionRow → Bool =
      λ row. is_running row.status && is_after row.lease_until now in
    (
      count_where leased rows,
      update_where leased (λ row. record row { lease_until = some now }) rows,
    )

module _ (C : Columns) where
  open C use {timer_until}

  abbrev pub elapsed_timer_wait : Option Value → Instant → Bool
  elapsed_timer_wait none now = false
  elapsed_timer_wait (some v) now = elim (timer_until v) [ some t ↦ leb t now | none ↦ false ]

  unfoldable pub claimable : Instant → ExecutionRow → Bool
  claimable now row =
      is_ready row.status
      || (is_running row.status && is_before row.lease_until now)
      || (is_waiting row.status && elapsed_timer_wait row.wait_kind now)

  -- The claimed row with its lease.
  unfoldable pub leased_to : String → Instant → Instant → ExecutionRow → ExecutionRow
  leased_to owner until now row = record row {
    status = RowStatus.running;
    lease_owner = some owner;
    lease_until = some until;
    updated_at = now;
  }

  unfoldable pub claim_one_ready :
      (ExecutionId → Bool)
      → String
      → ℕ
      → Instant
      → List ExecutionRow
      → Option (ExecutionId × List ExecutionRow)
  unfolding claimable leased_to
  claim_one_ready locked owner lease_for now rows =
      elim (first_by (λ row. claimable now row && not (locked row.id)) (λ row. row.updated_at)
        rows) [
          | none ↦ none
          | some row ↦ some (
            row.id,
            update_where (λ r. r.id == row.id) (leased_to owner (now + lease_for) now) rows,
          )
        ]
