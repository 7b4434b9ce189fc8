-- ===== src/Tests/Daemons.antt =====
-- Recovery and sweep at concrete tables.
use ai_engineering_boilerpla.Base.{
  ◌≤◌, ◌≡◌, ◌⊎◌, ℕ, Option, some, none, leb, if◌then◌else◌, true, false, is_some, List, All, length,
  arith,
}
use ai_engineering_boilerpla.Base.Tables.{delete_where}
use ai_engineering_boilerpla.EngineCore.Graph.{Instant}
use ai_engineering_boilerpla.EngineCore.Execution.{ExecutionId}
use ai_engineering_boilerpla.Engine.Rows.{ExecutionRow, CheckpointRow}
use ai_engineering_boilerpla.Engine.Lease.{is_running, claimable, expire_abandoned_leases}
use ai_engineering_boilerpla.Engine.Lease.Recovery.{expire_abandoned_leases-claimable}
use ai_engineering_boilerpla.Engine.Sweep.{among, sweep_terminal}
use ai_engineering_boilerpla.Engine.Sweep.Only.{
  OverIn, EndedBefore, IsCutoff, sweep_terminal-OverIn,
}
use ai_engineering_boilerpla.Tests.EngineModel.{columns}
use ai_engineering_boilerpla.Tests.Workers.{claimed}
use ai_engineering_boilerpla.Tests.Calls.{done}

expire_abandoned_leases-claimable_example :
    All
      (λ (r : ExecutionRow).
        is_running r.status ≡ true → is_some r.lease_until ≡ true → claimable columns 21 r ≡ true)
      (expire_abandoned_leases 20 claimed.1).1
expire_abandoned_leases-claimable_example =
    expire_abandoned_leases-claimable columns 20 21 claimed.1 (omega arith)

-- A duration that is held up to the given number.
abbrev held_to : ℕ → ℕ → Option ℕ
held_to limit n = if leb n limit then some n else none

sweep_terminal-OverIn_example :
    let db' = (sweep_terminal (held_to 50) 10 5 100 done).1 in
    (cutoff : Instant) × (ids : List ExecutionId) × IsCutoff (held_to 50) 10 100 cutoff
    × (length ids ≤ 5)
    × All (OverIn cutoff done.executions) ids
    × All (λ (r : ExecutionRow). among ids r.id ≡ false) db'.executions
    × All (λ (c : CheckpointRow). among ids c.execution_id ≡ false) db'.checkpoints
    × (db' ≡ record done {
      executions = delete_where (λ (r : ExecutionRow). among ids r.id) done.executions;
      checkpoints = delete_where (λ (c : CheckpointRow). among ids c.execution_id) done.checkpoints;
    })
    × ((length ids ≡ 5) ⊎ All (λ (r : ExecutionRow). ¬ EndedBefore cutoff r) db'.executions)
sweep_terminal-OverIn_example = sweep_terminal-OverIn (held_to 50) 10 5 100 done
