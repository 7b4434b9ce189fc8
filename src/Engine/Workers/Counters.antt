-- ===== src/Engine/Workers/Counters.antt =====
-- The iteration count and the budget across steps (services/engine/src/store.rs, tick.rs).
use ai_engineering_boilerpla.Base.{
  ◌≡◌, refl, subst, Option, none, some, [], ◌∷◌, All, All-append, String,
}
use ai_engineering_boilerpla.Base.Results.{Result, ok, >>=-eq-ok, of_ok_eq}
use ai_engineering_boilerpla.Base.Integers.{ℤ}
use ai_engineering_boilerpla.Base.Tables.Laws.{All-update_where, All-delete_where, All-Any}
use ai_engineering_boilerpla.Json.{Json, Value}
use ai_engineering_boilerpla.EngineCore.Graph.{Graph, GraphId, Instant, UserId}
use ai_engineering_boilerpla.EngineCore.LlmOutput.{Serde}
use ai_engineering_boilerpla.EngineCore.Execution.{plain, ExecutionId}
use ai_engineering_boilerpla.Engine.Rows.{ExecutionRow, Database}
use ai_engineering_boilerpla.Engine.Wire.{Columns, checkpoint_to_row}
use ai_engineering_boilerpla.Engine.Lease.{expire_abandoned_leases}
use ai_engineering_boilerpla.Engine.Store.{commit_step, insert_checkpoint}
use ai_engineering_boilerpla.Engine.Tick.{Work, lease_duration}
use ai_engineering_boilerpla.Engine.Control.{persist, in_db}
use ai_engineering_boilerpla.Engine.Service.{
  start_continuing, first_row, execution_input, first_checkpoint, continued,
}
use ai_engineering_boilerpla.Engine.Graphs.{
  register_graph, insert_next_version, validated_graph, load_graph,
}
use ai_engineering_boilerpla.Engine.Sweep.{sweep_terminal, without}
use ai_engineering_boilerpla.Engine.Workers.{
  System, Step, registers, starts, claims, finds, loads, commits, reads, persists, expires, sweeps,
  Reach, start, later,
}
use ai_engineering_boilerpla.Engine.Answers.{in_db-ok}
use ai_engineering_boilerpla.Engine.Workers.Fresh.{
  IsFreshRow, IsFresh, IsFreshRow-commit_step, IsFreshRow-claim_one_ready,
  load_current_state-IsFresh, find-IsFreshRow,
}

module _ (C : Columns) where
  module _ (J : Json) (S : Serde) where
    start_continuing-IsFreshRow :
        (id : ExecutionId) (graph_id : GraphId) (version : Option ℤ) (sent : Result String Value)
        (user : Option UserId) (continues : Option ExecutionId) (now : Instant) (db db' : Database)
        → start_continuing C J S id graph_id version sent user continues now db ≡ ok db'
        → All (IsFreshRow C) db.executions
        → All (IsFreshRow C) db'.executions
    unfolding start_continuing
    start_continuing-IsFreshRow id graph_id version sent user continues now db db' e h =
        let (own, e1, h1) = >>=-eq-ok (execution_input sent) _ e in
        let (graph, e2, h2) = >>=-eq-ok (load_graph C graph_id version db) _ h1 in
        let entry = plain graph.1.entry ∷ [] in
        let (checkpoints, e3, h3) =
          >>=-eq-ok
            (in_db (
              insert_checkpoint
                (checkpoint_to_row C now
                  (first_checkpoint C id (continued C J S continues user own db) entry))
                db.checkpoints))
            _ h2 in
        subst (λ (d : Database). All (IsFreshRow C) d.executions) (of_ok_eq h3)
          (All-append (IsFreshRow C) db.executions (first_row C id graph.0 entry user now ∷ []) h
            ((refl, refl, refl), tt))

    -- Every row, what every tick has found and loaded.
    pub record IsFreshSystem (s : System) : Type 0 where
      pub rows : All (IsFreshRow C) s.db.executions
      pub finds_kept : All (λ (p : ExecutionRow × Graph). IsFreshRow C p.0) s.found
      pub works_kept : All (λ (w : Work). IsFresh C w.execution) s.works

    register_graph-IsFreshRow :
        (id : GraphId) (sent : Result String Graph) (now : Instant) (db db' : Database)
        (v : GraphId × ℤ)
        → register_graph C id sent now db ≡ ok (v, db')
        → All (IsFreshRow C) db.executions
        → All (IsFreshRow C) db'.executions
    unfolding register_graph insert_next_version
    register_graph-IsFreshRow id sent now db db' v e h =
        let (definition, e1, h1) = >>=-eq-ok (validated_graph sent) _ e in
        subst (λ (p : (GraphId × ℤ) × Database). All (IsFreshRow C) p.1.executions) (of_ok_eq h1) h

    with_rows :
        (s : System) (db : Database)
        → All (IsFreshRow C) db.executions
        → IsFreshSystem s
        → IsFreshSystem (record s { db = db })
    with_rows s db rows h = record {
      rows = rows;
      finds_kept = h.finds_kept;
      works_kept = h.works_kept;
    }

    Step-IsFreshSystem : {s t : System} → Step C J S s t → IsFreshSystem s → IsFreshSystem t
    unfolding persist expire_abandoned_leases sweep_terminal without
    Step-IsFreshSystem {s = s} (registers id sent now {v} {db} e) h =
        with_rows s db (register_graph-IsFreshRow id sent now s.db db v e h.rows) h
    Step-IsFreshSystem {s = s} (starts id graph version sent user continues now {db} a b e) h =
        with_rows s db
          (start_continuing-IsFreshRow id graph version sent user continues now s.db db e h.rows) h
    Step-IsFreshSystem {s = s} (claims locked owner now {id} {rows} e) h =
        with_rows s (record s.db { executions = rows })
          (IsFreshRow-claim_one_ready C locked owner lease_duration now s.db.executions id rows e
            h.rows)
          h
    Step-IsFreshSystem {s = s} (finds id {row} {graph} e) h = record {
      rows = h.rows;
      finds_kept = (find-IsFreshRow C id s.db row graph e h.rows, h.finds_kept);
      works_kept = h.works_kept;
    }
    Step-IsFreshSystem {s = s} (loads row graph {x} {n} m e) h = record {
      rows = h.rows;
      finds_kept = h.finds_kept;
      works_kept = (
        load_current_state-IsFresh C row.id row graph s.db x n e (
            All-Any (λ (p : ExecutionRow × Graph). IsFreshRow C p.0) (row, graph) s.found m
              h.finds_kept),
        h.works_kept,
      );
    }
    Step-IsFreshSystem {s = s} (commits owner w next events now {db} m e) h =
        with_rows s db
          (IsFreshRow-commit_step C w.id (some owner) w.next_step next events now s.db db e h.rows)
          h
    Step-IsFreshSystem (reads id e) h = record {
      rows = h.rows;
      finds_kept = h.finds_kept;
      works_kept = h.works_kept;
    }
    Step-IsFreshSystem {s = s} (persists id n next events now {db} m e) h =
        with_rows s db
          (IsFreshRow-commit_step C id none n next events now s.db db
            (in_db-ok (commit_step C id none n next events now s.db) db e) h.rows)
          h
    Step-IsFreshSystem {s = s} (expires now) h =
        with_rows s (record s.db { executions = (expire_abandoned_leases now s.db.executions).1 })
          (All-update_where (IsFreshRow C) _ _ s.db.executions (λ r k. k) h.rows) h
    Step-IsFreshSystem {s = s} (sweeps from_std retention batch now) h =
        with_rows s (sweep_terminal from_std retention batch now s.db).1
          (All-delete_where (IsFreshRow C) _ s.db.executions h.rows) h

    -- In every state that can be reached, whatever was committed before, in any order: each execution
    -- and each tick under way has iteration 0, limit 25 and the whole default budget.
    pub Reach-IsFreshSystem : (s : System) → Reach C J S s → IsFreshSystem s
    Reach-IsFreshSystem s start = record { rows = tt; finds_kept = tt; works_kept = tt }
    Reach-IsFreshSystem t (later r st) = Step-IsFreshSystem st (Reach-IsFreshSystem _ r)
