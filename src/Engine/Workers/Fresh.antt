-- ===== src/Engine/Workers/Fresh.antt =====
-- The counters of a row, and of what is read from it, through one transaction
-- (services/engine/src/store.rs, tick.rs).
use ai_engineering_boilerpla.Base.{
  ℕ, ◌≡◌, ap, sym, ◌∙◌, subst, Bool, Option, some, List, All, arith, find, if◌then◌else◌, not, ◌&&◌,
  ◌==◌, ◌+◌, of_some_pair_eq, Option-cases, inl, inr, any, String,
}
use ai_engineering_boilerpla.Base.Results.{ok, err, >>=-eq-ok, of_ok_eq}
use ai_engineering_boilerpla.Base.Integers.{pos}
use ai_engineering_boilerpla.Base.Tables.{first_by, update_where}
use ai_engineering_boilerpla.Base.Tables.Laws.{All-update_where, All-find}
use ai_engineering_boilerpla.Json.{Value}
use ai_engineering_boilerpla.EngineCore.Budget.{serialize, deserialize}
use ai_engineering_boilerpla.EngineCore.Graph.{Graph, Instant, node}
use ai_engineering_boilerpla.EngineCore.Execution.{
  ExecutionId, Execution, ExecutionEvent, ActiveNode,
}
use ai_engineering_boilerpla.Engine.Rows.{ExecutionRow, Database}
use ai_engineering_boilerpla.Engine.Wire.{Columns, counter_column, columns_to_status, read}
use ai_engineering_boilerpla.Engine.Lease.{claim_one_ready, claimable, leased_to, release_lease}
use ai_engineering_boilerpla.Engine.Store.{commit_step, latest}
use ai_engineering_boilerpla.Engine.Store.Commit.{commit_step-applied, released}
use ai_engineering_boilerpla.Engine.Tick.{
  load_execution_and_graph, load_current_state, execution_from, position, graph_row,
}
use ai_engineering_boilerpla.Engine.Nodes.{
  wired, found, is_subgraph, vanished, not_registered, subgraph_not_wired,
}
use ai_engineering_boilerpla.Engine.Control.{stored}
use ai_engineering_boilerpla.Engine.Service.{default_budget, default_max_iterations}
use ai_engineering_boilerpla.Engine.Answers.{found-ok, wired-ok}

module _ (C : Columns) where
  -- A row with the counters that `start_continuing` gave it.
  abbrev pub IsFreshRow : ExecutionRow → Type 0
  IsFreshRow r =
      (r.iteration ≡ pos 0)
      × (r.max_iterations ≡ pos default_max_iterations)
      × (r.budget ≡ C.budget_to_value default_budget)

  abbrev pub IsFresh : Execution → Type 0
  IsFresh x =
      (x.iteration ≡ 0) × (x.max_iterations ≡ default_max_iterations) × (x.budget ≡ default_budget)

  IsFreshRow-released :
      (id : ExecutionId) (owner : Option String) (x : Execution) (now : Instant) (db : Database)
      → All IsFreshRow db.executions
      → All IsFreshRow (released C id owner x now db).1
  unfolding release_lease
  IsFreshRow-released id owner x now db h =
      All-update_where IsFreshRow _ _ db.executions (λ r k. k) h

  pub IsFreshRow-commit_step :
      (id : ExecutionId) (owner : Option String) (step : ℕ) (x : Execution)
      (events : List ExecutionEvent) (now : Instant) (db db' : Database)
      → commit_step C id owner step x events now db ≡ ok db'
      → All IsFreshRow db.executions
      → All IsFreshRow db'.executions
  IsFreshRow-commit_step id owner step x events now db db' e h =
      let (a, b, c) = (commit_step-applied C id owner step x events now db db').0 e in
      subst (λ (d : Database). All IsFreshRow d.executions) (sym c)
        (IsFreshRow-released id owner x now db h)

  pub IsFreshRow-claim_one_ready :
      (locked : ExecutionId → Bool) (owner : String) (lease_for : ℕ) (now : Instant)
      (rows : List ExecutionRow) (id : ExecutionId) (rows' : List ExecutionRow)
      → claim_one_ready C locked owner lease_for now rows ≡ some (id, rows')
      → All IsFreshRow rows
      → All IsFreshRow rows'
  unfolding claim_one_ready
  IsFreshRow-claim_one_ready locked owner lease_for now rows id rows' e h =
      elim (Option-cases (
        first_by (λ row. claimable C now row && not (locked row.id)) (λ row. row.updated_at)
          rows)) [
            | inl g ↦ absurd (ground (arith, g))
            | inr (row, g) ↦
                let k : ◌≡◌ {A = Option (ExecutionId × List ExecutionRow)}
                    (some (
                      row.id,
                      update_where (λ r. r.id == row.id) (leased_to C owner (now + lease_for) now)
                          rows,
                    ))
                    (some (id, rows')) =
                  ground (arith, g, e) in
                subst (All IsFreshRow) (of_some_pair_eq k).1 (
                  All-update_where IsFreshRow (λ r. r.id == row.id)
                    (leased_to C owner (now + lease_for) now) rows (λ r k. k) h)
          ]

  execution_from-IsFresh :
      (id : ExecutionId) (row : ExecutionRow) (at : Value × List ActiveNode) (x : Execution)
      → execution_from C id row at ≡ ok x
      → IsFreshRow row
      → IsFresh x
  unfolding execution_from counter_column read default_budget deserialize serialize
  execution_from-IsFresh id row at x e (a, b, c) =
      let (status, e1, h1) = >>=-eq-ok (columns_to_status C row.status row.wait_kind) _ e in
      let (version, e2, h2) = >>=-eq-ok (counter_column row.graph_version "graph_version") _ h1 in
      let (iteration, e3, h3) = >>=-eq-ok (counter_column row.iteration "iteration") _ h2 in
      let (limit, e4, h4) = >>=-eq-ok (counter_column row.max_iterations "max_iterations") _ h3 in
      let (budget, e5, h5) = >>=-eq-ok (read (C.budget_from_value row.budget)) _ h4 in
      let k3 : iteration ≡ 0 = of_ok_eq (sym e3 ∙ ap (λ i. counter_column i "iteration") a) in
      let k4 : limit ≡ default_max_iterations =
        of_ok_eq (sym e4 ∙ ap (λ i. counter_column i "max_iterations") b) in
      let k5 : budget ≡ default_budget = of_ok_eq (
        sym e5
        ∙ ap (λ v. read (C.budget_from_value v)) c
        ∙ ap read (C.budget-round_trip default_budget)) in
      subst IsFresh (of_ok_eq h5) (k3, k4, k5)

  pub load_current_state-IsFresh :
      (id : ExecutionId) (row : ExecutionRow) (graph : Graph) (db : Database) (x : Execution)
      (n : ℕ)
      → load_current_state C id row graph db ≡ ok (x, n)
      → IsFreshRow row
      → IsFresh x
  unfolding load_current_state
  load_current_state-IsFresh id row graph db x n e h =
      let (checkpoint, e1, h1) = >>=-eq-ok (wired (latest C id db.checkpoints)) _ e in
      let (y, e2, h2) =
        >>=-eq-ok
          (if any (λ a. is_subgraph (node graph a.node)) (position C checkpoint row).1
            then err subgraph_not_wired
            else wired (execution_from C id row (position C checkpoint row)))
          _ h1 in
      let k : wired (execution_from C id row (position C checkpoint row)) ≡ ok y = ground arith in
      let k' = wired-ok (execution_from C id row (position C checkpoint row)) y k in
      subst IsFresh (ap (λ (p : Execution × ℕ). p.0) (of_ok_eq h2))
        (execution_from-IsFresh id row (position C checkpoint row) y k' h)

  pub find-IsFreshRow :
      (id : ExecutionId) (db : Database) (row : ExecutionRow) (graph : Graph)
      → load_execution_and_graph C id db ≡ ok (row, graph)
      → All IsFreshRow db.executions
      → IsFreshRow row
  unfolding load_execution_and_graph
  find-IsFreshRow id db row graph e h =
      let (r, e1, h1) =
        >>=-eq-ok (found (vanished id) (find (λ r. r.id == id) db.executions)) _ e in
      let (stored, e2, h2) =
        >>=-eq-ok
          (found (not_registered r.graph_id r.graph_version)
            (graph_row C r.graph_id r.graph_version db.graphs))
          _ h1 in
      let (g, e3, h3) = >>=-eq-ok (wired (read (C.graph_from_value stored.definition))) _ h2 in
      subst IsFreshRow (ap (λ (p : ExecutionRow × Graph). p.0) (of_ok_eq h3)) (
        All-find IsFreshRow (λ r. r.id == id) r db.executions
          (found-ok (vanished id) (find (λ r. r.id == id) db.executions) r e1) h)
