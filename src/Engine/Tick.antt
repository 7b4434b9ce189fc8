-- ===== src/Engine/Tick.antt =====
-- services/engine/src/tick.rs: one unit of the event loop. It claims an execution, loads it, runs
-- its active nodes and commits the step; each of these is one access to the database.
use ai_engineering_boilerpla.Base.{
  ℕ, ◌+◌, String, Bool, true, false, ◌&&◌, Option, none, some, List, [], ◌==◌, any, find,
  if◌then◌else◌,
}
use ai_engineering_boilerpla.Base.Results.{Result, ok, err, ◌>>=◌}
use ai_engineering_boilerpla.Base.Integers.{ℤ}
use ai_engineering_boilerpla.Json.{Json, Value, object, end}
use ai_engineering_boilerpla.EngineCore.Graph.{Graph, GraphId, Instant, node}
use ai_engineering_boilerpla.EngineCore.Execution.{
  ExecutionId, ActiveNode, Execution, ExecutionEvent, Stamps, Checkpoint,
}
use ai_engineering_boilerpla.EngineCore.LlmOutput.{Serde}
use ai_engineering_boilerpla.EngineCore.FanIn.{NodeOutput}
use ai_engineering_boilerpla.EngineCore.Step.{step}
use ai_engineering_boilerpla.Engine.Rows.{ExecutionRow, GraphRow, Database}
use ai_engineering_boilerpla.Engine.Wire.{
  Columns, WireFault, counter_column, columns_to_status, read,
}
use ai_engineering_boilerpla.Engine.Lease.{claim_one_ready}
use ai_engineering_boilerpla.Engine.Store.{same_step, latest, commit_step}
use ai_engineering_boilerpla.Engine.Nodes.{
  Executor, TickFault, committed, found, is_subgraph, not_registered, panicked, run_nodes,
  subgraph_not_wired, vanished, wired,
}

-- In microseconds.
abbrev pub lease_duration : ℕ
lease_duration = 300_000_000

-- What a tick holds between its loads and its commit.
pub record Work : Type 0 where
  pub id : ExecutionId
  pub graph : Graph
  pub execution : Execution
  pub next_step : ℕ

module _ (C : Columns) where
  open C use {graph_from_value, nodes_from_value, budget_from_value}

  abbrev pub graph_row : GraphId → ℤ → List GraphRow → Option GraphRow
  graph_row id version rows = find (λ r. r.graph_id == id && same_step r.version version) rows

  unfoldable pub load_execution_and_graph :
      ExecutionId → Database → Result TickFault (ExecutionRow × Graph)
  unfolding read
  load_execution_and_graph id db = do
    row ← found (vanished id) (find (λ r. r.id == id) db.executions)
    stored ←
        found (not_registered row.graph_id row.graph_version)
          (graph_row row.graph_id row.graph_version db.graphs)
    graph ← wired (read (graph_from_value stored.definition))
    ok (row, graph)

  abbrev pub next_step_after : Option Checkpoint → ℕ
  next_step_after none = 0
  next_step_after (some c) = c.step + 1

  abbrev pub nodes_or_none : Result String (List ActiveNode) → List ActiveNode
  nodes_or_none (ok nodes) = nodes
  nodes_or_none (err e) = []

  -- `checkpoint.map_or_else(..)`
  abbrev pub position : Option Checkpoint → ExecutionRow → Value × List ActiveNode
  position none row = (object end, nodes_or_none (nodes_from_value row.current_nodes))
  position (some c) row = (c.state, c.current_nodes)

  unfoldable pub execution_from :
      ExecutionId → ExecutionRow → Value × List ActiveNode → Result WireFault Execution
  unfolding columns_to_status counter_column read
  execution_from id row (state, nodes) = do
    status ← columns_to_status C row.status row.wait_kind
    graph_version ← counter_column row.graph_version "graph_version"
    iteration ← counter_column row.iteration "iteration"
    max_iterations ← counter_column row.max_iterations "max_iterations"
    budget ← read (budget_from_value row.budget)
    ok (record {
      id = id;
      graph_id = row.graph_id;
      graph_version = graph_version;
      user_id = row.user_id;
      status = status;
      current_nodes = nodes;
      state = state;
      iteration = iteration;
      max_iterations = max_iterations;
      deadline = row.deadline;
      budget = budget;
    })

  unfoldable pub load_current_state :
      ExecutionId → ExecutionRow → Graph → Database → Result TickFault (Execution × ℕ)
  unfolding latest execution_from node
  load_current_state id row graph db = do
    checkpoint ← wired (latest C id db.checkpoints)
    let at = position checkpoint row
    x ←
        (if any (λ a. is_subgraph (node graph a.node)) at.1
          then err subgraph_not_wired
          else wired (execution_from id row at))
    ok (x, next_step_after checkpoint)

  -- The databases are what the tick meets at its two loads.
  unfoldable pub load : ExecutionId → Database → Database → Result TickFault Work
  unfolding load_execution_and_graph load_current_state
  load id at_row at_checkpoint = do
    row ← load_execution_and_graph id at_row
    x ← load_current_state id row.0 row.1 at_checkpoint
    ok (record { id = id; graph = row.1; execution = x.0; next_step = x.1 })

  module _ (J : Json) (S : Serde) where
    -- The outputs come in the order in which the tasks end, which is the runtime's choice.
    unfoldable pub stepped :
        Executor
        → (List NodeOutput → List NodeOutput)
        → Stamps
        → Instant
        → Work
        → Result TickFault (Execution × List ExecutionEvent)
    unfolding run_nodes step
    stepped executor ended stamps now w = do
      outputs ← run_nodes J executor w.graph w.execution w.execution.current_nodes
      found panicked (step J S stamps w.graph w.execution (ended outputs) now)

    unfoldable pub commit_work :
        String
        → Work
        → Execution × List ExecutionEvent
        → Instant
        → Database
        → Result TickFault Database
    unfolding commit_step
    commit_work owner w (next, events) now db =
        committed (commit_step C w.id (some owner) w.next_step next events now db)

    -- `process`, where nothing else touches the database between its accesses.
    unfoldable pub process :
        Executor
        → (List NodeOutput → List NodeOutput)
        → Stamps
        → Instant
        → String
        → ExecutionId
        → Database
        → Result TickFault Database
    unfolding load stepped commit_work
    process executor ended stamps now owner id db = do
      work ← load id db db
      result ← stepped executor ended stamps now work
      commit_work owner work result now db

    abbrev pub processed : Database → Result TickFault Database → Result TickFault (Bool) × Database
    processed db (ok db') = (ok true, db')
    processed db (err fault) = (err fault, db)

    unfoldable pub run_one :
        Executor
        → (List NodeOutput → List NodeOutput)
        → Stamps
        → Instant
        → (ExecutionId → Bool)
        → String
        → Database
        → Result TickFault Bool × Database
    unfolding claim_one_ready process
    run_one executor ended stamps now locked owner db =
        elim (claim_one_ready C locked owner lease_duration now db.executions) [
          | none ↦ (ok false, db)
          | some (id, rows) ↦
              let claimed : Database = record db { executions = rows } in
              processed claimed (process executor ended stamps now owner id claimed)
        ]
