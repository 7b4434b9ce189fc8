-- ===== src/Engine/Workers.antt =====
-- services/engine/src: everything that the ticks, the calls and the daemons do to the database, one
-- access at a time and in any order. A tick or a call that was read for may come to its commit at
-- any later time, or never; what it holds stays listed after its end.
pub mod Fresh
pub mod Counters
pub mod Limitless
pub mod History
pub mod Kept
pub mod Begun
pub mod Current
pub mod Moves
pub mod Linear
pub mod Log
pub mod Overwrites
use ai_engineering_boilerpla.Base.{
  ℕ, String, ◌≡◌, ◌≢◌, Bool, Option, none, some, List, [], ◌∷◌, All, Any,
}
use ai_engineering_boilerpla.Base.Results.{Result, ok}
use ai_engineering_boilerpla.Base.Integers.{ℤ}
use ai_engineering_boilerpla.Json.{Json, Value}
use ai_engineering_boilerpla.EngineCore.Graph.{Graph, GraphId, Instant, UserId}
use ai_engineering_boilerpla.EngineCore.LlmOutput.{Serde}
use ai_engineering_boilerpla.EngineCore.Execution.{ExecutionId, Execution, ExecutionEvent}
use ai_engineering_boilerpla.Engine.Rows.{ExecutionRow, Database}
use ai_engineering_boilerpla.Engine.Wire.{Columns}
use ai_engineering_boilerpla.Engine.Lease.{claim_one_ready, expire_abandoned_leases}
use ai_engineering_boilerpla.Engine.Store.{commit_step}
use ai_engineering_boilerpla.Engine.Tick.{
  Work, lease_duration, load_execution_and_graph, load_current_state,
}
use ai_engineering_boilerpla.Engine.Control.{persist, next_checkpoint_step}
use ai_engineering_boilerpla.Engine.Service.{start_continuing}
use ai_engineering_boilerpla.Engine.Graphs.{register_graph}
use ai_engineering_boilerpla.Engine.Sweep.{sweep_terminal}

pub record System : Type 0 where
  pub db : Database
  -- What ticks have read of an execution and its graph.
  pub found : List (ExecutionRow × Graph)
  -- What ticks have loaded.
  pub works : List Work
  -- The next steps that calls have read.
  pub steps : List (ExecutionId × ℕ)

abbrev pub empty : System
empty = record {
  db = record { executions = []; checkpoints = []; graphs = []; events = []; wakes = 0 };
  found = [];
  works = [];
  steps = [];
}

-- `a` stands in `as'`.
abbrev pub Among : {A : Type 0} → A → List A → Type 0
Among a as' = Any (λ b. b ≡ a) as'

module _ (C : Columns) (J : Json) (S : Serde) where
  pub data Step (s : System) : System → Type 0 where
    registers :
        (id : GraphId) (sent : Result String Graph) (now : Instant) {v : GraphId × ℤ}
        {db : Database}
        → register_graph C id sent now s.db ≡ ok (v, db)
        → Step s (record s { db = db })
    -- `Uuid::new_v4` gives an id that was never used.
    starts :
        (id : ExecutionId) (graph : GraphId) (version : Option ℤ) (sent : Result String Value)
        (user : Option UserId) (continues : Option ExecutionId) (now : Instant) {db : Database}
        → All (λ (w : Work). w.id ≢ id) s.works
        → All (λ (p : ExecutionId × ℕ). p.0 ≢ id) s.steps
        → start_continuing C J S id graph version sent user continues now s.db ≡ ok db
        → Step s (record s { db = db })
    claims :
        (locked : ExecutionId → Bool) (owner : String) (now : Instant) {id : ExecutionId}
        {rows : List ExecutionRow}
        → claim_one_ready C locked owner lease_duration now s.db.executions ≡ some (id, rows)
        → Step s (record s { db = record s.db { executions = rows } })
    finds :
        (id : ExecutionId) {row : ExecutionRow} {graph : Graph}
        → load_execution_and_graph C id s.db ≡ ok (row, graph)
        → Step s (record s { found = (row, graph) ∷ s.found })
    loads :
        (row : ExecutionRow) (graph : Graph) {x : Execution} {n : ℕ}
        → Among (row, graph) s.found
        → load_current_state C row.id row graph s.db ≡ ok (x, n)
        → Step s (record s {
          works = record { id = row.id; graph = graph; execution = x; next_step = n } ∷ s.works;
        })
    commits :
        (owner : String) (w : Work) (next : Execution) (events : List ExecutionEvent)
        (now : Instant) {db : Database}
        → Among w s.works
        → commit_step C w.id (some owner) w.next_step next events now s.db ≡ ok db
        → Step s (record s { db = db })
    reads :
        (id : ExecutionId) {n : ℕ}
        → next_checkpoint_step C id s.db ≡ ok n
        → Step s (record s { steps = (id, n) ∷ s.steps })
    persists :
        (id : ExecutionId) (n : ℕ) (next : Execution) (events : List ExecutionEvent) (now : Instant)
        {db : Database}
        → Among (id, n) s.steps
        → persist C id n (next, events) now s.db ≡ ok db
        → Step s (record s { db = db })
    expires :
        (now : Instant)
        → Step s (record s {
          db = record s.db { executions = (expire_abandoned_leases now s.db.executions).1 };
        })
    sweeps :
        (from_std : ℕ → Option ℕ) (retention batch : ℕ) (now : Instant)
        → Step s (record s { db = (sweep_terminal from_std retention batch now s.db).1 })

  pub data Reach : System → Type 0 where
    start : Reach empty
    later : {s t : System} → Reach s → Step s t → Reach t
