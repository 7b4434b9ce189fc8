-- ===== src/Tests/Workers.antt =====
-- The theorems on the engine's database at concrete runs.
use ai_engineering_boilerpla.Base.{
  ℕ, ◌≡◌, ◌↔◌, refl, false, none, some, List, [], ◌∷◌, All, here, map, length, arith, get_or,
}
use ai_engineering_boilerpla.Base.Results.{Result, ok, err}
use ai_engineering_boilerpla.Json.{null, object, end, field}
use ai_engineering_boilerpla.EngineCore.Execution.{
  Stamps, Checkpoint, Execution, ExecutionEvent, ExecutionId,
}
use ai_engineering_boilerpla.EngineCore.Graph.{Graph, GraphId}
use ai_engineering_boilerpla.Engine.Rows.{ExecutionRow, GraphRow, CheckpointRow, Database}
use ai_engineering_boilerpla.Engine.Store.{commit_step, latest}
use ai_engineering_boilerpla.Engine.Tick.{
  stepped, Work, lease_duration, load_execution_and_graph, load_current_state,
}
use ai_engineering_boilerpla.Engine.Workers.{
  System, empty, registers, starts, claims, finds, loads, Reach, start, later,
}
use ai_engineering_boilerpla.Engine.Workers.Counters.{IsFreshSystem, Reach-IsFreshSystem}
use ai_engineering_boilerpla.Engine.Workers.Limitless.{stepped-unlimited}
use ai_engineering_boilerpla.Engine.Nodes.{Executor}
use ai_engineering_boilerpla.EngineCore.Loop.Rounds.{payloads}
use ai_engineering_boilerpla.EngineCore.Step.Limit.{IsLimit}
use ai_engineering_boilerpla.Engine.Workers.Current.{IsBasedOn}
use ai_engineering_boilerpla.Engine.Workers.Linear.{tick_commits_on_newest}
use ai_engineering_boilerpla.Engine.Store.Commit.{CommittedTo, commit_step-ok}
use ai_engineering_boilerpla.Engine.Store.ReadBack.{reread, get_execution-commit_step}
use ai_engineering_boilerpla.Engine.Lease.Exclusive.{claim_exclusive}
use ai_engineering_boilerpla.Engine.Control.{get_execution, cancel, load_idle, next_checkpoint_step}
use ai_engineering_boilerpla.Engine.Workers.History.{history}
use ai_engineering_boilerpla.Tests.JsonModel.{json, serde, lookup}
use ai_engineering_boilerpla.Tests.EngineModel.{
  columns, nodes_of, nodes_value, budget_of, budget_value,
}
use ai_engineering_boilerpla.Engine.Wire.{checkpoint_from_model}
use ai_engineering_boilerpla.Tests.Graphs.{stamps, fan_graph, start as start_execution}
use ai_engineering_boilerpla.Engine.Service.{start_continuing, first_row}
use ai_engineering_boilerpla.Engine.Graphs.{register_graph}
use ai_engineering_boilerpla.Base.Tables.{first_by, last_by, update_where, count_where}
use ai_engineering_boilerpla.Base.Integers.{ℤ, pos}
use ai_engineering_boilerpla.Engine.Lease.{claim_one_ready, claimable}

abbrev pub pick : {E A : Type 0} → A → Result E A → A
pick a (ok b) = b
pick a (err e) = a

abbrev pub nothing : Database
nothing = empty.db

-- The database with the graph, then with an execution `x` of it, then with its lease.
unfoldable registered : (GraphId × ℤ) × Database
unfolding register_graph
registered = pick (("", pos 0), nothing) (register_graph columns "fan" (ok fan_graph) 1 nothing)

unfoldable pub begun : Database
unfolding registered start_continuing
begun =
    pick nothing (
      start_continuing columns json serde "x" "fan" none (ok (object end)) none none 2 registered.1)

unfoldable pub claimed : ExecutionId × List ExecutionRow
unfolding begun claim_one_ready
claimed =
    get_or ("", []) (claim_one_ready columns (λ id. false) "a" lease_duration 3 begun.executions)

abbrev pub leased : Database
leased = record begun { executions = claimed.1 }

unfoldable pub found : ExecutionRow × Graph
unfolding claimed begun load_execution_and_graph
found =
    pick (first_row columns "" graph_row [] none 0, fan_graph)
      (load_execution_and_graph columns "x" leased)
  where
    graph_row : GraphRow
    graph_row = record {
      graph_id = "";
      version = pos 0;
      user_id = none;
      definition = null;
      created_at = 0;
    }

begun_ok :
    start_continuing columns json serde "x" "fan" none (ok (object end)) none none 2 registered.1
    ≡ ok begun
unfolding start_continuing begun registered register_graph last_by
begun_ok = refl

claimed_ok :
    claim_one_ready columns (λ id. false) "a" lease_duration 3 begun.executions ≡ some claimed
unfolding claim_one_ready claimed begun first_by last_by
claimed_ok = refl

found_ok : load_execution_and_graph columns "x" leased ≡ ok found
unfolding load_execution_and_graph found first_by last_by update_where
found_ok = refl

registered_ok : register_graph columns "fan" (ok fan_graph) 1 nothing ≡ ok registered
unfolding register_graph registered
registered_ok = refl

-- What a tick loads, and what it commits as the next step.
unfoldable pub loaded : Execution × ℕ
unfolding claimed begun found load_current_state
loaded = pick (start_execution, 0) (load_current_state columns found.0.id found.0 found.1 leased)

loaded_ok : load_current_state columns found.0.id found.0 found.1 leased ≡ ok loaded
unfolding load_current_state loaded found claimed begun first_by last_by update_where
    checkpoint_from_model nodes_of nodes_value budget_of budget_value
loaded_ok = refl

abbrev pub work : Work
work = record { id = found.0.id; graph = found.1; execution = loaded.0; next_step = loaded.1 }

abbrev pub next : Execution
next = record start_execution { state = object (field "done" null end); iteration = 1 }

unfoldable pub ended : Database
unfolding claimed begun found loaded commit_step
ended = pick nothing (commit_step columns work.id (some "a") work.next_step next [] 4 leased)

pub ended_ok : commit_step columns work.id (some "a") work.next_step next [] 4 leased ≡ ok ended
unfolding commit_step ended found loaded claimed begun first_by last_by update_where count_where
    checkpoint_from_model nodes_of nodes_value budget_of budget_value
ended_ok = refl

abbrev pub at_load : System
at_load = record { db = leased; found = (found.0, found.1) ∷ []; works = work ∷ []; steps = [] }

pub reached : Reach columns json serde at_load
reached =
    later
      (later
        (later
          (later (later start (registers "fan" (ok fan_graph) 1 registered_ok))
            (starts "x" "fan" none (ok (object end)) none none 2 tt tt begun_ok))
          (claims (λ id. false) "a" 3 claimed_ok))
        (finds "x" found_ok))
      (loads found.0 found.1 (here refl) loaded_ok)

abbrev answers_null : Executor
answers_null kind config state key = some (ok null)

unfoldable ran : Execution × List ExecutionEvent
unfolding found loaded claimed begun stepped
ran = pick (start_execution, []) (stepped columns json serde answers_null (λ os. os) stamps 5 work)

ran_ok : stepped columns json serde answers_null (λ os. os) stamps 5 work ≡ ok (ran.0, ran.1)
unfolding stepped ran found loaded claimed begun first_by last_by update_where checkpoint_from_model
    nodes_of nodes_value budget_of budget_value lookup
ran_ok = refl

stepped-unlimited_example : All (λ p. ¬ IsLimit p) (payloads ran.1)
stepped-unlimited_example =
    stepped-unlimited columns json serde at_load work answers_null (λ os. os) stamps 5 ran.0 ran.1
      reached (here refl) ran_ok

Reach-IsFreshSystem_example : IsFreshSystem columns json serde at_load
Reach-IsFreshSystem_example = Reach-IsFreshSystem columns json serde at_load reached

tick_commits_on_newest_example :
    (c : Checkpoint) × (latest columns work.id leased.checkpoints ≡ ok (some c))
    × IsBasedOn columns work c
tick_commits_on_newest_example =
    tick_commits_on_newest columns json serde at_load "a" work next [] 4 ended reached (here refl)
      ended_ok

commit_step-ok_example :
    (commit_step columns work.id (some "a") work.next_step next [] 4 leased ≡ ok ended)
    ↔ CommittedTo columns work.id (some "a") work.next_step next [] 4 leased ended
commit_step-ok_example =
    commit_step-ok columns work.id (some "a") work.next_step next [] 4 leased ended

claim_exclusive_example :
    All (λ (r : ExecutionRow). r.id ≡ claimed.0 → claimable columns 50 r ≡ false) claimed.1
claim_exclusive_example =
    claim_exclusive columns (λ id. false) "a" lease_duration 3 50 begun.executions claimed.0
      claimed.1 claimed_ok (omega arith)

-- The step that the tick commits is the second of "x".
ended_second :
    commit_step columns "x" (some "a") (length (history "x" leased)) next [] 4 leased ≡ ok ended
unfolding commit_step ended found loaded claimed begun first_by last_by update_where count_where
    checkpoint_from_model nodes_of nodes_value budget_of budget_value
ended_second = refl

get_execution-commit_step_example :
    get_execution columns "x" ended ≡ ok (reread columns found.0 1 next)
unfolding found claimed begun first_by last_by update_where load_execution_and_graph
get_execution-commit_step_example =
    get_execution-commit_step columns "x" (some "a") next [] 4 leased ended found.0 1 ended_second
      (refl, tt) (omega arith) refl refl refl (refl, refl, refl)

abbrev pub stamps_at : Stamps
stamps_at = record { new_v4 = λ n. "0"; now = λ n. n }

unfoldable pub cancelled_late : Database
unfolding begun ended cancel
cancelled_late = pick nothing (cancel columns json serde stamps_at "x" 5 begun ended ended)

-- The cancel loaded before the tick, and read and committed after it.
pub cancelled_late_ok :
    cancel columns json serde stamps_at "x" 5 begun ended ended ≡ ok cancelled_late
unfolding cancelled_late cancel begun ended found loaded claimed load_idle latest
    next_checkpoint_step commit_step first_by last_by update_where count_where checkpoint_from_model
    nodes_of nodes_value budget_of budget_value
cancelled_late_ok = refl

-- What the tick had written to the state is gone.
cancelled_late_state :
    map (λ (c : CheckpointRow). c.state) (history "x" cancelled_late)
    ≡ object end ∷ object (field "done" null end) ∷ object end ∷ []
unfolding cancelled_late cancel begun ended found loaded claimed load_idle latest
    next_checkpoint_step commit_step first_by last_by update_where count_where checkpoint_from_model
    nodes_of nodes_value budget_of budget_value
cancelled_late_state = refl
