-- ===== src/Engine/Service.antt =====
-- services/engine/src/service.rs: starts executions, with what they carry over from an earlier one. What is read from and
-- written to the same tables within one call is one access.
pub mod Carry
use ai_engineering_boilerpla.Base.{
  ℕ, ◌+◌, ◌-◌, ◌*◌, String, Bool, true, false, not, ◌&&◌, ◌||◌, Option, none, some, List, [], ◌∷◌,
  ◌++◌, ◌==◌, find, keep, map, is_some, get_or, eqb, if◌then◌else◌,
}
use ai_engineering_boilerpla.Base.Results.{Result, ok, err, ◌>>=◌}
use ai_engineering_boilerpla.Base.Integers.{ℤ, pos, negsuc}
use ai_engineering_boilerpla.Base.Tables.{last_by}
use ai_engineering_boilerpla.Json.{Json, Value, Fields, object, array, of_list}
use ai_engineering_boilerpla.EngineCore.Budget
use ai_engineering_boilerpla.EngineCore.Graph.{Instant, UserId, GraphId, Graph, Problem, validate}
use ai_engineering_boilerpla.EngineCore.Execution.{
  ExecutionId, ActiveNode, plain, Execution, Checkpoint, checkpoint_schema_version,
}
use ai_engineering_boilerpla.EngineCore.LlmOutput.{
  Serde, ToolRecord, all_under, reached_its_source, first_shown, tool_result_state_key,
}
use ai_engineering_boilerpla.Engine.Rows.{RowStatus, ExecutionRow, GraphRow, Database}
use ai_engineering_boilerpla.Engine.Wire.{
  Columns, WireFault, unreadable, unsigned_or_zero, checkpoint_to_row, i32_max,
}
use ai_engineering_boilerpla.Engine.Store.{CommitFault, same_step, latest, insert_checkpoint}
use ai_engineering_boilerpla.Engine.Tick.{graph_row}
use ai_engineering_boilerpla.Engine.Control.{
  EngineError, invalid_graph, graph_not_found, invalid_request, storage, database, same_user, in_db,
  parsed, execution_row,
}
use ai_engineering_boilerpla.Engine.Graphs.{load_graph}

abbrev pub default_max_iterations : ℕ
default_max_iterations = 25

abbrev pub default_token_budget : ℕ
default_token_budget = 200_000

abbrev pub default_tool_call_budget : ℕ
default_tool_call_budget = 50

-- In nanoseconds.
abbrev pub default_wall_time_budget : ℕ
default_wall_time_budget = 600 * 1_000_000_000

abbrev pub prior_material_state_key : String
prior_material_state_key = "prior_material"

abbrev pub drop {ℓ} : {A : Type ℓ} → ℕ → List A → List A
drop n [] = []
drop n (a ∷ as') = let rest = drop (n - 1) as' in if eqb n 0 then a ∷ as' else rest

unfoldable pub execution_input : Result String Value → Result EngineError Fields
execution_input (ok (object m)) = ok m
execution_input (ok _) = err (invalid_request "input_json must decode to a JSON object")
execution_input (err e) = err (invalid_request e)

abbrev pub of_user : Option UserId → ExecutionRow → Bool
of_user caller row = not (is_some row.user_id) || same_user row.user_id caller

-- `Budget::new` with the defaults.
unfoldable pub default_budget : Budget.Budget
unfolding Budget.new
default_budget = Budget.new default_token_budget default_tool_call_budget default_wall_time_budget

module _ (C : Columns) where
  open C use {nodes_to_value, budget_to_value}

  abbrev pub first_row :
      ExecutionId → GraphRow → List ActiveNode → Option UserId → Instant → ExecutionRow
  first_row id graph_row entry_nodes user_id now = record {
    id = id;
    graph_id = graph_row.graph_id;
    graph_version = graph_row.version;
    user_id = user_id;
    status = RowStatus.ready;
    wait_kind = none;
    current_nodes = nodes_to_value entry_nodes;
    iteration = pos 0;
    max_iterations = pos default_max_iterations;
    deadline = none;
    budget = budget_to_value default_budget;
    lease_owner = none;
    lease_until = none;
    created_at = now;
    updated_at = now;
  }

  abbrev pub first_checkpoint : ExecutionId → Fields → List ActiveNode → Checkpoint
  first_checkpoint id input entry_nodes = record {
    schema_version = checkpoint_schema_version;
    execution_id = id;
    step = 0;
    state = object input;
    current_nodes = entry_nodes;
  }

  module _ (J : Json) (S : Serde) where
    unfoldable pub carried_records : Value → List Value
    unfolding all_under reached_its_source first_shown
    carried_records state =
        let records = keep (reached_its_source J S) (
          all_under J S state prior_material_state_key
          ++ all_under J S state tool_result_state_key) in
        map S.write_record (drop (first_shown records) records)

    abbrev pub with_material : Fields → List Value → Fields
    unfolding of_list
    with_material input [] = input
    with_material input (r ∷ rs) =
        J.insert input prior_material_state_key (array (of_list (r ∷ rs)))

    abbrev pub material_of : Result WireFault (Option Checkpoint) → List Value
    unfolding carried_records
    material_of (ok (some c)) = carried_records c.state
    material_of (ok none) = []
    material_of (err e) = []

    abbrev pub belongs_to : Option UserId → Result EngineError ExecutionRow → Bool
    belongs_to caller (ok row) = of_user caller row
    belongs_to caller (err e) = false

    unfoldable pub carry_material_from : ExecutionId → Option UserId → Fields → Database → Fields
    unfolding execution_row latest carried_records of_list
    carry_material_from parent caller input db =
        if belongs_to caller (execution_row C parent db)
        then with_material input (material_of (latest C parent db.checkpoints))
        else input

    abbrev pub continued : Option ExecutionId → Option UserId → Fields → Database → Fields
    unfolding carry_material_from
    continued none caller input db = input
    continued (some parent) caller input db = carry_material_from parent caller input db

    -- `id` is the new UUID.
    unfoldable pub start_continuing :
        ExecutionId
        → GraphId
        → Option ℤ
        → Result String Value
        → Option UserId
        → Option ExecutionId
        → Instant
        → Database
        → Result EngineError Database
    unfolding execution_input carry_material_from load_graph checkpoint_to_row insert_checkpoint
    start_continuing id graph_id version sent user_id continues now db = do
      own ← execution_input sent
      let input = continued continues user_id own db
      graph ← load_graph C graph_id version db
      let entry_nodes = plain graph.1.entry ∷ []
      checkpoints ← in_db (
          insert_checkpoint (checkpoint_to_row C now (first_checkpoint id input entry_nodes))
            db.checkpoints)
      ok (record db {
        executions = db.executions ++ first_row id graph.0 entry_nodes user_id now ∷ [];
        checkpoints = checkpoints;
        wakes = db.wakes + 1;
      })

    abbrev pub start_execution :
        ExecutionId
        → GraphId
        → Option ℤ
        → Result String Value
        → Option UserId
        → Instant
        → Database
        → Result EngineError Database
    unfolding start_continuing
    start_execution id graph_id version sent user_id now db =
        start_continuing id graph_id version sent user_id none now db
