-- ===== src/Tests/Calls.antt =====
-- The theorems on calls, columns and schedules at concrete inputs.
use ai_engineering_boilerpla.Base.{
  suc, ◌≡◌, String, refl, true, false, none, some, [], ◌∷◌, All, arith, map,
}
use ai_engineering_boilerpla.Base.Results.{Result, ok, of_ok_eq}
use ai_engineering_boilerpla.Base.Tables.{first_by, last_by, update_where, count_where}
use ai_engineering_boilerpla.Json.{Value, object, end}
use ai_engineering_boilerpla.EngineCore.Graph.{Instant}
use ai_engineering_boilerpla.EngineCore.Execution.{Execution, ExecutionEvent, completed, ready}
use ai_engineering_boilerpla.EngineCore.Step.{interrupt}
use ai_engineering_boilerpla.Engine.Rows.{RowStatus, ExecutionRow, Database}
use ai_engineering_boilerpla.Engine.Wire.{checkpoint_from_model}
use ai_engineering_boilerpla.Engine.Store.{commit_step, latest}
use ai_engineering_boilerpla.Engine.Control.{interrupt_execution, load_idle, next_checkpoint_step}
use ai_engineering_boilerpla.Engine.Control.Calls.{Called, interrupt_execution-Called}
use ai_engineering_boilerpla.Engine.Schedule.{ScheduleRow, is_due, due_of, claim_one_due}
use ai_engineering_boilerpla.Engine.Schedule.Once.{claim_one_due-once}
use ai_engineering_boilerpla.Engine.Service.{carry_material_from, prior_material_state_key}
use ai_engineering_boilerpla.Engine.Service.Carry.{carry_material_from-own}
use ai_engineering_boilerpla.Engine.Control.{same_user}
use ai_engineering_boilerpla.Engine.Workers.{Step, commits}
use ai_engineering_boilerpla.Engine.Workers.History.{history, Numbered}
use ai_engineering_boilerpla.Engine.Workers.Log.{LogStep, log, Step-LogStep}
use ai_engineering_boilerpla.Base.{find, ◌==◌, here, is_some}
use ai_engineering_boilerpla.Tests.JsonModel.{json, serde}
use ai_engineering_boilerpla.Tests.EngineModel.{
  columns, nodes_of, nodes_value, budget_of, budget_value,
}
use ai_engineering_boilerpla.Base.{length, ◌≤◌}
use ai_engineering_boilerpla.Engine.Wire.{i32_max}
use ai_engineering_boilerpla.Engine.Store.{checkpoint_of, latest}
use ai_engineering_boilerpla.Engine.Tick.{load_execution_and_graph, load_current_state}
use ai_engineering_boilerpla.Engine.Workers.{later}
use ai_engineering_boilerpla.Engine.Workers.Overwrites.{cancel_overwrites}
use ai_engineering_boilerpla.Tests.Workers.{
  cancelled_late, cancelled_late_ok, at_load, ended, ended_ok, reached, pick, nothing, leased, work,
  next, stamps_at, begun, claimed, found, loaded,
}

-- A database in which the execution has completed.
unfoldable pub done : Database
unfolding claimed begun found loaded commit_step
done = pick nothing (
    commit_step columns work.id (some "a") work.next_step (record next { status = completed }) [] 4
      leased)

-- The same after an interrupt.
unfoldable woken : Database
unfolding done interrupt_execution
woken =
    pick nothing
      (interrupt_execution columns json serde stamps_at "x" (ok (object end)) 6 done done done)

woken_ok :
    interrupt_execution columns json serde stamps_at "x" (ok (object end)) 6 done done done
    ≡ ok woken
unfolding woken done interrupt_execution begun found loaded claimed load_idle latest
    next_checkpoint_step commit_step first_by last_by update_where count_where checkpoint_from_model
    nodes_of nodes_value budget_of budget_value
woken_ok = refl

-- The completed execution is ready again.
woken_status : map (λ (r : ExecutionRow). r.status) woken.executions ≡ RowStatus.ready ∷ []
unfolding woken done interrupt_execution begun found loaded claimed load_idle latest
    next_checkpoint_step commit_step first_by last_by update_where count_where checkpoint_from_model
    nodes_of nodes_value budget_of budget_value
woken_status = refl

interrupt_execution-Called_example :
    (x : Execution) × (y : Execution) × (v : Value) × (ev : ExecutionEvent) × (◌≡◌
      {A = Result String Value}
      (ok (object end))
      (ok v))
    × (interrupt json serde stamps_at x v ≡ some (y, ev))
    × (y.status ≡ ready)
    × Called columns json serde "x" x y (ev ∷ []) 6 done done done woken
interrupt_execution-Called_example =
    interrupt_execution-Called columns json serde stamps_at "x" (ok (object end)) 6 done done done
      woken woken_ok

abbrev hourly : ScheduleRow
hourly = record {
  id = 1;
  graph_id = "fan";
  graph_version = none;
  cron_expr = "hourly";
  input_json = object end;
  user_id = none;
  enabled = true;
  next_run_at = 60;
  last_execution_id = none;
  created_at = 0;
  updated_at = 0;
}

abbrev in_an_hour : String → Instant → Result String Instant
in_an_hour expr now = ok (suc now)

claim_one_due-once_example :
    ((s : ScheduleRow) × (is_due 61 s ≡ true) × (due_of hourly ≡ due_of s))
    × All
        (λ r. r.id ≡ 1 → is_due 61 r ≡ false)
        (record hourly { next_run_at = 62; updated_at = 61 } ∷ [])
unfolding first_by update_where is_due claim_one_due
claim_one_due-once_example =
    claim_one_due-once in_an_hour (λ id. false) 61 (hourly ∷ [])
      (record hourly { next_run_at = 62; updated_at = 61 } ∷ []) (due_of hourly)
      (λ expr t e. omega (arith, of_ok_eq e)) refl

-- The commit of the loaded tick.
after_tick : Step columns json serde at_load (record at_load { db = ended })
after_tick = commits "a" work next [] 4 (here refl) ended_ok

Step-LogStep_example : LogStep (log "x" leased) (log "x" ended) × Numbered 0 (history "x" ended)
Step-LogStep_example =
    Step-LogStep columns json serde at_load (record at_load { db = ended }) reached after_tick "x"

few_checkpoints : length (history "x" ended) ≤ i32_max
unfolding ended begun claimed found loaded commit_step load_execution_and_graph load_current_state
    first_by last_by update_where count_where checkpoint_from_model nodes_of nodes_value budget_of
    budget_value
few_checkpoints = omega arith

-- The tick committed between the load and the read of the cancel.
cancel_overwrites_example :
    (x : Execution) × (load_idle columns "x" begun ≡ ok x)
    × (latest columns "x" cancelled_late.checkpoints
        ≡ ok (some (checkpoint_of columns "x" (length (history "x" ended)) x)))
cancel_overwrites_example =
    cancel_overwrites columns json serde (record at_load { db = ended }) stamps_at "x" 5 begun
      cancelled_late (later reached after_tick) few_checkpoints cancelled_late_ok

-- Another user continues what they do not own.
abbrev owned : Database
owned = record begun {
  executions = map (λ (r : ExecutionRow). record r { user_id = some "u" }) begun.executions;
}

carry_material_from-own_example :
    ((k : String)
      → (prior_material_state_key == k) ≡ false
      → json.get (carry_material_from columns json serde "x" (some "v") end owned) k
        ≡ json.get end k)
    × (find (λ (r : ExecutionRow). r.id == "x") owned.executions ≡ none
        → carry_material_from columns json serde "x" (some "v") end owned ≡ end)
    × ((row : ExecutionRow)
        → find (λ (r : ExecutionRow). r.id == "x") owned.executions ≡ some row
        → is_some row.user_id ≡ true
        → same_user row.user_id (some "v") ≡ false
        → carry_material_from columns json serde "x" (some "v") end owned ≡ end)
carry_material_from-own_example =
    carry_material_from-own columns json serde "x" (some "v") end owned
