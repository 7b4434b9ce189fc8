-- ===== src/Engine/Rows.antt =====
-- services/engine/src/entity and execution_event.rs: the tables of the engine. Ids are UUIDs, times
-- are instants. A NOTIFY counts one wake-up.
use ai_engineering_boilerpla.Base.{ℕ, String, Option, List}
use ai_engineering_boilerpla.Base.Integers.{ℤ}
use ai_engineering_boilerpla.Json.{Value}
use ai_engineering_boilerpla.EngineCore.Graph.{Instant, UserId, GraphId}
use ai_engineering_boilerpla.EngineCore.Execution.{ExecutionId}

pub data RowStatus : Type 0 where
  ready running waiting completed failed cancelled : RowStatus

pub record ExecutionRow : Type 0 where
  pub id : ExecutionId
  pub graph_id : GraphId
  pub graph_version : ℤ
  pub user_id : Option UserId
  pub status : RowStatus
  pub wait_kind : Option Value
  pub current_nodes : Value
  pub iteration : ℤ
  pub max_iterations : ℤ
  pub deadline : Option Instant
  pub budget : Value
  pub lease_owner : Option String
  pub lease_until : Option Instant
  pub created_at : Instant
  pub updated_at : Instant

pub record CheckpointRow : Type 0 where
  pub execution_id : ExecutionId
  pub step : ℤ
  pub schema_version : ℤ
  pub state : Value
  pub current_nodes : Value
  pub created_at : Instant

pub record GraphRow : Type 0 where
  pub graph_id : GraphId
  pub version : ℤ
  pub user_id : Option UserId
  pub definition : Value
  pub created_at : Instant

pub record EventRow : Type 0 where
  pub event_id : String
  pub execution_id : ExecutionId
  pub user_id : Option UserId
  pub version : ℤ
  pub causation_id : Option String
  pub occurred_at : Instant
  pub payload : Value

pub record Database : Type 0 where
  pub executions : List ExecutionRow
  pub checkpoints : List CheckpointRow
  pub graphs : List GraphRow
  pub events : List EventRow
  pub wakes : ℕ
