-- ===== src/EngineCore/Execution.antt =====
-- engine-core/src/execution.rs, event.rs and checkpoint.rs: one execution of one graph, and the
-- events that record what happens to it. A failure stands for the text of its message.
pub mod Kept
use ai_engineering_boilerpla.Base.{ℕ, String, Option, none, List, ◌∷◌, [], ◌++◌, length}
use ai_engineering_boilerpla.Json.{Value}
use ai_engineering_boilerpla.EngineCore.Budget.{Budget}
use ai_engineering_boilerpla.EngineCore.Graph.{NodeId, GraphId, UserId, Instant, WaitKind}

abbrev pub ExecutionId : Type 0
ExecutionId = String

pub record ActiveNode : Type 0 where
  pub node : NodeId
  pub branch : Option ℕ

-- `ActiveNode::plain`
abbrev pub plain : NodeId → ActiveNode
plain node = record { node = node; branch = none }

pub data Status : Type 0 where
  ready running completed failed cancelled : Status
  waiting : WaitKind → Status

pub record Execution : Type 0 where
  pub id : ExecutionId
  pub graph_id : GraphId
  pub graph_version : ℕ
  pub user_id : Option UserId
  pub status : Status
  pub current_nodes : List ActiveNode
  pub state : Value
  pub iteration : ℕ
  pub max_iterations : ℕ
  pub deadline : Option Instant
  pub budget : Budget

-- The errors that `step` formats, by what they name.
pub data Failure : Type 0 where
  budget_exhausted deadline_exceeded : Failure
  max_iterations_reached : ℕ → Failure
  node_failed_with_no_edge : NodeId → String → Failure

pub data ExecutionPayload : Type 0 where
  execution_started resumed interrupted execution_cancelled : ExecutionPayload
  node_started : NodeId → ExecutionPayload
  node_completed : NodeId → Value → ExecutionPayload
  node_failed : NodeId → String → ExecutionPayload
  task_output : NodeId → Value → ExecutionPayload
  waiting_on : WaitKind → ExecutionPayload
  execution_completed : Value → Option Value → ExecutionPayload
  execution_failed : Failure → ExecutionPayload

pub record Event {ℓ} (P : Type ℓ) : Type ℓ where
  pub id : String
  pub version : ℕ
  pub occurred_at : Instant
  pub user_id : Option UserId
  pub correlation_id : ExecutionId
  pub causation_id : Option String
  pub payload : P

abbrev pub ExecutionEvent : Type 0
ExecutionEvent = Event ExecutionPayload

-- `Uuid::new_v4` and `Utc::now` as the n-th call of one step meets them.
pub record Stamps : Type 0 where
  pub new_v4 : ℕ → String
  pub now : ℕ → Instant

-- `Execution::event`
unfoldable pub event : Stamps → ℕ → Execution → ExecutionPayload → ExecutionEvent
event stamps n x payload = record {
  id = stamps.new_v4 n;
  version = 1;
  occurred_at = stamps.now n;
  user_id = x.user_id;
  correlation_id = x.id;
  causation_id = none;
  payload = payload;
}

-- `events.push(execution.event(payload))`
unfoldable pub push_event :
    Stamps → Execution → ExecutionPayload → List ExecutionEvent → List ExecutionEvent
unfolding event
push_event stamps x payload events = events ++ event stamps (length events) x payload ∷ []

abbrev pub checkpoint_schema_version : ℕ
checkpoint_schema_version = 1

pub record Checkpoint : Type 0 where
  pub schema_version : ℕ
  pub execution_id : ExecutionId
  pub step : ℕ
  pub state : Value
  pub current_nodes : List ActiveNode
