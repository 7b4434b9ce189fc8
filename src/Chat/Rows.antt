-- ===== src/Chat/Rows.antt =====
-- services/chat/src/entity: the topics and the sessions, and the errors of the calls.
use ai_engineering_boilerpla.Base.{ℕ, String, Option, List}
use ai_engineering_boilerpla.Json.{Value}
use ai_engineering_boilerpla.EngineCore.Graph.{Instant, UserId}
use ai_engineering_boilerpla.EngineCore.Execution.{ExecutionId}

pub data TopicStatus : Type 0 where
  queued running completed failed cancelled : TopicStatus

abbrev pub SessionId : Type 0
SessionId = String

pub record TopicRow : Type 0 where
  pub id : ℕ
  pub session_id : SessionId
  pub parent_id : Option ℕ
  pub title : String
  pub status : TopicStatus
  pub execution_id : Option ExecutionId
  pub input_json : Value
  pub result_summary : Option String
  pub artifact_ids : Value
  pub created_at : Instant
  pub updated_at : Instant

pub record SessionRow : Type 0 where
  pub id : SessionId
  pub user_id : UserId
  pub focus_topic_id : Option ℕ
  pub created_at : Instant

-- `next_id` is the sequence that numbers topics.
pub record ChatDatabase : Type 0 where
  pub sessions : List SessionRow
  pub topics : List TopicRow
  pub next_id : ℕ

pub data ChatError : Type 0 where
  topic_not_found : ℕ → ChatError
  session_vanished : ChatError
  engine_failed : String → ChatError
