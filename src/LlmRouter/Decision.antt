-- ===== src/LlmRouter/Decision.antt =====
-- services/llm-router/src/decision.rs, with the messages of common/proto/llm_router/v1 that
-- budget.rs reads. `W` is the type of a google.protobuf.Value.
use ai_engineering_boilerpla.Base.{ℕ, String, Option, List, Result}
use ai_engineering_boilerpla.Json.{Value}

pub record ChoiceOption : Type 0 where
  pub name : String
  pub description : Option String

-- The kind of a question as it is sent.
pub data SentKind : Type 0 where
  noul : Option String → Option String → SentKind
  choice : List ChoiceOption → SentKind
  score : List String → SentKind

pub record SentQuestion (W : Type 0) : Type 0 where
  pub id : String
  pub instructions : Option W
  pub kind : Option SentKind

pub record DecideRequest (W : Type 0) : Type 0 where
  pub state : Option W
  pub questions : List (SentQuestion W)

pub data QuestionKind : Type 0 where
  noul : Option String → Option String → QuestionKind
  choice : List ChoiceOption → QuestionKind
  score : List String → QuestionKind

pub record Question : Type 0 where
  pub id : String
  pub instructions : Value
  pub kind : QuestionKind

pub record Decision : Type 0 where
  pub state : Value
  pub questions : List Question
  pub caller_stops_waiting_at : Option ℕ

-- serde_json::to_value, and the length of `Value::to_string`.
pub record Wire (W : Type 0) : Type 0 where
  pub to_value : Option W → Result String Value
  pub json_bytes : Value → ℕ
