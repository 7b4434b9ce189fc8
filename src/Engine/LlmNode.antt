-- ===== src/Engine/LlmNode.antt =====
-- services/engine/src/executors/llm.rs: runs an llm node. This file has the requests and answers of
-- the services that it calls, and those services as functions of the state of the world.
pub mod Reply
pub mod Material
pub mod Prompt
pub mod Ask
pub mod Spans
pub mod Questions
pub mod Choice
pub mod Run
pub mod Checked
use ai_engineering_boilerpla.Base.{ℕ, ◌+◌, ◌<◌, ◌^◌, String, ◌≡◌, Bool, Option, some, List}
use ai_engineering_boilerpla.Base.Results.{Result}
use ai_engineering_boilerpla.Json.{Json, Value, value_get}
use ai_engineering_boilerpla.EngineCore.LlmOutput.{LlmOutput, ToolRecord}
use ai_engineering_boilerpla.Engine.ToolNode.{ExecuteRequest, ExecuteResponse}

pub data Mode : Type 0 where
  loop compose_only from_material : Mode

pub record CatalogEntry : Type 0 where
  pub name : String
  pub title : String
  pub description : String
  pub input_schema_json : String

pub record LlmNodeConfig : Type 0 where
  pub system_prompt : Option String
  pub tool_calling : Bool
  pub available_tools : List CatalogEntry

-- A system prompt by its parts: the fixed texts by their names.
pub data SystemPart : Type 0 where
  own_prompt : String → SystemPart
  default_system_prompt : SystemPart
  tool_calling_instructions compose_only_instructions from_material_instructions : SystemPart
  available_tools_heading : SystemPart
  available_tool : String → String → SystemPart
  tool_use_policy final_answer_style compose_refusal : SystemPart
  previous_reply_refused : String → SystemPart
  ungrounded_correction promise_correction : SystemPart

pub record CompleteRequest : Type 0 where
  pub system_prompt : List SystemPart
  pub user_prompt : String
  pub json_object : Bool

pub record CompleteResponse : Type 0 where
  pub content : String
  pub tokens_in : ℕ
  pub tokens_out : ℕ

pub record ChoiceOption : Type 0 where
  pub name : String
  pub description : Option String

pub data QuestionKind : Type 0 where
  choice_of : List ChoiceOption → QuestionKind
  noul_of : String → String → QuestionKind

pub record Question : Type 0 where
  pub id : String
  pub instructions : Value
  pub kind : QuestionKind

pub record DecideRequest : Type 0 where
  pub state : Value
  pub questions : List Question

-- Numbers of the decider are kept as their texts, which only `Decider` compares.
pub record ChoiceAnswer : Type 0 where
  pub choice : String
  pub confidence : String

pub data Given : Type 0 where
  choice : ChoiceAnswer → Given
  noul : String → Given
  other : Given

pub record Answer : Type 0 where
  pub id : String
  pub answer : Option Given

pub record DecideResponse : Type 0 where
  pub answers : List Answer
  pub tokens_in : ℕ
  pub tokens_out : ℕ

-- The services, each of which may answer every call differently, and the clock, in nanoseconds.
pub record Services (World : Type 0) : Type 0 where
  pub complete : CompleteRequest → World → Result String CompleteResponse × World
  pub decide : DecideRequest → World → Result String DecideResponse × World
  pub execute : ExecuteRequest → World → Result String ExecuteResponse × World
  pub clock : World → ℕ

-- What serde derives for this file's types, serde_json and chrono do, and the order of f64.
pub record LlmSerde (J : Json) : Type 0 where
  pub read_config : Value → Result String LlmNodeConfig
  pub read_output_text : String → Option LlmOutput
  -- The first value of `Deserializer::from_str(..).into_iter()`
  pub read_output_prefix : String → Option LlmOutput
  pub write_output : LlmOutput → Value
  -- `from_value` of a request with this state, and of a question with these instructions
  pub readable_state : Value → Bool
  pub readable_instructions : Value → Bool
  pub from_u64 : ℕ → String
  pub read_time : String → Option ℕ
  pub write_time : ℕ → String
  pub less : String → String → Bool
  pub at_most : String → String → Bool
