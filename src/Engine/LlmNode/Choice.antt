-- ===== src/Engine/LlmNode/Choice.antt =====
-- services/engine/src/executors/llm.rs: what the answers of the decider let an llm node do without
-- asking a model.
pub mod Arguments
pub mod Dispatched
use ai_engineering_boilerpla.Base.{
  ℕ, suc, String, Bool, true, false, not, ◌&&◌, Option, none, some, List, [], ◌∷◌, ◌>>=◌, any, find,
  leb, ◌==◌, if◌then◌else◌,
}
use ai_engineering_boilerpla.Json.{Json, Value, null, string, object, end}
use ai_engineering_boilerpla.EngineCore.LlmOutput.{ToolCall}
use ai_engineering_boilerpla.Engine.ToolNode.{Client}
use ai_engineering_boilerpla.Engine.LlmNode.{
  LlmSerde, CatalogEntry, Answer, ChoiceAnswer, DecideResponse,
}
use ai_engineering_boilerpla.Engine.LlmNode.Reply.{decide_usage_value}
use ai_engineering_boilerpla.Engine.LlmNode.Material.{char_count}
use ai_engineering_boilerpla.Engine.LlmNode.Spans.{
  Words, no_value_option, decidable_argument, single_required_free_text_field,
}
use ai_engineering_boilerpla.Engine.LlmNode.Questions.{
  tool_question_id, no_tool_option, prior_option, value_question_id, value_stated_id,
  value_one_only_id,
}
use ai_engineering_boilerpla.Engine.LlmNode.Checked.{find_noul, find_choice}

abbrev pub tool_choice_confident_enough_to_act_on : String
tool_choice_confident_enough_to_act_on = "0.5"

abbrev pub value_choice_confident_enough_to_dispatch : String
value_choice_confident_enough_to_dispatch = "0.6"

abbrev pub value_stated_enough_to_dispatch : String
value_stated_enough_to_dispatch = "0.5"

abbrev pub value_one_only_enough_to_dispatch : String
value_one_only_enough_to_dispatch = "0.5"

abbrev pub max_chars_sent_to_a_tool_verbatim : ℕ
max_chars_sent_to_a_tool_verbatim = 200

pub data FastPath : Type 0 where
  fast_tool_call : ToolCall → Value → FastPath
  fast_compose : String → Value → FastPath
  fast_material : Value → FastPath
  fast_decline : Value → FastPath

unfoldable pub names_a_live_tool : ChoiceAnswer → List CatalogEntry → Bool
names_a_live_tool c available_tools = any (λ t. t.name == c.choice) available_tools

module _ (J : Json) (C : Client) (L : LlmSerde J) (T : Words) where
  open L use {at_most}

  unfoldable pub confident_tool_choice : List Answer → Option ChoiceAnswer
  unfolding find_choice
  confident_tool_choice answers = find_choice answers tool_question_id >>= λ c.
      if not (c.choice == no_tool_option)
        && at_most tool_choice_confident_enough_to_act_on c.confidence
      then some c
      else none

  abbrev pub value_if_enough : ChoiceAnswer → String → String → Option String
  value_if_enough c stated one_only =
      if not (c.choice == no_value_option)
        && at_most value_choice_confident_enough_to_dispatch c.confidence
        && at_most value_stated_enough_to_dispatch stated
        && at_most value_one_only_enough_to_dispatch one_only
      then some c.choice
      else none

  unfoldable pub picked_value : List Answer → String → Option String
  unfolding find_choice find_noul value_question_id value_stated_id value_one_only_id
  picked_value answers tool = do
    c ← find_choice answers (value_question_id tool)
    stated ← find_noul answers (value_stated_id tool)
    one_only ← find_noul answers (value_one_only_id tool)
    value_if_enough c stated one_only

  abbrev pub one_argument : String → String → Value
  one_argument name value = object (J.insert end name (string value))

  unfoldable pub call_with_the_picked_value : CatalogEntry → List Answer → Option ToolCall
  unfolding decidable_argument picked_value
  call_with_the_picked_value tool answers =
      decidable_argument J C tool.input_schema_json >>= λ (name, description).
      picked_value answers tool.name >>= λ value.
      some (record { name = tool.name; args = one_argument name value })

  unfoldable pub safe_to_send_verbatim : String → Bool
  unfolding char_count
  safe_to_send_verbatim question =
      let trimmed = T.trim question in
      not (trimmed == "")
      && not (T.contains_line_feed trimmed)
      && leb (char_count trimmed) max_chars_sent_to_a_tool_verbatim

  unfoldable pub call_with_the_question_verbatim : CatalogEntry → String → Option ToolCall
  unfolding safe_to_send_verbatim single_required_free_text_field
  call_with_the_question_verbatim tool question =
      if safe_to_send_verbatim question
      then (single_required_free_text_field J C tool.input_schema_json >>= λ name.
          some (record { name = tool.name; args = one_argument name question }))
      else none

  -- `or_else`
  abbrev pub or_else : Option ToolCall → Option ToolCall → Option ToolCall
  or_else (some c) second = some c
  or_else none second = second

  unfoldable pub fast_dispatchable_tool_call :
      ChoiceAnswer → List CatalogEntry → String → List Answer → Option ToolCall
  unfolding call_with_the_picked_value call_with_the_question_verbatim
  fast_dispatchable_tool_call c available_tools question answers =
      find (λ (t : CatalogEntry). t.name == c.choice) available_tools >>= λ tool.
      or_else (call_with_the_picked_value tool answers)
        (call_with_the_question_verbatim tool question)

  unfoldable pub dispatched_or_composed :
      Option ToolCall → ChoiceAnswer → List CatalogEntry → Value → FastPath
  unfolding names_a_live_tool
  dispatched_or_composed (some call) c available_tools usage = fast_tool_call call usage
  dispatched_or_composed none c available_tools usage =
      if names_a_live_tool c available_tools
      then fast_compose c.choice usage
      else fast_decline usage

  unfoldable pub chosen_path :
      Option ChoiceAnswer → List CatalogEntry → String → List Answer → Value → FastPath
  unfolding fast_dispatchable_tool_call
  chosen_path none available_tools question answers usage = fast_decline usage
  chosen_path (some c) available_tools question answers usage =
      if c.choice == prior_option
      then fast_material usage
      else dispatched_or_composed (fast_dispatchable_tool_call c available_tools question answers) c
          available_tools usage

  -- The path for an answer of the decider.
  unfoldable pub path_for : DecideResponse → List CatalogEntry → String → FastPath
  unfolding confident_tool_choice decide_usage_value
  path_for decided available_tools question =
      chosen_path (confident_tool_choice decided.answers) available_tools question decided.answers
        (decide_usage_value J L decided)
