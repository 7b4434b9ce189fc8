-- ===== src/Engine/LlmNode/Prompt.antt =====
-- services/engine/src/executors/llm.rs: the request that a model is asked with.
use ai_engineering_boilerpla.Base.{
  String, Bool, true, false, not, ◌&&◌, Option, none, some, List, [], ◌∷◌, ◌++◌, map, if◌then◌else◌,
}
use ai_engineering_boilerpla.Json.{Json, Value}
use ai_engineering_boilerpla.EngineCore.LlmOutput.{Serde}
use ai_engineering_boilerpla.Engine.ToolNode.{Client, question_in_state}
use ai_engineering_boilerpla.Engine.LlmNode.{
  Mode, loop, compose_only, from_material, CatalogEntry, LlmNodeConfig, SystemPart, own_prompt,
  default_system_prompt, tool_calling_instructions, compose_only_instructions,
  from_material_instructions, available_tools_heading, available_tool, tool_use_policy,
  final_answer_style, CompleteRequest,
}
use ai_engineering_boilerpla.Engine.LlmNode.Material.{
  Material, shown, in_the_prompt, concatenated, appended_text,
}

abbrev pub own_or_default : Option String → SystemPart
own_or_default none = default_system_prompt
own_or_default (some prompt) = own_prompt prompt

abbrev pub instructions_of : Mode → SystemPart
instructions_of loop = tool_calling_instructions
instructions_of compose_only = compose_only_instructions
instructions_of from_material = from_material_instructions

abbrev pub is_from_material : Mode → Bool
is_from_material from_material = true
is_from_material mode = false

abbrev pub is_compose_only : Mode → Bool
is_compose_only compose_only = true
is_compose_only mode = false

unfoldable pub listed_tools : List CatalogEntry → List SystemPart
listed_tools [] = []
listed_tools (t ∷ ts) =
    available_tools_heading ∷ map (λ e. available_tool e.name e.description) (t ∷ ts)

-- The parts of the system prompt, in the order in which they are pushed.
unfoldable pub system_prompt_for : LlmNodeConfig → Mode → List SystemPart
unfolding listed_tools
system_prompt_for config mode =
    let in_hand = is_from_material mode in
    own_or_default config.system_prompt
    ∷ ((if config.tool_calling then instructions_of mode ∷ [] else [])
        ++ ((if in_hand then [] else listed_tools config.available_tools)
            ++ ((if config.tool_calling && not in_hand then tool_use_policy ∷ [] else [])
                ++ (if is_compose_only mode then [] else final_answer_style ∷ []))))

module _ (J : Json) (S : Serde) (C : Client) where
  unfoldable pub user_prompt_for : Value → Material → String
  unfolding question_in_state shown in_the_prompt concatenated
  user_prompt_for state material =
      appended_text (question_in_state J S C state).question
        (concatenated (map (in_the_prompt J S C) (shown material)))

  unfoldable pub complete_request_for : LlmNodeConfig → Value → Mode → Material → CompleteRequest
  unfolding system_prompt_for user_prompt_for
  complete_request_for config state mode material = record {
    system_prompt = system_prompt_for config mode;
    user_prompt = user_prompt_for state material;
    json_object = config.tool_calling;
  }
