-- ===== src/Engine/LlmNode/Questions.antt =====
-- services/engine/src/executors/llm.rs: the questions about a message: which tool can answer it, and
-- which value it names.
use Prim.Native.String.{◌++◌}
use ai_engineering_boilerpla.Base.{
  ℕ, zero, suc, String, Bool, ◌&&◌, ◌||◌, Option, none, some, List, [], ◌∷◌, ◌>>=◌, length, chain,
  map, ltb, leb, get_or, flatten, is_some, ◌==◌, if◌then◌else◌,
}
use ai_engineering_boilerpla.Json.{Json, Value, string, object, end}
use ai_engineering_boilerpla.EngineCore.LlmOutput.{Serde}
use ai_engineering_boilerpla.Engine.ToolNode.{Client}
use ai_engineering_boilerpla.Engine.LlmNode.{
  LlmSerde, CatalogEntry, Question, ChoiceOption, choice_of, noul_of, DecideRequest,
}
use ai_engineering_boilerpla.Engine.LlmNode.Material.{truncated_to}
use ai_engineering_boilerpla.Engine.LlmNode.Ask.{instructed, byte_len, clamped_to, readable_state}
use ai_engineering_boilerpla.Engine.LlmNode.Spans.{
  Words, spans, Options, closed, from_message, decidable_field, filter_map, is_nonempty,
  nonempty_or_not, max_option_name_bytes, max_span_options, no_value_option,
}

abbrev pub tool_question_id : String
tool_question_id = "tool"

abbrev pub no_tool_option : String
no_tool_option = "none"

abbrev pub prior_option : String
prior_option = "already_found"

abbrev pub no_tool_description : String
no_tool_description =
    "no source listed here holds what this question asks for, or the message asks for nothing"

abbrev pub prior_description : String
prior_description =
    "the material already shown above. Choose this when the answer is somewhere in that material — including what was asked for, which the material records beside each result — so nothing new needs looking up"

abbrev pub tool_question_instructions : String
tool_question_instructions =
    "Which of these sources can answer this question? Choose the one whose material covers what is being asked. Choose the option for none of them when none does."

abbrev pub max_option_description_bytes : ℕ
max_option_description_bytes = 1024

-- (49152 - 8192) / 4
abbrev pub max_chars_of_material_in_a_decision : ℕ
max_chars_of_material_in_a_decision = 10240

abbrev pub max_arguments_asked_about_at_once : ℕ
max_arguments_asked_about_at_once = 4

unfoldable pub value_question_id : String → String
value_question_id tool = "value::" ++ tool

unfoldable pub value_stated_id : String → String
value_stated_id tool = "stated::" ++ tool

unfoldable pub value_one_only_id : String → String
value_one_only_id tool = "one_only::" ++ tool

-- `filter(|line| !line.is_empty()).map(clamped_to)`
unfoldable pub described : Option String → Option String
unfolding clamped_to
described none = none
described (some line) =
    if is_nonempty line then some (clamped_to line max_option_description_bytes) else none

-- A name that the model could not echo back is left out.
unfoldable pub offered : String → Option String → Option ChoiceOption
unfolding described byte_len
offered name description =
    if (name == "") || ltb max_option_name_bytes (byte_len name)
    then none
    else some (record { name = name; description = described description })

-- `take(MAX_ARGUMENTS_ASKED_ABOUT_AT_ONCE)`
unfoldable pub taken : {A : Type 0} → ℕ → List A → List A
taken zero xs = []
taken (suc n) [] = []
taken (suc n) (x ∷ xs) = x ∷ taken n xs

unfoldable pub tool_options : List CatalogEntry → Bool → List ChoiceOption
unfolding offered filter_map
tool_options available_tools has_prior =
    chain (filter_map (λ (t : CatalogEntry). offered t.name (some t.description)) available_tools) (
      chain
        (if has_prior
          then record { name = prior_option; description = some prior_description } ∷ []
          else [])
        (record { name = no_tool_option; description = some no_tool_description } ∷ []))

module _ (J : Json) (C : Client) (L : LlmSerde J) (S : Serde) (T : Words) where
  unfoldable pub tool_question : List CatalogEntry → Bool → Option Question
  unfolding instructed tool_options
  tool_question available_tools has_prior =
      instructed J S C L tool_question_id (string tool_question_instructions)
        (choice_of (tool_options available_tools has_prior))

  unfoldable pub value_options : List (String × Option String) → List ChoiceOption
  unfolding offered filter_map
  value_options candidates = filter_map (λ (c : String × Option String). offered c.0 c.1) candidates

  -- The three questions about the value of one tool's argument.
  unfoldable pub three_questions : String → String → List ChoiceOption → Option (List Question)
  unfolding instructed value_question_id value_stated_id value_one_only_id
  three_questions tool description options = do
    value ←
        instructed J S C L (value_question_id tool)
          (object (
            J.insert (J.insert end "field" (string description)) "question"
              (string "Which option is the value of `field` in `message`?")))
          (choice_of (
            chain options (
              record { name = no_value_option; description = some "no option is that value" }
              ∷ [])))
    stated ←
        instructed J S C L (value_stated_id tool)
          (string ("Does `message` name " ++ description ++ " outright?"))
          (noul_of "the message names it in so many words"
            "it is implied, absent, or would have to be worked out from something else")
    one_only ←
        instructed J S C L (value_one_only_id tool)
          (string ("Does `message` name exactly one " ++ description ++ ", rather than several?"))
          (noul_of "exactly one" "two or more, or a list")
    some (value ∷ stated ∷ one_only ∷ [])

  unfoldable pub question_set_for :
      String → String → List (String × Option String) → Option (List Question)
  unfolding value_options three_questions
  question_set_for tool description candidates =
      nonempty_or_not (value_options candidates) >>= three_questions tool description

  abbrev pub listed_options : List String → Options → List (String × Option String)
  listed_options candidates (closed listed) = listed
  listed_options candidates from_message = map (λ span. (span, none)) candidates

  -- A tool with what is asked about its argument, if the list of options is not too long.
  unfoldable pub decidable_tool :
      List String → CatalogEntry → Option (String × String × List (String × Option String))
  unfolding decidable_field
  decidable_tool candidates tool =
      decidable_field J C tool.input_schema_json >>= λ (name, description, options).
      let listed = listed_options candidates options in
      if ltb 0 (length listed) && leb (length listed) max_span_options
      then some (tool.name, description, listed)
      else none

  unfoldable pub decidable_questions : String → List CatalogEntry → List Question
  unfolding decidable_tool question_set_for taken filter_map spans
  decidable_questions message available_tools =
      let candidates = spans T message in
      flatten (
        map
          (λ (t : String × String × List (String × Option String)).
            get_or [] (question_set_for t.0 t.1 t.2))
          (taken max_arguments_asked_about_at_once
            (filter_map (decidable_tool candidates) available_tools)))

  unfoldable pub decide_state : String → Option String → Value
  unfolding truncated_to
  decide_state question none = string question
  decide_state question (some rendered) = object (
      J.insert (J.insert end "message" (string question)) "already_found"
        (string (truncated_to rendered max_chars_of_material_in_a_decision)))

  unfoldable pub decide_request : String → List CatalogEntry → Option String → Option DecideRequest
  unfolding decide_state tool_question decidable_questions
  decide_request question available_tools rendered_prior = do
    state ← readable_state J S C L (decide_state question rendered_prior)
    which ← tool_question available_tools (is_some rendered_prior)
    some
        (record { state = state; questions = which ∷ decidable_questions question available_tools })
