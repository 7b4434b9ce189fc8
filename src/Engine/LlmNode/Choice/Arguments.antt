-- ===== src/Engine/LlmNode/Choice/Arguments.antt =====
-- The one argument of a tool call that no model composed (services/engine/src/executors/llm.rs).
use ai_engineering_boilerpla.Base.{
  ◌≤◌, String, ◌≡◌, refl, sym, ◌∙◌, ap, Bool, true, false, Option, some, none, List, ◌>>=◌, ◌⊎◌,
  inl, inr, arith, ◌==◌, if◌then◌else◌, of_some_eq, >>=-eq-some,
}
use ai_engineering_boilerpla.Json.{Json}
use ai_engineering_boilerpla.EngineCore.LlmOutput.{ToolCall}
use ai_engineering_boilerpla.Engine.ToolNode.{Client}
use ai_engineering_boilerpla.Engine.LlmNode.{LlmSerde, CatalogEntry, Answer, ChoiceAnswer}
use ai_engineering_boilerpla.Engine.LlmNode.Spans.{
  Words, no_value_option, decidable_argument, single_required_free_text_field,
}
use ai_engineering_boilerpla.Engine.LlmNode.Questions.{
  value_question_id, value_stated_id, value_one_only_id,
}
use ai_engineering_boilerpla.Engine.LlmNode.Checked.{find_noul, find_choice}
use ai_engineering_boilerpla.Engine.LlmNode.Material.{char_count}
use ai_engineering_boilerpla.Engine.LlmNode.Choice.{
  max_chars_sent_to_a_tool_verbatim, value_choice_confident_enough_to_dispatch,
  value_stated_enough_to_dispatch, value_one_only_enough_to_dispatch, picked_value, value_if_enough,
  one_argument, call_with_the_picked_value, safe_to_send_verbatim, call_with_the_question_verbatim,
  or_else,
}

module _ (J : Json) (C : Client) (L : LlmSerde J) (T : Words) where
  open L use {at_most}

  -- The decider picked this value, and found that the message states it and it alone.
  abbrev IsPicked : List Answer → String → String → Type 0
  IsPicked answers tool value =
      (c : ChoiceAnswer) × (stated one_only : String) × (find_choice answers
          (value_question_id tool)
        ≡ some c)
      × (find_noul answers (value_stated_id tool) ≡ some stated)
      × (find_noul answers (value_one_only_id tool) ≡ some one_only)
      × (c.choice ≡ value)
      × ((c.choice == no_value_option) ≡ false)
      × (at_most value_choice_confident_enough_to_dispatch c.confidence ≡ true)
      × (at_most value_stated_enough_to_dispatch stated ≡ true)
      × (at_most value_one_only_enough_to_dispatch one_only ≡ true)

  enough :
      (c : ChoiceAnswer) (stated one_only value : String)
      → value_if_enough J C L T c stated one_only ≡ some value
      → (c.choice ≡ value)
        × ((c.choice == no_value_option) ≡ false)
        × (at_most value_choice_confident_enough_to_dispatch c.confidence ≡ true)
        × (at_most value_stated_enough_to_dispatch stated ≡ true)
        × (at_most value_one_only_enough_to_dispatch one_only ≡ true)
  enough c stated one_only value h = (
    ground (arith, h),
    ground (arith, h),
    ground (arith, h),
    ground (arith, h),
    ground (arith, h),
  )

  picked_value-IsPicked :
      (answers : List Answer) (tool value : String)
      → picked_value J C L T answers tool ≡ some value
      → IsPicked answers tool value
  unfolding picked_value
  picked_value-IsPicked answers tool value h =
      let (c, e, h1) = >>=-eq-some (find_choice answers (value_question_id tool)) _ h in
      let (stated, f, h2) = >>=-eq-some (find_noul answers (value_stated_id tool)) _ h1 in
      let (one_only, g, h3) = >>=-eq-some (find_noul answers (value_one_only_id tool)) _ h2 in
      let (same, named, sure, said, alone) = enough c stated one_only value h3 in
      (c, stated, one_only, e, f, g, same, named, sure, said, alone)

  -- The one argument is the picked value, or the whole question where that is safe to send.
  abbrev pub HasArgument : CatalogEntry → String → List Answer → ToolCall → Type 0
  HasArgument tool question answers call =
      ((field description value : String) × (decidable_argument J C tool.input_schema_json
          ≡ some (field, description))
        × (call.args ≡ one_argument J C L T field value)
        × IsPicked answers tool.name value)
      ⊎ ((field : String) × (single_required_free_text_field J C tool.input_schema_json
            ≡ some field)
          × (call.args ≡ one_argument J C L T field question)
          × ((T.trim question == "") ≡ false)
          × (T.contains_line_feed (T.trim question) ≡ false)
          × (char_count (T.trim question) ≤ max_chars_sent_to_a_tool_verbatim))

  picked_argument :
      (tool : CatalogEntry) (question : String) (answers : List Answer) (call : ToolCall)
      → call_with_the_picked_value J C L T tool answers ≡ some call
      → (call.name ≡ tool.name) × HasArgument tool question answers call
  unfolding call_with_the_picked_value
  picked_argument tool question answers call h =
      let (field, e, h1) = >>=-eq-some (decidable_argument J C tool.input_schema_json) _ h in
      let (value, f, h2) = >>=-eq-some (picked_value J C L T answers tool.name) _ h1 in
      let same = of_some_eq h2 in
      (
        sym (ap (λ (t : ToolCall). t.name) same),
        inl (
          field.0,
          field.1,
          value,
          e,
          sym (ap (λ (t : ToolCall). t.args) same),
          picked_value-IsPicked answers tool.name value f,
        ),
      )

  safe :
      (question : String)
      → safe_to_send_verbatim J C L T question ≡ true
      → ((T.trim question == "") ≡ false)
        × (T.contains_line_feed (T.trim question) ≡ false)
        × (char_count (T.trim question) ≤ max_chars_sent_to_a_tool_verbatim)
  unfolding safe_to_send_verbatim
  safe question h = (ground (arith, h), ground (arith, h), ground (arith, h))

  safe_case :
      (tool : CatalogEntry) (question : String) (answers : List Answer) (call : ToolCall)
      → (b : Bool) → safe_to_send_verbatim J C L T question ≡ b
      → (if b
          then (single_required_free_text_field J C tool.input_schema_json >>= λ name.
              some (record { name = tool.name; args = one_argument J C L T name question }))
          else none)
        ≡ some call
      → (call.name ≡ tool.name) × HasArgument tool question answers call
  safe_case tool question answers call false e h = cc
  safe_case tool question answers call true e h =
      let (field, f, h1) =
        >>=-eq-some (single_required_free_text_field J C tool.input_schema_json) _ h in
      let same = of_some_eq h1 in
      (
        sym (ap (λ (t : ToolCall). t.name) same),
        let (full, one_line, short) = safe question e in
            inr (field, f, sym (ap (λ (t : ToolCall). t.args) same), full, one_line, short),
      )

  verbatim_argument :
      (tool : CatalogEntry) (question : String) (answers : List Answer) (call : ToolCall)
      → call_with_the_question_verbatim J C L T tool question ≡ some call
      → (call.name ≡ tool.name) × HasArgument tool question answers call
  unfolding call_with_the_question_verbatim
  verbatim_argument tool question answers call h =
      safe_case tool question answers call (safe_to_send_verbatim J C L T question) refl h

  pub with_argument :
      (tool : CatalogEntry) (question : String) (answers : List Answer) (call : ToolCall)
      → (picked verbatim : Option ToolCall)
      → call_with_the_picked_value J C L T tool answers ≡ picked
      → call_with_the_question_verbatim J C L T tool question ≡ verbatim
      → or_else J C L T picked verbatim ≡ some call
      → (call.name ≡ tool.name) × HasArgument tool question answers call
  with_argument tool question answers call none verbatim e f h =
      verbatim_argument tool question answers call (f ∙ h)
  with_argument tool question answers call (some c) verbatim e f h =
      picked_argument tool question answers call (e ∙ h)
