-- ===== src/Engine/LlmNode/Choice/Dispatched.antt =====
-- What a tool call that no model composed is made of (services/engine/src/executors/llm.rs).
use ai_engineering_boilerpla.Base.{
  String, ◌≡◌, refl, sym, ◌∙◌, ap, Bool, true, false, not, ◌&&◌, Option, some, none, List, [], ◌∷◌,
  find, Any, here, there, Bool-cases, inl, inr, arith, ◌==◌, if◌then◌else◌, of_some_eq, >>=-eq-some,
}
use ai_engineering_boilerpla.Json.{Json, Value}
use ai_engineering_boilerpla.EngineCore.LlmOutput.{ToolCall}
use ai_engineering_boilerpla.Engine.ToolNode.{Client}
use ai_engineering_boilerpla.Engine.LlmNode.{
  LlmSerde, CatalogEntry, Answer, ChoiceAnswer, DecideResponse,
}
use ai_engineering_boilerpla.Engine.LlmNode.Spans.{Words}
use ai_engineering_boilerpla.Engine.LlmNode.Questions.{
  tool_question_id, prior_option, no_tool_option,
}
use ai_engineering_boilerpla.Engine.LlmNode.Checked.{find_choice}
use ai_engineering_boilerpla.Engine.LlmNode.Choice.{
  fast_tool_call, tool_choice_confident_enough_to_act_on, confident_tool_choice,
  fast_dispatchable_tool_call, dispatched_or_composed, chosen_path, path_for, names_a_live_tool,
}
use ai_engineering_boilerpla.Engine.LlmNode.Choice.Arguments.{HasArgument, with_argument}

found-Any :
    (p : CatalogEntry → Bool) (tools : List CatalogEntry) (tool : CatalogEntry)
    → find p tools ≡ some tool
    → (p tool ≡ true) × Any (λ t. t ≡ tool) tools
found-Any p [] tool h = cc
found-Any p (t ∷ ts) tool h = elim (Bool-cases (p t)) [
  | inl e ↦
      let same : t ≡ tool =
        of_some_eq (sym (ap (λ (b : Bool). if b then some t else find p ts) e) ∙ h) in
      (sym (ap p same) ∙ e, here same)
  | inr e ↦
      let (f, rest) =
        found-Any p ts tool (sym (ap (λ (b : Bool). if b then some t else find p ts) e) ∙ h) in
      (f, there rest)
]

module _ (J : Json) (C : Client) (L : LlmSerde J) (T : Words) where
  open L use {at_most}

  -- A call that was dispatched without a model: of a tool of the catalogue, with one argument that
  -- is either the picked value or the whole question, where that is safe to send.
  abbrev pub IsDispatched : List CatalogEntry → String → List Answer → ToolCall → Type 0
  IsDispatched tools question answers call =
      (tool : CatalogEntry) × (c : ChoiceAnswer) × Any (λ t. t ≡ tool) tools
      × (call.name ≡ tool.name)
      × (find_choice answers tool_question_id ≡ some c)
      × ((tool.name == c.choice) ≡ true)
      × ((c.choice == no_tool_option) ≡ false)
      × (at_most tool_choice_confident_enough_to_act_on c.confidence ≡ true)
      × HasArgument J C L T tool question answers call

  confident_enough :
      (answers : List Answer) (d c : ChoiceAnswer)
      → find_choice answers tool_question_id ≡ some d
      → (if not (d.choice == no_tool_option)
            && at_most tool_choice_confident_enough_to_act_on d.confidence
          then some d
          else none)
        ≡ some c
      → (find_choice answers tool_question_id ≡ some c)
        × ((c.choice == no_tool_option) ≡ false)
        × (at_most tool_choice_confident_enough_to_act_on c.confidence ≡ true)
  confident_enough answers d c e h =
      let sure =
        not (d.choice == no_tool_option)
        && at_most tool_choice_confident_enough_to_act_on d.confidence in
      elim (Bool-cases sure) [
        | inl t ↦
            let same : d ≡ c =
              of_some_eq (sym (ap (λ (b : Bool). if b then some d else none) t) ∙ h) in
            (
              e ∙ ap some same,
              ap (λ (x : ChoiceAnswer). x.choice == no_tool_option) (sym same) ∙ ground (arith, t),
              ap (λ (x : ChoiceAnswer). at_most tool_choice_confident_enough_to_act_on x.confidence)
                    (sym same)
                  ∙ ground (arith, t),
            )
        | inr t ↦ ground (arith, t, h)
      ]

  confident :
      (answers : List Answer) (c : ChoiceAnswer)
      → confident_tool_choice J C L T answers ≡ some c
      → (find_choice answers tool_question_id ≡ some c)
        × ((c.choice == no_tool_option) ≡ false)
        × (at_most tool_choice_confident_enough_to_act_on c.confidence ≡ true)
  unfolding confident_tool_choice
  confident answers c h =
      let (d, e, f) = >>=-eq-some (find_choice answers tool_question_id) _ h in
      confident_enough answers d c e f

  -- What a path for a tool call says of the calls that it was chosen from.
  composed_instead :
      (o : Option ToolCall) (c : ChoiceAnswer) (tools : List CatalogEntry) (usage u : Value)
      → (call : ToolCall) → dispatched_or_composed J C L T o c tools usage ≡ fast_tool_call call u
      → o ≡ some call
  unfolding dispatched_or_composed
  composed_instead (some d) c tools usage u call h = cc
  composed_instead none c tools usage u call h = elim (Bool-cases (names_a_live_tool c tools)) [
    | inl t ↦ ground (arith, t, h)
    | inr t ↦ ground (arith, t, h)
  ]

  dispatched :
      (tools : List CatalogEntry) (question : String) (answers : List Answer) (call : ToolCall)
      → (c : ChoiceAnswer) → confident_tool_choice J C L T answers ≡ some c
      → fast_dispatchable_tool_call J C L T c tools question answers ≡ some call
      → IsDispatched tools question answers call
  unfolding fast_dispatchable_tool_call
  dispatched tools question answers call c e h =
      let (tool, f, h1) = >>=-eq-some (find (λ (t : CatalogEntry). t.name == c.choice) tools) _ h in
      let (named, listed) = found-Any (λ (t : CatalogEntry). t.name == c.choice) tools tool f in
      let (asked, not_none, sure) = confident answers c e in
      let (same, argument) = with_argument J C L T tool question answers call _ _ refl refl h1 in
      (tool, c, listed, same, asked, named, not_none, sure, argument)

  chosen :
      (tools : List CatalogEntry) (question : String) (answers : List Answer) (usage u : Value)
      → (call : ToolCall) (o : Option ChoiceAnswer) → confident_tool_choice J C L T answers ≡ o
      → chosen_path J C L T o tools question answers usage ≡ fast_tool_call call u
      → IsDispatched tools question answers call
  unfolding chosen_path
  chosen tools question answers usage u call none e h = cc
  chosen tools question answers usage u call (some c) e h =
      elim (Bool-cases (c.choice == prior_option)) [
        | inl t ↦ ground (arith, t, h)
        | inr t ↦ dispatched tools question answers call c e (
            composed_instead (fast_dispatchable_tool_call J C L T c tools question answers) c tools
              usage u call (ground (arith, t, h)))
      ]

  -- A tool is called without asking a model only if the decider chose it with confidence from the
  -- catalogue; its one argument is a value that the decider picked with confidence and found stated,
  -- alone, in the message, or the message itself, on one line of at most 200 characters.
  pub path_for-IsDispatched :
      (decided : DecideResponse) (tools : List CatalogEntry) (question : String)
      → (call : ToolCall) (usage : Value)
      → path_for J C L T decided tools question ≡ fast_tool_call call usage
      → IsDispatched tools question decided.answers call
  unfolding path_for
  path_for-IsDispatched decided tools question call usage h =
      chosen tools question decided.answers _ usage call _ refl h
