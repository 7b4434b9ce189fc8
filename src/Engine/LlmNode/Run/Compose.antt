-- ===== src/Engine/LlmNode/Run/Compose.antt =====
-- services/engine/src/executors/llm.rs: a tool call whose arguments a model composes.
use ai_engineering_boilerpla.Base.{String, Option, none, some, [], ◌∷◌, ◌++◌, get_or, if◌then◌else◌}
use ai_engineering_boilerpla.Base.Results.{Result, ok}
use ai_engineering_boilerpla.Json.{Json, Value, null}
use ai_engineering_boilerpla.EngineCore.LlmOutput.{Serde, ToolCall}
use ai_engineering_boilerpla.Engine.Nodes.{IdempotencyKey}
use ai_engineering_boilerpla.Engine.ToolNode.{Client, question_in_state}
use ai_engineering_boilerpla.Engine.LlmNode.{
  Services, LlmSerde, compose_only, LlmNodeConfig, compose_refusal, CompleteRequest, DecideRequest,
  DecideResponse,
}
use ai_engineering_boilerpla.Engine.LlmNode.Reply.{merge_usage, compose_failure}
use ai_engineering_boilerpla.Engine.LlmNode.Material.{Material}
use ai_engineering_boilerpla.Engine.LlmNode.Prompt.{complete_request_for}
use ai_engineering_boilerpla.Engine.LlmNode.Ask.{pointed_at_id, pointed_at_request}
use ai_engineering_boilerpla.Engine.LlmNode.Spans.{Words}
use ai_engineering_boilerpla.Engine.LlmNode.Checked.{
  complete_with_retries, decided_once_more_on_error, find_noul,
}
use ai_engineering_boilerpla.Engine.LlmNode.Run.{
  pointed_at_enough_to_dispatch, below_every_threshold, in_catalog, schema_of, plain_reply, clarify,
  composed_call, and_with, answered_with_the_lookup,
}

module _ (J : Json) (S : Serde) (C : Client) (L : LlmSerde J) (T : Words) where
  module _ {World : Type 0} (V : Services World) where
    -- Asked once more where the first output has no call that can be read.
    unfoldable pub unless_composed :
        CompleteRequest → Option ToolCall → Value → World → Result String Value × World
    unfolding complete_with_retries merge_usage
    unless_composed request (some call) spent w = (ok spent, w)
    unless_composed request none spent w =
        and_with J S C L T V
          (complete_with_retries V J L
            (record request { system_prompt = request.system_prompt ++ compose_refusal ∷ [] }) w)
          (λ second w'. (ok (merge_usage J L spent second), w'))

    unfoldable pub composed : LlmNodeConfig → Value → Material → World → Result String Value × World
    unfolding complete_request_for complete_with_retries composed_call
    composed config state material w =
        let request = complete_request_for J S C config state compose_only material in
        and_with J S C L T V (complete_with_retries V J L request w)
          (λ spent w'. unless_composed request (composed_call J S C L T spent) spent w')

    -- The text of the arguments, if the decider does not find that the message points at them.
    unfoldable pub pointed_or_not : ToolCall → Option DecideResponse × World → Option String × World
    unfolding find_noul
    pointed_or_not call (none, w) = (some (C.to_text call.args), w)
    pointed_or_not call (some decided, w) =
        let pointed = get_or below_every_threshold (find_noul decided.answers pointed_at_id) in
        (
          if L.less pointed pointed_at_enough_to_dispatch then some (C.to_text call.args) else none,
          w,
        )

    unfoldable pub pointed_at_by : ToolCall → Option DecideRequest → World → Option String × World
    unfolding decided_once_more_on_error
    pointed_at_by call none w = (some (C.to_text call.args), w)
    pointed_at_by call (some request) w =
        pointed_or_not call (decided_once_more_on_error V J L request w)

    unfoldable pub not_pointed_at : Value → ToolCall → World → Option String × World
    unfolding question_in_state pointed_at_request
    not_pointed_at state call w =
        pointed_at_by call
          (pointed_at_request J S C L (question_in_state J S C state).question call.args) w

    -- The rest of `compose_tool_call` once the value was checked: asking for it, or looking it up.
    unfoldable pub asked_for_or_looked_up :
        LlmNodeConfig
        → Value
        → Material
        → ToolCall
        → Value
        → Value
        → IdempotencyKey
        → Option String × World
        → Result String Value × World
    unfolding clarify schema_of answered_with_the_lookup merge_usage
    asked_for_or_looked_up config state material call spent decide_usage key (some asked, w) = (
      ok (
          merge_usage J L decide_usage
            (merge_usage J L spent (clarify J S C L T (schema_of config call.name) null))),
      w,
    )
    asked_for_or_looked_up config state material call spent decide_usage key (none, w) =
        and_with J S C L T V (answered_with_the_lookup J S C L T V config state material call key w)
          (λ output w'. (ok (merge_usage J L decide_usage (merge_usage J L spent output)), w'))

    -- `filter(|call| in_catalog(config, call))`
    unfoldable pub known_call : LlmNodeConfig → Option ToolCall → Option ToolCall
    unfolding in_catalog
    known_call config none = none
    known_call config (some call) = if in_catalog config call then some call else none

    unfoldable pub with_composed :
        LlmNodeConfig
        → Value
        → Material
        → Option ToolCall
        → Value
        → Value
        → IdempotencyKey
        → World
        → Result String Value × World
    unfolding merge_usage not_pointed_at
    with_composed config state material none spent decide_usage key w = (
      ok (
          merge_usage J L decide_usage
            (merge_usage J L spent (plain_reply J S C L T compose_failure))),
      w,
    )
    with_composed config state material (some call) spent decide_usage key w =
        asked_for_or_looked_up config state material call spent decide_usage key
          (not_pointed_at state call w)

    unfoldable pub compose_tool_call :
        LlmNodeConfig
        → Value
        → Material
        → Value
        → IdempotencyKey
        → World
        → Result String Value × World
    unfolding composed composed_call
    compose_tool_call config state material decide_usage key w =
        and_with J S C L T V (composed config state material w) (λ spent w'.
          with_composed config state material (known_call config (composed_call J S C L T spent))
            spent decide_usage key w')
