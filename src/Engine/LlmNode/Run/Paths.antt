-- ===== src/Engine/LlmNode/Run/Paths.antt =====
-- services/engine/src/executors/llm.rs: the ways in which an llm node comes to its output.
use ai_engineering_boilerpla.Base.{
  String, Bool, true, false, not, ◌||◌, Option, none, some, List, [], ◌∷◌, if◌then◌else◌,
}
use ai_engineering_boilerpla.Base.Results.{Result, ok, err}
use ai_engineering_boilerpla.Json.{Json, Value, null}
use ai_engineering_boilerpla.EngineCore.LlmOutput.{Serde, ToolRecord}
use ai_engineering_boilerpla.Engine.Nodes.{IdempotencyKey}
use ai_engineering_boilerpla.Engine.ToolNode.{Client, question_in_state}
use ai_engineering_boilerpla.Engine.LlmNode.{
  Services, LlmSerde, loop, from_material, LlmNodeConfig, DecideRequest, DecideResponse,
}
use ai_engineering_boilerpla.Engine.LlmNode.Reply.{merge_usage, without_tool_call}
use ai_engineering_boilerpla.Engine.LlmNode.Material.{
  Material, material_of, only_what_was_carried_and_is_still_fresh, rendered_carried,
}
use ai_engineering_boilerpla.Engine.LlmNode.Prompt.{complete_request_for}
use ai_engineering_boilerpla.Engine.LlmNode.Spans.{Words}
use ai_engineering_boilerpla.Engine.LlmNode.Questions.{decide_request}
use ai_engineering_boilerpla.Engine.LlmNode.Choice.{
  FastPath, fast_tool_call, fast_compose, fast_material, fast_decline, path_for,
}
use ai_engineering_boilerpla.Engine.LlmNode.Run.{
  decline, parse_config, and_with, completed_and_checked, run_fast_tool_call,
}
use ai_engineering_boilerpla.Engine.LlmNode.Run.Compose.{compose_tool_call}

module _ (J : Json) (S : Serde) (C : Client) (L : LlmSerde J) (T : Words) where
  module _ {World : Type 0} (V : Services World) where
    unfoldable pub from_carried :
        LlmNodeConfig → Value → Material → Value → World → Result String Value × World
    unfolding complete_request_for completed_and_checked without_tool_call merge_usage
    from_carried config state material decide_usage w =
        and_with J S C L T V
          (completed_and_checked J S C L T V
            (complete_request_for J S C config state from_material material) material w)
          (λ output w'. (ok (merge_usage J L decide_usage (without_tool_call J L output)), w'))

    unfoldable pub unless_stale :
        LlmNodeConfig
        → Value
        → List ToolRecord
        → Material
        → Value
        → World
        → Result String Value × World
    unfolding decline
    unless_stale config state [] material decide_usage w =
        (ok (decline J S C L T config decide_usage), w)
    unless_stale config state (r ∷ rs) material decide_usage w =
        from_carried config state material decide_usage w

    unfoldable pub answer_from_material :
        LlmNodeConfig → Value → Material → Value → World → Result String Value × World
    unfolding only_what_was_carried_and_is_still_fresh
    answer_from_material config state material decide_usage w =
        let fresh = only_what_was_carried_and_is_still_fresh J S L material (V.clock w) in
        unless_stale config state fresh.carried fresh decide_usage w

    unfoldable pub path_of :
        LlmNodeConfig → String → Result String DecideResponse × World → FastPath × World
    unfolding path_for
    path_of config question (ok decided, w) =
        (path_for J C L T decided config.available_tools question, w)
    path_of config question (err e, w) = (fast_decline null, w)

    abbrev pub decided_path :
        LlmNodeConfig → String → Option DecideRequest → World → FastPath × World
    decided_path config question none w = (fast_decline null, w)
    decided_path config question (some request) w = path_of config question (V.decide request w)

    unfoldable pub decide_fast_path :
        LlmNodeConfig → String → Option String → World → FastPath × World
    unfolding decide_request
    decide_fast_path config question rendered_prior w =
        decided_path config question
          (decide_request J C L S T question config.available_tools rendered_prior) w

    unfoldable pub taking :
        LlmNodeConfig
        → Value
        → Material
        → IdempotencyKey
        → FastPath × World
        → Result String Value × World
    unfolding run_fast_tool_call compose_tool_call answer_from_material decline
    taking config state material key (fast_tool_call call usage, w) =
        run_fast_tool_call J S C L T V config state material call usage key w
    taking config state material key (fast_compose tool usage, w) =
        compose_tool_call J S C L T V config state material usage key w
    taking config state material key (fast_material usage, w) =
        answer_from_material config state material usage w
    taking config state material key (fast_decline usage, w) =
        (ok (decline J S C L T config usage), w)

    abbrev pub has_fetched : Material → Bool
    has_fetched m = elim m.fetched [ [] ↦ false | r ∷ rs ↦ true ]

    unfoldable pub try_fast_path :
        LlmNodeConfig
        → Value
        → Material
        → IdempotencyKey
        → World
        → Option (Result String Value × World)
    unfolding question_in_state rendered_carried decide_fast_path
    try_fast_path config state material key w =
        if not config.tool_calling || has_fetched material
        then none
        else some (
            taking config state material key (
              decide_fast_path config (question_in_state J S C state).question
                (rendered_carried J S C material) w))

    unfoldable pub unless_fast :
        LlmNodeConfig
        → Value
        → Material
        → Option (Result String Value × World)
        → World
        → Result String Value × World
    unfolding complete_request_for completed_and_checked
    unless_fast config state material (some fast_result) w = fast_result
    unless_fast config state material none w =
        completed_and_checked J S C L T V (complete_request_for J S C config state loop material)
          material w

    unfoldable pub configured :
        Result String LlmNodeConfig → Value → IdempotencyKey → World → Result String Value × World
    unfolding try_fast_path material_of
    configured (err e) state key w = (err e, w)
    configured (ok config) state key w =
        let material = material_of J S state in
        unless_fast config state material (try_fast_path config state material key w) w

    -- `LlmTaskExecutor::execute`
    unfoldable pub run_llm_node :
        Value → Value → IdempotencyKey → World → Result String Value × World
    unfolding parse_config
    run_llm_node config state key w = configured (parse_config J S C L T config) state key w
