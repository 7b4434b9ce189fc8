-- ===== src/Engine/LlmNode/Run/Unchecked.antt =====
-- The reply from earlier material that is sent without a check
-- (services/engine/src/executors/llm.rs).
use ai_engineering_boilerpla.Base.{String, ◌≡◌, refl, ◌∙◌, ap, false, some, none, List, ◌∷◌}
use ai_engineering_boilerpla.Base.Results.{Result, ok}
use ai_engineering_boilerpla.Json.{Json, Value, Fields, null, string, object}
use ai_engineering_boilerpla.EngineCore.LlmOutput.{Serde, ToolRecord}
use ai_engineering_boilerpla.Engine.ToolNode.{Client}
use ai_engineering_boilerpla.Engine.LlmNode.{
  Services, LlmSerde, from_material, LlmNodeConfig, CompleteRequest,
}
use ai_engineering_boilerpla.Engine.LlmNode.Reply.{
  merge_usage, without_tool_call, checkable, reply_to_check, no_call, is_empty,
}
use ai_engineering_boilerpla.Engine.LlmNode.Material.{
  Material, only_what_was_carried_and_is_still_fresh,
}
use ai_engineering_boilerpla.Engine.LlmNode.Prompt.{complete_request_for}
use ai_engineering_boilerpla.Engine.LlmNode.Spans.{Words}
use ai_engineering_boilerpla.Engine.LlmNode.Checked.{
  complete_with_retries, checked_against, faults_in, check_reply, first_reply_after,
}
use ai_engineering_boilerpla.Engine.LlmNode.Checked.Vouched.{merge_usage-reply}
use ai_engineering_boilerpla.Engine.LlmNode.Run.{completed_and_checked, and_with, done}
use ai_engineering_boilerpla.Engine.LlmNode.Run.Paths.{
  answer_from_material, unless_stale, from_carried,
}

module _ (J : Json) (S : Serde) (C : Client) (L : LlmSerde J) (T : Words) where
  -- An output with a reply and a tool call, of which nothing is checked.
  abbrev pub SaysAndCalls : Fields → String → Type 0
  SaysAndCalls m reply =
      (J.get m "reply" ≡ some (string reply))
      × (is_empty reply ≡ false)
      × (no_call (J.get m "tool_call") ≡ false)

  called-unchecked :
      (m : Fields) (reply : String) → SaysAndCalls m reply → reply_to_check J L (object m) ≡ none
  unfolding reply_to_check checkable
  called-unchecked m reply (e, f, g) = rw e (rw f (rw g refl))

  struck-reply :
      (m : Fields) (reply : String)
      → SaysAndCalls m reply
      → reply_to_check J L (without_tool_call J L (object m)) ≡ some reply
  unfolding reply_to_check checkable without_tool_call
  struck-reply m reply (e, f, g) =
      rw (J.get-insert m "tool_call" "reply" null)
        (rw e (rw (J.get-insert m "tool_call" "tool_call" null) (rw f refl)))

  module _ {World : Type 0} (V : Services World) where
    checked_against-called :
        (request : CompleteRequest) (material : Material) (m : Fields) (reply : String) (w : World)
        → SaysAndCalls m reply
        → checked_against V J L S C request material (object m) w ≡ (object m, w)
    unfolding checked_against faults_in first_reply_after check_reply
    checked_against-called request material m reply w h = rw (called-unchecked m reply h) refl

    -- Where the material is fresh and the model answers with a reply and a tool call at once, the
    -- call is struck out and the reply is the node's, though the decider was not asked about it: the
    -- world is the one that the call of the model left.
    pub answer_from_material-unchecked :
        (config : LlmNodeConfig) (state : Value) (material : Material) (usage : Value)
        → (w w' : World) (r : ToolRecord) (rs : List ToolRecord) (m : Fields) (reply : String)
        → (only_what_was_carried_and_is_still_fresh J S L material (V.clock w)).carried ≡ r ∷ rs
        → complete_with_retries V J L
            (complete_request_for J S C config state from_material
              (only_what_was_carried_and_is_still_fresh J S L material (V.clock w)))
            w
          ≡ (ok (object m), w')
        → SaysAndCalls m reply
        → (v : Value) × (answer_from_material J S C L T V config state material usage w
            ≡ (ok v, w'))
          × (reply_to_check J L v ≡ some reply)
    unfolding answer_from_material completed_and_checked unless_stale from_carried
    answer_from_material-unchecked config state material usage w w' r rs m reply fresh e h =
        let fresh_material = only_what_was_carried_and_is_still_fresh J S L material (V.clock w) in
        let request = complete_request_for J S C config state from_material fresh_material in
        (
          merge_usage J L usage (without_tool_call J L (object m)),
          ap
                (λ (cs : List ToolRecord).
                  unless_stale J S C L T V config state cs fresh_material usage w)
                fresh
              ∙ ap
                  (λ (p : Result String Value × World).
                    and_with J S C L T V
                      (and_with J S C L T V p (λ output u.
                        done J S C L T V
                          (checked_against V J L S C request fresh_material output u)))
                      (λ output u. (ok (merge_usage J L usage (without_tool_call J L output)), u)))
                  e
              ∙ ap
                  (λ (p : Value × World).
                    and_with J S C L T V (done J S C L T V p)
                      (λ output u. (ok (merge_usage J L usage (without_tool_call J L output)), u)))
                  (checked_against-called request fresh_material m reply w' h),
          merge_usage-reply J L usage (without_tool_call J L (object m)) ∙ struck-reply m reply h,
        )
