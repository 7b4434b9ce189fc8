-- ===== src/Engine/LlmNode/Checked/Said.antt =====
-- Which output of the model a checked output was made of (services/engine/src/executors/llm.rs).
use mathlib.Core.List.{append-nil}
use ai_engineering_boilerpla.Base.{
  String, ◌≡◌, refl, sym, ◌∙◌, ap, Bool, true, false, none, some, List, [], ◌++◌, ◌⊎◌, inl, inr,
  Bool-cases,
}
use ai_engineering_boilerpla.Base.Results.{Result, ok, err}
use ai_engineering_boilerpla.Json.{
  Json, Value, null, bool, number, string, array, object, value_get,
}
use ai_engineering_boilerpla.EngineCore.LlmOutput.{Serde}
use ai_engineering_boilerpla.Engine.ToolNode.{Client}
use ai_engineering_boilerpla.Engine.LlmNode.{Services, LlmSerde, CompleteRequest, SystemPart}
use ai_engineering_boilerpla.Engine.LlmNode.Reply.{
  merge_usage, refused, ungrounded_refused, unchecked_refused,
}
use ai_engineering_boilerpla.Engine.LlmNode.Material.{Material}
use ai_engineering_boilerpla.Engine.LlmNode.Checked.{
  Check, not_needed, could_not_run, ran, Faults, sound, refusal, complete_with_retries, faults_in,
  second_reply_after, second_reply_checked_against, asked_again_with, second_reply, unless_sound,
  first_reply_after, checked_against,
}
use ai_engineering_boilerpla.Engine.LlmNode.Checked.Vouched.{IsRefusal}

-- The request with more parts of its system prompt.
abbrev pub asking_more : CompleteRequest → List SystemPart → CompleteRequest
asking_more request parts = record request { system_prompt = request.system_prompt ++ parts }

module _ {World : Type 0} (V : Services World) (J : Json) (L : LlmSerde J) where
  -- Two outputs with the same reply and the same tool call.
  abbrev pub SaysSame : Value → Value → Type 0
  SaysSame output v =
      (value_get J output "reply" ≡ value_get J v "reply")
      × (value_get J output "tool_call" ≡ value_get J v "tool_call")

  -- The model was asked this, or this with a correction, and gave this reply and this tool call.
  abbrev pub Said : CompleteRequest → Value → Type 0
  Said request v =
      (parts : List SystemPart) × (asked given : World) × (output : Value) × (complete_with_retries
          V J L (asking_more request parts) asked
        ≡ (ok output, given))
      × SaysSame output v

  -- An output of the model, one of the agent's refusals, or nothing with a reply.
  abbrev pub Traced : CompleteRequest → Value → Type 0
  Traced request v = Said request v ⊎ IsRefusal J L v ⊎ (value_get J v "reply" ≡ none)

  Said-same :
      (request : CompleteRequest) (v u : Value) → Said request v → SaysSame v u → Said request u
  Said-same request v u (parts, asked, given, output, e, (a, b)) (c, d) =
      (parts, asked, given, output, e, (a ∙ c, b ∙ d))

  merge_usage-SaysSame : (first v : Value) → SaysSame v (merge_usage J L first v)
  unfolding merge_usage
  merge_usage-SaysSame first null = (refl, refl)
  merge_usage-SaysSame first (bool b) = (refl, refl)
  merge_usage-SaysSame first (number n) = (refl, refl)
  merge_usage-SaysSame first (string s) = (refl, refl)
  merge_usage-SaysSame first (array xs) = (refl, refl)
  merge_usage-SaysSame first (object m) =
      (sym (J.get-insert m "usage" "reply" _), sym (J.get-insert m "usage" "tool_call" _))

  refused-text :
      (v : Value) (text : String)
      → (value_get J (refused J L v text) "reply" ≡ some (string text))
        ⊎ (value_get J (refused J L v text) "reply" ≡ none)
  unfolding refused
  refused-text null text = inr refl
  refused-text (bool b) text = inr refl
  refused-text (number n) text = inr refl
  refused-text (string s) text = inr refl
  refused-text (array xs) text = inr refl
  refused-text (object m) text = inl (J.get-insert m "reply" "reply" (string text))

  unchecked-Traced :
      (request : CompleteRequest) (v : Value) → Traced request (refused J L v unchecked_refused)
  unchecked-Traced request v = elim (refused-text v unchecked_refused) [
    | inl e ↦ inr (inl (inl e))
    | inr n ↦ inr (inr n)
  ]

  refused-Traced :
      (request : CompleteRequest) (v : Value) (f : Faults)
      → Traced request (refused J L v (refusal f))
  unfolding refusal
  refused-Traced request v f = elim (Bool-cases f.ungrounded) [
    | inl t ↦ rw t (elim (refused-text v ungrounded_refused) [
      | inl e ↦ inr (inl (inr e))
      | inr n ↦ inr (inr n)
    ])
    | inr t ↦ rw t (unchecked-Traced request v)
  ]

  module _ (S : Serde) (C : Client) where
    second_reply_after-Traced :
        (request : CompleteRequest) (p : Check × World) (second : Value)
        → Said request second
        → Traced request (second_reply_after V J L S C p second).0
    unfolding second_reply_after
    second_reply_after-Traced request (not_needed, w) second h = inl h
    second_reply_after-Traced request (could_not_run, w) second h = unchecked-Traced request second
    second_reply_after-Traced request (ran f, w) second h = elim (Bool-cases (sound f)) [
      | inl t ↦ rw t (inl (Said-same request second _ h (merge_usage-SaysSame f.spent second)))
      | inr t ↦ rw t (refused-Traced request _ f)
    ]

    second_reply-Traced :
        (request : CompleteRequest) (parts : List SystemPart) (material : Material) (f : Faults)
        → (output : Value) (w : World) (p : Result String Value × World)
        → complete_with_retries V J L (asking_more request parts) w ≡ p
        → Traced request (second_reply V J L S C material f output p).0
    unfolding second_reply second_reply_checked_against
    second_reply-Traced request parts material f output w (err e, u) h =
        refused-Traced request output f
    second_reply-Traced request parts material f output w (ok second, u) h =
        second_reply_after-Traced request _ _
          (parts, w, u, second, h, merge_usage-SaysSame output second)

    unless_sound-Traced :
        (request : CompleteRequest) (material : Material) (f : Faults) (b : Bool) (merged : Value)
        → (w : World) → Said request merged
        → Traced request (unless_sound V J L S C request material f b merged w).0
    unfolding unless_sound asked_again_with
    unless_sound-Traced request material f true merged w h = inl h
    unless_sound-Traced request material f false merged w h =
        second_reply-Traced request _ material f merged w _ refl

    first_reply_after-Traced :
        (request : CompleteRequest) (material : Material) (p : Check × World) (output : Value)
        → Said request output
        → Traced request (first_reply_after V J L S C request material p output).0
    unfolding first_reply_after
    first_reply_after-Traced request material (not_needed, w) output h = inl h
    first_reply_after-Traced request material (could_not_run, w) output h =
        unchecked-Traced request output
    first_reply_after-Traced request material (ran f, w) output h =
        unless_sound-Traced request material f (sound f) _ w
          (Said-same request output _ h (merge_usage-SaysSame f.spent output))

    -- What is returned for an output of the model has the reply and the tool call that the model gave
    -- to this request or to this with a correction, or refuses in the agent's words, or has no reply.
    pub checked_against-Traced :
        (request : CompleteRequest) (material : Material) (output : Value) (asked w : World)
        → complete_with_retries V J L request asked ≡ (ok output, w)
        → Traced request (checked_against V J L S C request material output w).0
    unfolding checked_against
    checked_against-Traced request material output asked w h =
        first_reply_after-Traced request material (faults_in V J L S C material output w) output (
          [],
          asked,
          w,
          output,
          ap
                (λ (parts : List SystemPart).
                  complete_with_retries V J L (record request { system_prompt = parts }) asked)
                (append-nil request.system_prompt)
              ∙ h,
          (refl, refl),
        )
