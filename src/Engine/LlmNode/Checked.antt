-- ===== src/Engine/LlmNode/Checked.antt =====
-- services/engine/src/executors/llm.rs: asking a model, and checking its reply against the material
-- with the decider.
pub mod Vouched
pub mod Retries
pub mod Said
use ai_engineering_boilerpla.Base.{
  ℕ, zero, suc, ◌-◌, ◌*◌, ◌/◌, ◌+◌, max, String, Bool, true, false, not, ◌&&◌, Option, none, some,
  List, [], ◌∷◌, ◌++◌, ◌>>=◌, get_or, find, map, length, ltb, leb, ◌==◌, if◌then◌else◌,
}
use ai_engineering_boilerpla.Base.Results.{Result, ok, err}
use ai_engineering_boilerpla.Json.{
  Json, Value, null, string, array, object, end, of_list, as_str, value_get,
}
use ai_engineering_boilerpla.EngineCore.LlmOutput.{Serde}
use ai_engineering_boilerpla.Engine.ToolNode.{Client, text_of}
use ai_engineering_boilerpla.Engine.LlmNode.{
  Services, LlmSerde, CompleteRequest, CompleteResponse, SystemPart, previous_reply_refused,
  ungrounded_correction, promise_correction, DecideRequest, DecideResponse, Question, noul_of,
  Answer, Given, choice, noul, other, ChoiceAnswer,
}
use ai_engineering_boilerpla.Engine.LlmNode.Reply.{
  response_to_output, merge_usage, refused, decide_usage_value, reply_to_check, promise_refused,
  ungrounded_refused, unchecked_refused,
}
use ai_engineering_boilerpla.Engine.LlmNode.Material.{Material}
use ai_engineering_boilerpla.Engine.LlmNode.Ask.{promise_id, grounded_id, reply_check_request}

abbrev pub retry_attempts : ℕ
retry_attempts = 3

abbrev pub promise_enough_to_refuse : String
promise_enough_to_refuse = "0.5"

abbrev pub grounded_enough_to_send : String
grounded_enough_to_send = "0.5"

pub record Faults : Type 0 where
  pub promises : Bool
  pub ungrounded : Bool
  pub spent : Value

pub data Check : Type 0 where
  not_needed could_not_run : Check
  ran : Faults → Check

unfoldable pub sound : Faults → Bool
sound f = not f.promises && not f.ungrounded

unfoldable pub correction : Faults → String → List SystemPart
correction f rejected =
    previous_reply_refused rejected
    ∷ (if f.ungrounded then ungrounded_correction else promise_correction)
    ∷ []

unfoldable pub refusal : Faults → String
refusal f = if f.ungrounded then ungrounded_refused else promise_refused

abbrev pub as_noul : Option Given → Option String
as_noul (some (noul n)) = some n
as_noul given = none

abbrev pub as_choice : Option Given → Option ChoiceAnswer
as_choice (some (choice c)) = some c
as_choice given = none

unfoldable pub find_noul : List Answer → String → Option String
find_noul answers id = find (λ a. a.id == id) answers >>= λ a. as_noul a.answer

unfoldable pub find_choice : List Answer → String → Option ChoiceAnswer
find_choice answers id = find (λ a. a.id == id) answers >>= λ a. as_choice a.answer

-- `is_some_and`
abbrev pub some_and : Option String → (String → Bool) → Bool
some_and none p = false
some_and (some n) p = p n

module _ {World : Type 0} (V : Services World) (J : Json) (L : LlmSerde J) where
  -- What the loop makes of the answer to one call; `rest` is what it does when the call failed.
  unfoldable pub or_again :
      (World → Result String Value × World)
      → Result String CompleteResponse × World
      → Result String Value × World
  unfolding response_to_output
  or_again rest (ok response, w) = (ok (response_to_output J L response), w)
  or_again rest (err e, w) = rest w

  unfoldable pub or_fail : Result String CompleteResponse × World → Result String Value × World
  unfolding response_to_output
  or_fail (ok response, w) = (ok (response_to_output J L response), w)
  or_fail (err e, w) = (err e, w)

  -- One call, and up to `left` more while they fail; the error is that of the last.
  unfoldable pub complete_again : ℕ → CompleteRequest → World → Result String Value × World
  complete_again zero request w = or_fail (V.complete request w)
  complete_again (suc left) request w =
      or_again (complete_again left request) (V.complete request w)

  unfoldable pub complete_with_retries : CompleteRequest → World → Result String Value × World
  unfolding complete_again
  complete_with_retries request w = complete_again (retry_attempts - 1) request w

  abbrev pub answered_or_not : Result String DecideResponse × World → Option DecideResponse × World
  answered_or_not (ok decided, w) = (some decided, w)
  answered_or_not (err e, w) = (none, w)

  abbrev pub once_more :
      DecideRequest → Result String DecideResponse × World → Option DecideResponse × World
  once_more request (ok decided, w) = (some decided, w)
  once_more request (err e, w) = answered_or_not (V.decide request w)

  unfoldable pub decided_once_more_on_error : DecideRequest → World → Option DecideResponse × World
  decided_once_more_on_error request w = once_more request (V.decide request w)

  unfoldable pub faults_of : DecideResponse → Faults
  unfolding find_noul decide_usage_value
  faults_of decided = record {
    promises = some_and (find_noul decided.answers promise_id) (L.less promise_enough_to_refuse);
    ungrounded =
        some_and (find_noul decided.answers grounded_id) (λ v. L.less v grounded_enough_to_send);
    spent = decide_usage_value J L decided;
  }

  module _ (S : Serde) (C : Client) where
    abbrev pub checked_by : Option DecideResponse × World → Check × World
    checked_by (none, w) = (could_not_run, w)
    checked_by (some decided, w) = (ran (faults_of decided), w)

    unfoldable pub asked_about : Option DecideRequest → World → Check × World
    unfolding decided_once_more_on_error
    asked_about none w = (could_not_run, w)
    asked_about (some request) w = checked_by (decided_once_more_on_error request w)

    unfoldable pub check_reply : Material → Option String → World → Check × World
    unfolding asked_about reply_check_request
    check_reply material none w = (not_needed, w)
    check_reply material (some reply) w = asked_about (reply_check_request J S C L material reply) w

    unfoldable pub faults_in : Material → Value → World → Check × World
    unfolding check_reply reply_to_check
    faults_in material output w = check_reply material (reply_to_check J L output) w

    -- What is made of the check of a second reply.
    unfoldable pub second_reply_after : Check × World → Value → Value × World
    unfolding sound refused merge_usage refusal
    second_reply_after (not_needed, w) second = (second, w)
    second_reply_after (could_not_run, w) second = (refused J L second unchecked_refused, w)
    second_reply_after (ran again, w) second =
        let merged = merge_usage J L again.spent second in
        (if sound again then merged else refused J L merged (refusal again), w)

    unfoldable pub second_reply_checked_against : Material → Value → World → Value × World
    unfolding second_reply_after faults_in
    second_reply_checked_against material second w =
        second_reply_after (faults_in material second w) second

    unfoldable pub asked_again_with :
        CompleteRequest → Faults → Value → World → Result String Value × World
    unfolding correction complete_with_retries
    asked_again_with request faults rejected_in w =
        let rejected = text_of (value_get J rejected_in "reply" >>= as_str) in
        complete_with_retries
          (record request { system_prompt = request.system_prompt ++ correction faults rejected }) w

    unfoldable pub second_reply :
        Material → Faults → Value → Result String Value × World → Value × World
    unfolding refused refusal merge_usage second_reply_checked_against
    second_reply material faults output (err e, w) = (refused J L output (refusal faults), w)
    second_reply material faults output (ok second, w) =
        second_reply_checked_against material (merge_usage J L output second) w

    unfoldable pub unless_sound :
        CompleteRequest → Material → Faults → Bool → Value → World → Value × World
    unfolding asked_again_with second_reply
    unless_sound request material faults true merged w = (merged, w)
    unless_sound request material faults false merged w =
        second_reply material faults merged (asked_again_with request faults merged w)

    -- What is made of the check of the first reply.
    unfoldable pub first_reply_after :
        CompleteRequest → Material → Check × World → Value → Value × World
    unfolding refused merge_usage sound unless_sound
    first_reply_after request material (not_needed, w) output = (output, w)
    first_reply_after request material (could_not_run, w) output =
        (refused J L output unchecked_refused, w)
    first_reply_after request material (ran faults, w) output =
        unless_sound request material faults (sound faults) (merge_usage J L faults.spent output) w

    unfoldable pub checked_against : CompleteRequest → Material → Value → World → Value × World
    unfolding first_reply_after faults_in
    checked_against request material output w =
        first_reply_after request material (faults_in material output w) output
