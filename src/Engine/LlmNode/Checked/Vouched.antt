-- ===== src/Engine/LlmNode/Checked/Vouched.antt =====
-- No reply leaves the check of an llm node unread: it is a tool call, a refusal, or a reply that the
-- decider found sound (services/engine/src/executors/llm.rs).
use ai_engineering_boilerpla.Base.{
  String, ◌≡◌, refl, sym, ◌∙◌, ap, Bool, true, false, Option, none, some, ◌⊎◌, inl, inr, Bool-cases,
  arith,
}
use ai_engineering_boilerpla.Base.Results.{Result, ok, err}
use ai_engineering_boilerpla.Json.{
  Json, Value, null, bool, number, string, array, object, value_get,
}
use ai_engineering_boilerpla.EngineCore.LlmOutput.{Serde}
use ai_engineering_boilerpla.Engine.ToolNode.{Client}
use ai_engineering_boilerpla.Engine.LlmNode.{
  Services, LlmSerde, CompleteRequest, DecideRequest, DecideResponse,
}
use ai_engineering_boilerpla.Engine.LlmNode.Reply.{
  merge_usage, refused, reply_to_check, promise_refused, ungrounded_refused, unchecked_refused,
}
use ai_engineering_boilerpla.Engine.LlmNode.Material.{Material}
use ai_engineering_boilerpla.Engine.LlmNode.Ask.{promise_id, grounded_id, reply_check_request}
use ai_engineering_boilerpla.Engine.LlmNode.Checked.{
  Check, not_needed, could_not_run, ran, Faults, sound, refusal, some_and, find_noul,
  promise_enough_to_refuse, grounded_enough_to_send, decided_once_more_on_error, faults_of,
  checked_by, check_reply, faults_in, second_reply_after, second_reply_checked_against,
  second_reply, unless_sound, first_reply_after, checked_against, once_more, asked_about,
}

pub Result-cases :
    {E A : Type 0} (r : Result E A) → ((e : E) × (r ≡ err e)) ⊎ ((a : A) × (r ≡ ok a))
Result-cases (err e) = inl (e, refl)
Result-cases (ok a) = inr (a, refl)

sound-both : (f : Faults) → sound f ≡ true → (f.promises ≡ false) × (f.ungrounded ≡ false)
unfolding sound
sound-both f h = (ground (arith, h), ground (arith, h))

module _ (J : Json) (L : LlmSerde J) where
  pub merge_usage-reply :
      (first output : Value)
      → reply_to_check J L (merge_usage J L first output) ≡ reply_to_check J L output
  unfolding reply_to_check merge_usage
  merge_usage-reply first null = refl
  merge_usage-reply first (bool b) = refl
  merge_usage-reply first (number n) = refl
  merge_usage-reply first (string s) = refl
  merge_usage-reply first (array xs) = refl
  merge_usage-reply first (object m) =
      rw (J.get-insert m "usage" "reply" _) (rw (J.get-insert m "usage" "tool_call" _) refl)

  -- The reply is one of the texts with which the agent refuses.
  abbrev pub IsRefusal : Value → Type 0
  IsRefusal output =
      (value_get J output "reply" ≡ some (string promise_refused))
      ⊎ (value_get J output "reply" ≡ some (string ungrounded_refused))

  refused-reply :
      (output : Value) (reply : String)
      → (reply_to_check J L (refused J L output reply) ≡ none)
        ⊎ (value_get J (refused J L output reply) "reply" ≡ some (string reply))
  unfolding refused reply_to_check
  refused-reply null reply = inl refl
  refused-reply (bool b) reply = inl refl
  refused-reply (number n) reply = inl refl
  refused-reply (string s) reply = inl refl
  refused-reply (array xs) reply = inl refl
  refused-reply (object m) reply = inr (J.get-insert m "reply" "reply" (string reply))

  module _ {World : Type 0} (V : Services World) (S : Serde) (C : Client) where
    -- The decider was asked about this reply and the material, and answered neither that it
    -- promises nor that it is ungrounded.
    abbrev pub Judged : Material → String → Type 0
    Judged material reply =
        (request : DecideRequest) × (decided : DecideResponse) × (before after : World)
        × (reply_check_request J S C L material reply ≡ some request)
        × (V.decide request before ≡ (ok decided, after))
        × (some_and (find_noul decided.answers promise_id) (L.less promise_enough_to_refuse)
            ≡ false)
        × (some_and (find_noul decided.answers grounded_id) (λ v. L.less v grounded_enough_to_send)
            ≡ false)

    abbrev pub Sent : Material → Value → Type 0
    Sent material output =
        (reply_to_check J L output ≡ none)
        ⊎ IsRefusal output
        ⊎ ((reply : String) × (reply_to_check J L output ≡ some reply) × Judged material reply)

    -- What a check that ended says of the reply that it was made of.
    abbrev Told : Material → Option String → Check → Type 0
    Told material o not_needed = o ≡ none
    Told material o could_not_run = Unit
    Told material o (ran f) =
        (reply : String) × (request : DecideRequest) × (decided : DecideResponse) × (before
          after : World)
        × (o ≡ some reply)
        × (reply_check_request J S C L material reply ≡ some request)
        × (V.decide request before ≡ (ok decided, after))
        × (f ≡ faults_of V J L decided)

    abbrev Answered : DecideRequest → Option DecideResponse → Type 0
    Answered request none = Unit
    Answered request (some decided) =
        (before after : World) × (V.decide request before ≡ (ok decided, after))

    asked_twice :
        (request : DecideRequest) (w : World) (p q : Result String DecideResponse × World)
        → V.decide request w ≡ p
        → V.decide request p.1 ≡ q
        → Answered request (once_more V J L request p).0
    asked_twice request w (ok d, u) q e f = (w, u, e)
    asked_twice request w (err x, u) (ok d, v) e f = rw f (u, v, f)
    asked_twice request w (err x, u) (err y, v) e f = rw f tt

    checked_by-Told :
        (material : Material) (reply : String) (request : DecideRequest)
        → reply_check_request J S C L material reply ≡ some request
        → (p : Option DecideResponse × World) → Answered request p.0
        → Told material (some reply) (checked_by V J L S C p).0
    checked_by-Told material reply request e (none, w) h = tt
    checked_by-Told material reply request e (some d, w) (before, after, h) =
        (reply, request, d, before, after, refl, e, h, refl)

    asked_about-Told :
        (material : Material) (reply : String) (q : Option DecideRequest) (w : World)
        → reply_check_request J S C L material reply ≡ q
        → Told material (some reply) (asked_about V J L S C q w).0
    unfolding asked_about decided_once_more_on_error
    asked_about-Told material reply none w e = tt
    asked_about-Told material reply (some request) w e =
        checked_by-Told material reply request e (once_more V J L request (V.decide request w))
          (asked_twice request w (V.decide request w) _ refl refl)

    check_reply-Told :
        (material : Material) (o : Option String) (w : World)
        → Told material o (check_reply V J L S C material o w).0
    unfolding check_reply
    check_reply-Told material none w = refl
    check_reply-Told material (some reply) w = asked_about-Told material reply _ w refl

    -- A sound check vouches for what it was made of.
    sound-Sent :
        (material : Material) (output : Value) (f : Faults)
        → Told material (reply_to_check J L output) (ran f)
        → sound f ≡ true
        → Sent material (merge_usage J L f.spent output)
    unfolding sound faults_of
    sound-Sent material output f (reply, request, decided, before, after, e, asked, given, g) h =
        inr (
          inr (
            reply,
            merge_usage-reply f.spent output ∙ e,
            (
              request,
              decided,
              before,
              after,
              asked,
              given,
              sym (ap (λ t. t.promises) g) ∙ (sound-both f h).0,
              sym (ap (λ t. t.ungrounded) g) ∙ (sound-both f h).1,
            ),
          ))

    unchecked-Sent :
        (material : Material) (output : Value)
        → Sent material (refused J L output unchecked_refused)
    unchecked-Sent material output = elim (refused-reply output unchecked_refused) [
      | inl n ↦ inl n
      | inr e ↦ inr (inl (inl e))
    ]

    refused-Sent :
        (material : Material) (output : Value) (f : Faults)
        → Sent material (refused J L output (refusal f))
    unfolding refusal
    refused-Sent material output f = elim (Bool-cases f.ungrounded) [
      | inl t ↦ rw t (elim (refused-reply output ungrounded_refused) [
        | inl n ↦ inl n
        | inr e ↦ inr (inl (inr e))
      ])
      | inr t ↦ rw t (unchecked-Sent material output)
    ]

    second_reply_after-Sent :
        (material : Material) (second : Value) (p : Check × World)
        → Told material (reply_to_check J L second) p.0
        → Sent material (second_reply_after V J L S C p second).0
    unfolding second_reply_after
    second_reply_after-Sent material second (not_needed, w) h = inl h
    second_reply_after-Sent material second (could_not_run, w) h = unchecked-Sent material second
    second_reply_after-Sent material second (ran f, w) h = elim (Bool-cases (sound f)) [
      | inl t ↦ rw t (sound-Sent material second f h t)
      | inr t ↦ rw t (refused-Sent material (merge_usage J L f.spent second) f)
    ]

    second_reply-Sent :
        (material : Material) (f : Faults) (output : Value) (p : Result String Value × World)
        → Sent material (second_reply V J L S C material f output p).0
    unfolding second_reply second_reply_checked_against faults_in
    second_reply-Sent material f output (err e, w) = refused-Sent material output f
    second_reply-Sent material f output (ok second, w) =
        let merged = merge_usage J L output second in
        second_reply_after-Sent material merged _
          (check_reply-Told material (reply_to_check J L merged) w)

    unless_sound-Sent :
        (request : CompleteRequest) (material : Material) (f : Faults) (output : Value) (w : World)
        → Told material (reply_to_check J L output) (ran f)
        → (t : Bool) → sound f ≡ t
        → Sent material
            (unless_sound V J L S C request material f t (merge_usage J L f.spent output) w).0
    unfolding unless_sound
    unless_sound-Sent request material f output w h true e = sound-Sent material output f h e
    unless_sound-Sent request material f output w h false e = second_reply-Sent material f _ _

    first_reply_after-Sent :
        (request : CompleteRequest) (material : Material) (output : Value) (p : Check × World)
        → Told material (reply_to_check J L output) p.0
        → Sent material (first_reply_after V J L S C request material p output).0
    unfolding first_reply_after
    first_reply_after-Sent request material output (not_needed, w) h = inl h
    first_reply_after-Sent request material output (could_not_run, w) h =
        unchecked-Sent material output
    first_reply_after-Sent request material output (ran f, w) h =
        unless_sound-Sent request material f output w h (sound f) refl

    -- Whatever the model and the decider answer, what an llm node returns for an output of the model
    -- has no reply to check (there is none, or there is a tool call), refuses in the agent's own
    -- words, or has a reply that the decider was asked about together with the material shown, and
    -- found neither promising nor ungrounded.
    pub checked_against-Sent :
        (request : CompleteRequest) (material : Material) (output : Value) (w : World)
        → Sent material (checked_against V J L S C request material output w).0
    unfolding checked_against faults_in
    checked_against-Sent request material output w =
        first_reply_after-Sent request material output _
          (check_reply-Told material (reply_to_check J L output) w)
