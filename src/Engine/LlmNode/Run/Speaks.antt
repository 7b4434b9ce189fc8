-- ===== src/Engine/LlmNode/Run/Speaks.antt =====
-- What is said of the reply of an output, and what keeps it (services/engine/src/executors/llm.rs).
use Prim.Native.String.{◌++◌}
use ai_engineering_boilerpla.Base.{
  ℕ, String, ◌≡◌, refl, sym, ◌∙◌, ap, subst, true, false, not, ◌&&◌, Option, some, none, List,
  ◌>>=◌, ◌⊎◌, Bool-cases, inl, inr, arith, of_some_eq, >>=-eq-some,
}
use ai_engineering_boilerpla.Base.Results.{ok}
use ai_engineering_boilerpla.Json.{
  Json, Value, null, bool, number, string, array, object, end, as_str, value_get,
}
use ai_engineering_boilerpla.EngineCore.LlmOutput.{Serde, ToolRecord, fast_tool_call_field}
use ai_engineering_boilerpla.Engine.ToolNode.{Client}
use ai_engineering_boilerpla.Engine.LlmNode.{
  Services, LlmSerde, LlmNodeConfig, SystemPart, from_material,
}
use ai_engineering_boilerpla.Engine.LlmNode.Reply.{
  merge_usage, without_tool_call, attach_fast_tool_call, checkable, reply_to_check, no_call,
  is_empty, promise_refused, ungrounded_refused, compose_failure,
}
use ai_engineering_boilerpla.Engine.LlmNode.Material.{
  Material, material_of, with_lookup, only_what_was_carried_and_is_still_fresh,
}
use ai_engineering_boilerpla.Engine.LlmNode.Prompt.{complete_request_for}
use ai_engineering_boilerpla.Engine.LlmNode.Checked.{complete_with_retries}
use ai_engineering_boilerpla.Engine.LlmNode.Checked.Said.{Traced, asking_more}
use ai_engineering_boilerpla.Engine.LlmNode.Spans.{Words}
use ai_engineering_boilerpla.Engine.LlmNode.Checked.Vouched.{Judged, Sent, merge_usage-reply}
use ai_engineering_boilerpla.Engine.LlmNode.Run.{declining, clarify_opening, plain_reply}

string_inj : {a b : String} → string a ≡ string b → a ≡ b
string_inj p = cc

module _ (J : Json) (S : Serde) (C : Client) (L : LlmSerde J) (T : Words) where
  -- The texts that the agent says of itself.
  abbrev pub IsOwn : String → Type 0
  IsOwn reply =
      (reply ≡ promise_refused)
      ⊎ (reply ≡ ungrounded_refused)
      ⊎ (reply ≡ compose_failure)
      ⊎ ((names : List String) × (reply ≡ declining names))
      ⊎ ((wanted : String) × (reply ≡ clarify_opening ++ wanted ++ "."))

  checkable-text :
      (o : Option String) (c : Option Value) (reply : String)
      → checkable o c ≡ some reply
      → o ≡ some reply
  unfolding checkable
  checkable-text none c reply h = cc
  checkable-text (some t) c reply h = elim (Bool-cases (not (is_empty t) && no_call c)) [
    | inl b ↦ ground (arith, b, h)
    | inr b ↦ ground (arith, b, h)
  ]

  string-text : (v : Value) (t : String) → as_str v ≡ some t → v ≡ string t
  string-text (string s) t h = ap string (of_some_eq h)
  string-text null t h = cc
  string-text (bool b) t h = cc
  string-text (number n) t h = cc
  string-text (array xs) t h = cc
  string-text (object m) t h = cc

  -- A reply to check is the text under `reply`.
  reply-text :
      (v : Value) (reply : String)
      → reply_to_check J L v ≡ some reply
      → value_get J v "reply" ≡ some (string reply)
  unfolding reply_to_check
  reply-text v reply h =
      let (u, e, f) =
        >>=-eq-some (value_get J v "reply") as_str
          (checkable-text (value_get J v "reply" >>= as_str) (value_get J v "tool_call") reply h) in
      e ∙ ap some (string-text u reply f)

  struck_text : (v : Value) → value_get J (without_tool_call J L v) "reply" ≡ value_get J v "reply"
  unfolding without_tool_call
  struck_text null = refl
  struck_text (bool b) = refl
  struck_text (number n) = refl
  struck_text (string s) = refl
  struck_text (array xs) = refl
  struck_text (object m) = J.get-insert m "tool_call" "reply" null

  kept_text :
      (v : Value) (reply : String)
      → reply_to_check J L (without_tool_call J L v) ≡ some reply
      → value_get J v "reply" ≡ some (string reply)
  kept_text v reply h = sym (struck_text v) ∙ reply-text (without_tool_call J L v) reply h

  uncalled :
      (o : Option String) (c d : Option Value) (reply : String)
      → no_call d ≡ true
      → checkable o c ≡ some reply
      → checkable o d ≡ some reply
  unfolding checkable
  uncalled none c d reply t h = cc
  uncalled (some r) c d reply t h = ground (arith, t, h)

  kept_reply :
      (v : Value) (reply : String)
      → no_call (value_get J v "tool_call") ≡ true
      → reply_to_check J L (without_tool_call J L v) ≡ some reply
      → reply_to_check J L v ≡ some reply
  unfolding reply_to_check
  kept_reply v reply t h =
      uncalled (value_get J v "reply" >>= as_str)
        (value_get J (without_tool_call J L v) "tool_call") (value_get J v "tool_call") reply t
        (ap
            (λ (o : Option Value).
              checkable (o >>= as_str) (value_get J (without_tool_call J L v) "tool_call"))
            (sym (struck_text v))
          ∙ h)

  module _ {World : Type 0} (V : Services World) (config : LlmNodeConfig) (state : Value) where
    -- What was carried over into the state and was still fresh at some time.
    abbrev pub IsFresh : Material → Type 0
    IsFresh m =
        (now : ℕ) × (m ≡ only_what_was_carried_and_is_still_fresh J S L (material_of J S state) now)

    -- What an answer of this node is checked against: what the state holds, that with the record of a
    -- lookup, or what is fresh of it.
    abbrev pub IsMaterial : Material → Type 0
    IsMaterial m =
        (m ≡ material_of J S state)
        ⊎ ((r : ToolRecord) × (m ≡ with_lookup (material_of J S state) r))
        ⊎ IsFresh m

    -- The model, asked for an answer from the fresh material of this state, or asked that again with a
    -- correction, gave the reply together with a tool call.
    abbrev pub StoodBesideCall : String → Type 0
    StoodBesideCall reply =
        (material : Material) × (parts : List SystemPart) × (asked given : World) × (output : Value)
        × IsFresh material
        × (complete_with_retries V J L
              (asking_more (complete_request_for J S C config state from_material material) parts)
              asked
            ≡ (ok output, given))
        × (value_get J output "reply" ≡ some (string reply))
        × (no_call (value_get J output "tool_call") ≡ false)

    abbrev pub Vetted : String → Type 0
    Vetted reply =
        IsOwn reply
        ⊎ ((material : Material) × IsMaterial material × Judged J L V S C material reply)
        ⊎ StoodBesideCall reply

    -- Each reply without a tool call is vetted.
    abbrev pub Speaks : Value → Type 0
    Speaks v = (reply : String) → reply_to_check J L v ≡ some reply → Vetted reply

    same_text :
        (v : Value) (reply text : String)
        → value_get J v "reply" ≡ some (string text)
        → reply_to_check J L v ≡ some reply
        → reply ≡ text
    same_text v reply text e h = string_inj (of_some_eq (sym (reply-text v reply h) ∙ e))

    pub Sent-Speaks :
        (material : Material) (v : Value)
        → IsMaterial material
        → Sent J L V S C material v
        → Speaks v
    Sent-Speaks material v m (inl n) reply h = absurd (ground (arith, n, h))
    Sent-Speaks material v m (inr (inl (inl e))) reply h =
        inl (inl (same_text v reply promise_refused e h))
    Sent-Speaks material v m (inr (inl (inr e))) reply h =
        inl (inr (inl (same_text v reply ungrounded_refused e h)))
    Sent-Speaks material v m (inr (inr (said, e, judged))) reply h = inr (
        inl (
          material,
          m,
          subst (λ (t : String). Judged J L V S C material t) (of_some_eq (sym e ∙ h)) judged,
        ))

    pub usage-Speaks : (usage v : Value) → Speaks v → Speaks (merge_usage J L usage v)
    usage-Speaks usage v h reply e = h reply (sym (merge_usage-reply J L usage v) ∙ e)

    attached-reply :
        (v : Value) (r : ToolRecord)
        → reply_to_check J L (attach_fast_tool_call J L S v r) ≡ reply_to_check J L v
    unfolding reply_to_check attach_fast_tool_call
    attached-reply null r = refl
    attached-reply (bool b) r = refl
    attached-reply (number n) r = refl
    attached-reply (string s) r = refl
    attached-reply (array xs) r = refl
    attached-reply (object m) r =
        rw (J.get-insert m fast_tool_call_field "reply" (S.write_record r))
          (rw (J.get-insert m fast_tool_call_field "tool_call" (S.write_record r)) refl)

    pub attached-Speaks :
        (v : Value) (r : ToolRecord) → Speaks v → Speaks (attach_fast_tool_call J L S v r)
    attached-Speaks v r h reply e = h reply (sym (attached-reply v r) ∙ e)

    plain-reply :
        (text : String) → value_get J (plain_reply J S C L T text) "reply" ≡ some (string text)
    plain-reply text = J.get-insert (J.insert end "tool_call" null) "reply" "reply" (string text)

    pub plain-Speaks : (text : String) → IsOwn text → Speaks (plain_reply J S C L T text)
    plain-Speaks text own reply h = inl (
        subst IsOwn (sym (same_text (plain_reply J S C L T text) reply text (plain-reply text) h))
          own)

    with_call :
        (material : Material) (v : Value) (reply : String)
        → IsFresh material
        → Traced V J L (complete_request_for J S C config state from_material material) v
        → value_get J v "reply" ≡ some (string reply)
        → no_call (value_get J v "tool_call") ≡ false
        → Vetted reply
    with_call material v reply m (inl (parts, asked, given, output, e, (a, b))) h c = inr (
        inr (
          material,
          parts,
          asked,
          given,
          output,
          m,
          e,
          a ∙ h,
          ap (λ (o : Option Value). no_call o) b ∙ c,
        ))
    with_call material v reply m (inr (inl (inl e))) h c =
        inl (inl (string_inj (of_some_eq (sym h ∙ e))))
    with_call material v reply m (inr (inl (inr e))) h c =
        inl (inr (inl (string_inj (of_some_eq (sym h ∙ e)))))
    with_call material v reply m (inr (inr n)) h c = cc

    -- Striking out the tool call of what was sent.
    pub struck-Speaks :
        (material : Material) (v : Value)
        → IsFresh material
        → Sent J L V S C material v
        → Traced V J L (complete_request_for J S C config state from_material material) v
        → Speaks (without_tool_call J L v)
    struck-Speaks material v m sent traced reply h =
        elim (Bool-cases (no_call (value_get J v "tool_call"))) [
          | inl t ↦ Sent-Speaks material v (inr (inr m)) sent reply (kept_reply v reply t h)
          | inr t ↦ with_call material v reply m traced (kept_text v reply h) t
        ]
