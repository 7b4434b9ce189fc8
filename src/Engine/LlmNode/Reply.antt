-- ===== src/Engine/LlmNode/Reply.antt =====
-- services/engine/src/executors/llm.rs: the object that an llm node writes, what is read into it and
-- what it spent. common/src/agent_replies.rs: the replies that the agent writes about itself.
use Prim.Native.Char.{code}
use ai_engineering_boilerpla.Base.{
  ℕ, ◌+◌, ◌%◌, ◌^◌, String, Bool, true, not, ◌&&◌, Option, none, some, ◌>>=◌, get_or, eqb, ◌==◌,
  if◌then◌else◌,
}
use ai_engineering_boilerpla.Json.{
  Json, Value, null, number, string, object, end, as_str, is_null, value_get,
}
use ai_engineering_boilerpla.EngineCore.LlmOutput.{
  Serde, LlmOutput, ToolRecord, is_blank, fast_tool_call_field,
}
use ai_engineering_boilerpla.Engine.Nodes.{with_item}
use ai_engineering_boilerpla.Engine.LlmNode.{LlmSerde, CompleteResponse, DecideResponse}

abbrev pub promise_refused : String
promise_refused = "I couldn't get that just now. Ask me again and I'll try."

abbrev pub ungrounded_refused : String
ungrounded_refused = "I got something back but couldn't read the answer out of it."

abbrev pub compose_failure : String
compose_failure =
    "I couldn't work out what to look up for that. Could you say it again with the name in it?"

abbrev pub unchecked_refused : String
unchecked_refused = promise_refused

abbrev pub blank_output : LlmOutput
blank_output = record { tool_call = null; reply = null }

abbrev pub as_number : Value → Option String
as_number (number n) = some n
as_number v = none

abbrev pub is_empty : String → Bool
is_empty reply = reply == ""

-- `is_none_or(Value::is_null)`
abbrev pub no_call : Option Value → Bool
no_call none = true
no_call (some v) = is_null v

unfoldable pub checkable : Option String → Option Value → Option String
checkable none call = none
checkable (some reply) call = if not (is_empty reply) && no_call call then some reply else none

module _ (J : Json) (L : LlmSerde J) where
  open L use {read_output_text, read_output_prefix, write_output, from_u64}

  unfoldable pub written_something : Option LlmOutput → Option LlmOutput
  unfolding is_blank
  written_something none = none
  written_something (some o) = if is_blank o then none else some o

  -- The first brace from which something that is not blank can be read.
  unfoldable pub first_envelope : String → Option LlmOutput
  unfolding written_something
  first_envelope String.[] = none
  first_envelope (String.◌∷◌ c rest) =
      let later = first_envelope rest in
      if eqb (code c) b'{'
      then elim (written_something (read_output_prefix (String.◌∷◌ c rest))) [
        | some o ↦ some o
        | none ↦ later
      ]
      else later

  unfoldable pub parse_llm_output : String → Value
  unfolding first_envelope is_blank
  parse_llm_output content =
      let parsed = get_or blank_output (read_output_text content) in
      write_output (
        if is_blank parsed
        then get_or (record { tool_call = null; reply = string content }) (first_envelope content)
        else parsed)

  -- An object with the two counts of tokens.
  unfoldable pub token_counts : ℕ → ℕ → Value
  token_counts tokens_in tokens_out = object (
      J.insert (J.insert end "tokens_in" (number (from_u64 tokens_in))) "tokens_out"
        (number (from_u64 tokens_out)))

  unfoldable pub response_to_output : CompleteResponse → Value
  unfolding parse_llm_output token_counts
  response_to_output response =
      with_item J (parse_llm_output response.content) "usage"
        (token_counts response.tokens_in response.tokens_out)

  unfoldable pub decide_usage_value : DecideResponse → Value
  unfolding token_counts
  decide_usage_value decided =
      object (J.insert end "usage" (token_counts decided.tokens_in decided.tokens_out))

  -- `value["usage"][name].as_u64().unwrap_or(0)`
  unfoldable pub usage_field : Value → String → ℕ
  usage_field value name =
      get_or 0
        (value_get J value "usage" >>= (λ usage. value_get J usage name) >>= as_number >>= J.as_u64)

  -- A sum of u64, which wraps in a release build.
  abbrev pub sum_u64 : ℕ → ℕ → ℕ
  sum_u64 a b = (a + b) % 2 ^ 64

  unfoldable pub merge_usage : Value → Value → Value
  unfolding usage_field token_counts
  merge_usage first second = with_item J second "usage" (
      token_counts (sum_u64 (usage_field first "tokens_in") (usage_field second "tokens_in"))
        (sum_u64 (usage_field first "tokens_out") (usage_field second "tokens_out")))

  unfoldable pub refused : Value → String → Value
  refused output reply = with_item J output "reply" (string reply)

  unfoldable pub without_tool_call : Value → Value
  without_tool_call output = with_item J output "tool_call" null

  unfoldable pub attach_fast_tool_call : Serde → Value → ToolRecord → Value
  attach_fast_tool_call S output r = with_item J output fast_tool_call_field (S.write_record r)

  -- `output.get("reply")` as a text that is not empty, where there is no tool call.
  unfoldable pub reply_to_check : Value → Option String
  unfolding checkable
  reply_to_check output =
      checkable (value_get J output "reply" >>= as_str) (value_get J output "tool_call")
