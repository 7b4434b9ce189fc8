-- ===== src/EngineCore/LlmOutput.antt =====
-- engine-core/src/llm_output.rs: what an llm node writes into the state, and the records of the
-- tools that ran.
pub mod Shown
use ai_engineering_boilerpla.Base.{
  ℕ, suc, ◌-◌, max, String, ◌≡◌, Bool, true, false, not, ◌&&◌, Option, none, some, List, [], ◌∷◌,
  ◌>>=◌, ◌==◌, get_or, if◌then◌else◌, is_some, length, map,
}
use ai_engineering_boilerpla.Json.{
  Json, Value, Items, Fields, null, array, object, end, to_list, as_array, is_null, value_get,
}
use ai_engineering_boilerpla.EngineCore.State.{Reducer}

abbrev pub llm_state_key : String
llm_state_key = "llm"

abbrev pub tool_result_state_key : String
tool_result_state_key = "tool_result"

abbrev pub rendered_tool_results : ℕ
rendered_tool_results = 4

abbrev pub tool_result_error_key : String
tool_result_error_key = "error"

abbrev pub fast_tool_call_field : String
fast_tool_call_field = "fast_tool_call"

pub record ToolRecord : Type 0 where
  pub name : String
  pub args : Value
  pub result : Value
  pub fetched_at : String

pub record LlmOutput : Type 0 where
  pub tool_call : Value
  pub reply : Value

pub record ToolCall : Type 0 where
  pub name : String
  pub args : Value

-- What serde derives for the types that are read from JSON and written to it, and that reading
-- a written record gives the record back.
pub record Serde : Type 0 where
  pub read_reducer : Value → Option Reducer
  pub read_record : Value → Option ToolRecord
  pub write_record : ToolRecord → Value
  pub read_output : Value → Option LlmOutput
  pub write_reducer : Reducer → Value
  pub read-write_reducer : (r : Reducer) → read_reducer (write_reducer r) ≡ some r
  pub read-write : (r : ToolRecord) → read_record (write_record r) ≡ some r

unfoldable pub no_arguments : Value
no_arguments = object end

-- `ToolRecord::of`
unfoldable pub record_of : ToolCall → Value → String → ToolRecord
record_of call result fetched_at = record {
  name = call.name;
  args = call.args;
  result = result;
  fetched_at = fetched_at;
}

unfoldable pub stored_before_records_existed : Value → ToolRecord
stored_before_records_existed stored = record {
  name = "";
  args = null;
  result = stored;
  fetched_at = "";
}

unfoldable pub made_in_the_same_step_as : ToolRecord → ToolRecord → Bool
made_in_the_same_step_as r other = not (r.fetched_at == "") && r.fetched_at == other.fetched_at

-- `slice::chunk_by`: runs of neighbours that the test relates.
module _ {ℓ} {A : Type ℓ} where
  unfoldable pub join_chunk : (A → A → Bool) → A → List (List A) → List (List A)
  join_chunk p x ((y ∷ ys) ∷ cs) = if p x y then (x ∷ y ∷ ys) ∷ cs else (x ∷ []) ∷ (y ∷ ys) ∷ cs
  join_chunk p x cs = (x ∷ []) ∷ cs

  unfoldable pub chunk_by : (A → A → Bool) → List A → List (List A)
  unfolding join_chunk
  chunk_by p [] = []
  chunk_by p (x ∷ xs) = join_chunk p x (chunk_by p xs)

  -- `next_back().map_or(0, len)`
  unfoldable pub last_length : List (List A) → ℕ
  last_length [] = 0
  last_length (c ∷ []) = length c
  last_length (c ∷ d ∷ cs) = last_length (d ∷ cs)

unfoldable pub first_shown : List ToolRecord → ℕ
unfolding chunk_by last_length made_in_the_same_step_as
first_shown records =
    length records
    - max rendered_tool_results (last_length (chunk_by made_in_the_same_step_as records))

unfoldable pub is_blank : LlmOutput → Bool
is_blank o = is_null o.tool_call && is_null o.reply

unfoldable pub llm_tool_call_pointer : String
llm_tool_call_pointer = "/llm/tool_call"

unfoldable pub llm_reply_pointer : String
llm_reply_pointer = "/llm/reply"

module _ (J : Json) (S : Serde) where
  open S use {read_record, read_output}

  unfoldable pub reached_its_source : ToolRecord → Bool
  reached_its_source r = not (is_some (value_get J r.result tool_result_error_key))

  unfoldable pub read_or_legacy : Value → ToolRecord
  unfolding stored_before_records_existed
  read_or_legacy stored = get_or (stored_before_records_existed stored) (read_record stored)

  abbrev pub listed : Option Items → List ToolRecord
  unfolding to_list
  listed none = []
  listed (some records) = map read_or_legacy (to_list records)

  unfoldable pub all_under : Value → String → List ToolRecord
  unfolding to_list read_or_legacy
  all_under state key = listed (value_get J state key >>= as_array)

  unfoldable pub in_state : Value → LlmOutput
  in_state state =
      get_or (record { tool_call = null; reply = null })
        (value_get J state llm_state_key >>= read_output)
