-- ===== src/Engine/LlmNode/Material.antt =====
-- services/engine/src/executors/llm.rs: the material that an llm node answers from, how much of it is
-- shown, and the texts in which it is shown.
pub mod Budget
use Prim.Native.String.{◌++◌}
use ai_engineering_boilerpla.Base.{
  ℕ, zero, suc, ◌+◌, ◌-◌, ◌*◌, ◌/◌, min, max, String, Bool, true, false, Option, none, some, List,
  [], ◌∷◌, ◌>>=◌, length, chain, skip, keep, map, ltb, leb, if◌then◌else◌,
}
use ai_engineering_boilerpla.Json.{Json, Value, as_str, is_null, value_get}
use ai_engineering_boilerpla.EngineCore.LlmOutput.{
  Serde, ToolRecord, all_under, first_shown, tool_result_state_key, tool_result_error_key,
  rendered_tool_results,
}
use ai_engineering_boilerpla.Engine.ToolNode.{Client}
use ai_engineering_boilerpla.Engine.LlmNode.{LlmSerde, Mode, loop, compose_only, from_material}

abbrev pub prior_material_state_key : String
prior_material_state_key = "prior_material"

abbrev pub max_chars_per_rendered_tool_result : ℕ
max_chars_per_rendered_tool_result = 12000

abbrev pub truncation_mark : String
truncation_mark = "… (truncated)"

abbrev pub max_chars_of_tool_results_shown_at_once : ℕ
max_chars_of_tool_results_shown_at_once = rendered_tool_results * max_chars_per_rendered_tool_result

abbrev pub max_chars_of_what_was_asked : ℕ
max_chars_of_what_was_asked = 1000

-- Ten minutes in nanoseconds
abbrev pub carried_material_goes_stale_after : ℕ
carried_material_goes_stale_after = 600000000000

pub record Material : Type 0 where
  pub carried : List ToolRecord
  pub fetched : List ToolRecord

pub record Shown : Type 0 where
  pub index : ℕ
  pub tool_record : ToolRecord
  pub carried_from_an_earlier_turn : Bool
  pub chars : ℕ

-- `String::push_str`
abbrev pub appended_text : String → String → String
appended_text s t = s ++ t

-- `chars().count()`
unfoldable pub char_count : String → ℕ
char_count String.[] = 0
char_count (String.◌∷◌ c s) = suc (char_count s)

-- `chars().take(..)`
unfoldable pub take_chars : ℕ → String → String
take_chars zero s = ""
take_chars (suc n) String.[] = ""
take_chars (suc n) (String.◌∷◌ c s) = String.◌∷◌ c (take_chars n s)

unfoldable pub truncated_to : String → ℕ → String
unfolding char_count take_chars
truncated_to text chars =
    if leb (char_count text) chars then text else take_chars chars text ++ truncation_mark

-- `collect::<String>()`
unfoldable pub concatenated : List String → String
concatenated [] = ""
concatenated (t ∷ ts) = t ++ concatenated ts

unfoldable pub chars_each : ℕ → ℕ
chars_each count =
    min max_chars_per_rendered_tool_result (max_chars_of_tool_results_shown_at_once / max count 1)

-- `enumerate`, from the place `index` on.
unfoldable pub shown_from : ℕ → ℕ → ℕ → List ToolRecord → List Shown
shown_from carried chars index [] = []
shown_from carried chars index (r ∷ rs) =
    record {
      index = index;
      tool_record = r;
      carried_from_an_earlier_turn = ltb index carried;
      chars = chars;
    }
    ∷ shown_from carried chars (suc index) rs

unfoldable pub shown_of : List ToolRecord → List ToolRecord → List Shown
unfolding first_shown chars_each shown_from
shown_of carried fetched =
    let all = chain carried fetched in
    let first = first_shown all in
    shown_from (length carried) (chars_each (length all - first)) first (skip first all)

unfoldable pub shown : Material → List Shown
unfolding shown_of
shown m = shown_of m.carried m.fetched

unfoldable pub with_lookup : Material → ToolRecord → Material
with_lookup m r = record { carried = m.carried; fetched = chain m.fetched (r ∷ []) }

module _ (J : Json) (S : Serde) where
  unfoldable pub material_of : Value → Material
  unfolding all_under
  material_of state = record {
    carried = all_under J S state prior_material_state_key;
    fetched = all_under J S state tool_result_state_key;
  }

  module _ (L : LlmSerde J) where
    -- A time that cannot be read is not recent.
    abbrev pub within_ten_minutes : ℕ → Option ℕ → Bool
    within_ten_minutes now none = false
    within_ten_minutes now (some at) = ltb now (at + carried_material_goes_stale_after)

    unfoldable pub fetched_recently : ℕ → ToolRecord → Bool
    fetched_recently now r = within_ten_minutes now (L.read_time r.fetched_at)

    unfoldable pub only_what_was_carried_and_is_still_fresh : Material → ℕ → Material
    unfolding fetched_recently
    only_what_was_carried_and_is_still_fresh m now = record {
      carried = keep (fetched_recently now) m.carried;
      fetched = [];
    }

    unfoldable pub for_mode : Value → ℕ → Mode → Material
    unfolding only_what_was_carried_and_is_still_fresh material_of
    for_mode state now from_material =
        only_what_was_carried_and_is_still_fresh (material_of state) now
    for_mode state now loop = material_of state
    for_mode state now compose_only = material_of state

  module _ (C : Client) where
    open C use {to_text, decimal}

    unfoldable pub asked_for : ToolRecord → String
    unfolding truncated_to
    asked_for r =
        if is_null r.args
        then ""
        else " (asked for " ++ truncated_to (to_text r.args) max_chars_of_what_was_asked ++ ")"

    -- What `rendered` writes after two line feeds, which `as_checked` trims.
    unfoldable pub rendered : ℕ → String → Value → ℕ → String
    unfolding truncated_to
    rendered index asked result chars =
        "Tool result "
        ++ decimal index
        ++ asked
        ++ elim (value_get J result tool_result_error_key >>= as_str) [
          | some e ↦ " — ERROR: " ++ truncated_to e chars
          | none ↦ ": " ++ truncated_to (to_text result) chars
        ]

    unfoldable pub in_the_prompt : Shown → String
    unfolding rendered asked_for
    in_the_prompt s =
        "\n\n" ++ rendered s.index (asked_for s.tool_record) s.tool_record.result s.chars

    unfoldable pub as_checked : Shown → String
    unfolding rendered asked_for
    as_checked s =
        rendered s.index (if s.carried_from_an_earlier_turn then asked_for s.tool_record else "")
          s.tool_record.result s.chars

    unfoldable pub rendered_carried : Material → Option String
    unfolding shown_of in_the_prompt concatenated
    rendered_carried m = elim m.carried [
      | [] ↦ none
      | r ∷ rs ↦ some (concatenated (map in_the_prompt (shown_of (r ∷ rs) [])))
    ]
