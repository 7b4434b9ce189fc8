-- ===== src/Engine/LlmNode/Ask.antt =====
-- services/engine/src/executors/llm.rs: the questions to the decider about a reply or a value, and
-- the state of a decision that fits what the decider takes.
use Prim.Native.Char.{code}
use Prim.Native.String.{◌++◌}
use ai_engineering_boilerpla.Base.{
  ℕ, zero, suc, ◌+◌, ◌-◌, ◌*◌, ◌/◌, max, String, Option, none, some, List, [], ◌∷◌, ◌>>=◌, map, ltb,
  leb, if◌then◌else◌,
}
use ai_engineering_boilerpla.Json.{Json, Value, string, array, object, end, of_list}
use ai_engineering_boilerpla.EngineCore.LlmOutput.{Serde}
use ai_engineering_boilerpla.Engine.ToolNode.{Client}
use ai_engineering_boilerpla.Engine.LlmNode.{
  LlmSerde, Question, QuestionKind, noul_of, DecideRequest,
}
use ai_engineering_boilerpla.Engine.LlmNode.Material.{Material, shown, as_checked, truncation_mark}

abbrev pub promise_id : String
promise_id = "promise"

abbrev pub grounded_id : String
grounded_id = "grounded"

abbrev pub pointed_at_id : String
pointed_at_id = "pointed_at"

abbrev pub promise_instructions : String
promise_instructions =
    "Does this text undertake to do something, rather than report something already done or known?"

abbrev pub grounded_instructions : String
grounded_instructions = "Is every specific value in the reply present in the material?"

abbrev pub pointed_at_instructions : String
pointed_at_instructions =
    "Does `message` refer to `value`, by that name or by any description that can only mean it?"

abbrev pub state_bytes_beyond_which_the_decider_refuses : ℕ
state_bytes_beyond_which_the_decider_refuses = 49152

abbrev pub tries_to_fit_the_material : ℕ
tries_to_fit_the_material = 8

abbrev pub each_try_aims_at_percent_of_the_limit : ℕ
each_try_aims_at_percent_of_the_limit = 90

-- The bytes of a character in UTF-8
unfoldable pub utf8_bytes : ℕ → ℕ
utf8_bytes c = if ltb c 0x80 then 1 else if ltb c 0x800 then 2 else if ltb c 0x1_0000 then 3 else 4

-- `str::len`
unfoldable pub byte_len : String → ℕ
unfolding utf8_bytes
byte_len String.[] = 0
byte_len (String.◌∷◌ c s) = utf8_bytes (code c) + byte_len s

-- The text up to the last boundary of characters within `bytes`.
unfoldable pub text_within : ℕ → String → String
unfolding utf8_bytes
text_within bytes String.[] = ""
text_within bytes (String.◌∷◌ c s) =
    let rest = text_within (bytes - utf8_bytes (code c)) s in
    if leb (utf8_bytes (code c)) bytes then String.◌∷◌ c rest else ""

unfoldable pub clamped_to : String → ℕ → String
unfolding byte_len text_within
clamped_to text bytes =
    if leb (byte_len text) bytes
    then text
    else text_within (bytes - byte_len truncation_mark) text ++ truncation_mark

unfoldable pub longest : List String → ℕ
unfolding byte_len
longest [] = 0
longest (t ∷ ts) = max (byte_len t) (longest ts)

unfoldable pub each_within : List String → ℕ → Value
unfolding clamped_to of_list
each_within texts bytes = array (of_list (map (λ t. string (clamped_to t bytes)) texts))

module _ (J : Json) (S : Serde) (C : Client) (L : LlmSerde J) where
  unfoldable pub checked_state : List String → String → ℕ → Value
  unfolding each_within
  checked_state read reply share =
      object (J.insert (J.insert end "material" (each_within read share)) "reply" (string reply))

  unfoldable pub what_came_back : Material → List String
  unfolding shown as_checked
  what_came_back material = map (as_checked J S C) (shown material)

  -- The share of the next try.
  unfoldable pub smaller_share : ℕ → ℕ → ℕ
  smaller_share share bytes =
      share * state_bytes_beyond_which_the_decider_refuses / bytes
      * each_try_aims_at_percent_of_the_limit / 100

  unfoldable pub fitted : ℕ → List String → String → ℕ → Option Value
  unfolding checked_state byte_len smaller_share
  fitted zero read reply share = none
  fitted (suc tries) read reply share =
      let state = checked_state read reply share in
      let bytes = byte_len (C.to_text state) in
      let next = fitted tries read reply (smaller_share share bytes) in
      if leb bytes state_bytes_beyond_which_the_decider_refuses then some state else next

  unfoldable pub state_the_decider_takes : Material → String → Option Value
  unfolding fitted what_came_back longest
  state_the_decider_takes material reply =
      fitted tries_to_fit_the_material (what_came_back material) reply
        (longest (what_came_back material))

  unfoldable pub instructed : String → Value → QuestionKind → Option Question
  instructed id instructions kind =
      if L.readable_instructions instructions
      then some (record { id = id; instructions = instructions; kind = kind })
      else none

  unfoldable pub noul_question : String → String → String → String → Option Question
  unfolding instructed
  noul_question id instructions when_true when_false =
      instructed id (string instructions) (noul_of when_true when_false)

  unfoldable pub promise_question : Option Question
  unfolding noul_question
  promise_question =
      noul_question promise_id promise_instructions
        "it says what it is about to do, will do, or needs to do — work that has not happened yet"
        "it states what is the case, gives a value, answers, asks the person something, or says plainly that it could not find out"

  unfoldable pub grounded_question : Option Question
  unfolding noul_question
  grounded_question =
      noul_question grounded_id grounded_instructions
        "every name, number and fact in the reply can be found in the material"
        "the reply states a name, number or fact the material does not contain"

  unfoldable pub pointed_at_question : Option Question
  unfolding noul_question
  pointed_at_question =
      noul_question pointed_at_id pointed_at_instructions
        "the message points at this one thing, whether by naming it or by describing it unambiguously"
        "the message does not point at this thing at all, or points at it only vaguely"

  abbrev pub readable_state : Value → Option Value
  readable_state state = if L.readable_state state then some state else none

  unfoldable pub reply_check_request : Material → String → Option DecideRequest
  unfolding state_the_decider_takes promise_question grounded_question
  reply_check_request material reply = do
    state ← state_the_decider_takes material reply
    read ← readable_state state
    promise ← promise_question
    grounded ← grounded_question
    some (record { state = read; questions = promise ∷ grounded ∷ [] })

  unfoldable pub pointed_at_request : String → Value → Option DecideRequest
  unfolding pointed_at_question
  pointed_at_request question args = do
    read ←
        readable_state (object (J.insert (J.insert end "message" (string question)) "value" args))
    pointed ← pointed_at_question
    some (record { state = read; questions = pointed ∷ [] })
