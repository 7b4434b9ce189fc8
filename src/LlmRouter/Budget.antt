-- ===== src/LlmRouter/Budget.antt =====
-- services/llm-router/src/budget.rs: what one Decide call may carry, and the check that rejects a
-- request over budget. A rejection stands for the text of its message.
pub mod Kinds
use Prim.Native.String.{len}
use ai_engineering_boilerpla.Base.{
  ℕ, suc, ◌+◌, ◌*◌, String, Bool, true, false, Option, none, some, List, [], ◌∷◌, ◌==◌, ltb, leb,
  any, if◌then◌else◌, length, min,
}
use ai_engineering_boilerpla.Base.Results.{Result, ok, err, ◌>>=◌, ◌>>◌}
use ai_engineering_boilerpla.Json.{Value, is_null}
use ai_engineering_boilerpla.LlmRouter.Decision.{
  ChoiceOption, SentKind, SentQuestion, DecideRequest, QuestionKind, Question, Decision, Wire,
}

abbrev pub max_questions : ℕ
max_questions = 64

abbrev pub max_choice_options : ℕ
max_choice_options = 255

abbrev pub max_score_levels : ℕ
max_score_levels = 10

abbrev pub min_score_levels : ℕ
min_score_levels = 2

abbrev pub max_question_id_bytes : ℕ
max_question_id_bytes = 64

abbrev pub worst_case_bytes_per_token : ℕ
worst_case_bytes_per_token = 2

abbrev pub vendor_state_plus_question_tokens : ℕ
vendor_state_plus_question_tokens = 32_768

abbrev pub max_state_plus_question_bytes : ℕ
max_state_plus_question_bytes = vendor_state_plus_question_tokens * worst_case_bytes_per_token

abbrev pub max_state_bytes : ℕ
max_state_bytes = 49_152

abbrev pub max_instructions_bytes : ℕ
max_instructions_bytes = 8_192

abbrev pub vendor_request_tokens : ℕ
vendor_request_tokens = 65_536

abbrev pub max_request_bytes : ℕ
max_request_bytes = vendor_request_tokens * worst_case_bytes_per_token

abbrev pub max_option_name_bytes : ℕ
max_option_name_bytes = max_question_id_bytes

abbrev pub max_option_description_bytes : ℕ
max_option_description_bytes = 1_024

abbrev pub max_level_bytes : ℕ
max_level_bytes = 1_024

-- What a message calls the text that is too long.
pub data Part : Type 0 where
  when_true when_false : Part
  level : ℕ → Part
  option_name : ℕ → Part
  option_description : String → Part

pub data What : Type 0 where
  the_state : What
  instructions_of : String → What

pub data Rejection : Type 0 where
  no_questions too_many_questions id_missing : Rejection
  unreadable : What → String → Rejection
  not_set : What → Rejection
  json_too_long : What → ℕ → Rejection
  id_too_long : String → Rejection
  asked_twice : String → Rejection
  state_and_question_too_long : ℕ → ℕ → Rejection
  request_too_long : ℕ → ℕ → Rejection
  no_kind : String → Rejection
  text_too_long : String → Part → Rejection
  too_few_levels : String → Rejection
  too_many_levels : String → Rejection
  no_options : String → Rejection
  too_many_options : String → Rejection
  option_unnamed : String → Rejection
  offered_twice : String → String → Rejection

-- `i32::try_from(limit).unwrap_or(i32::MAX)`
unfoldable pub counted : ℕ → ℕ
counted limit = min limit 0x7fff_ffff

unfoldable pub bounded : String → Part → String → ℕ → Result Rejection String
bounded id what written limit =
    if ltb limit (len written) then err (text_too_long id what) else ok written

unfoldable pub criterion : String → Part → Option String → Result Rejection (Option String)
unfolding bounded
criterion id what none = ok none
criterion id what (some written) = do text ← bounded id what written max_level_bytes; ok (some text)

-- The levels from `index` on.
unfoldable pub bounded_levels : String → ℕ → List String → Result Rejection (List String)
unfolding bounded
bounded_levels id index [] = ok []
bounded_levels id index (l ∷ ls) = do
  text ← bounded id (level index) l max_level_bytes
  rest ← bounded_levels id (index + 1) ls
  ok (text ∷ rest)

unfoldable pub validated_levels : String → List String → Result Rejection QuestionKind
unfolding bounded_levels
validated_levels id levels =
    if ltb (length levels) min_score_levels
    then err (too_few_levels id)
    else if ltb max_score_levels (length levels)
    then err (too_many_levels id)
    else (do named ← bounded_levels id 0 levels; ok (QuestionKind.score named))

abbrev pub contains : String → List String → Bool
contains s seen = any (λ t. t == s) seen

unfoldable pub described : String → String → Option String → Result Rejection (Option String)
unfolding bounded
described id name none = ok none
described id name (some written) = do
  text ← bounded id (option_description name) written max_option_description_bytes
  ok (some text)

-- `HashSet::insert` that reports whether the name is new.
abbrev pub new_name : String → List String → String → Result Rejection (List String)
new_name id seen name = if contains name seen then err (offered_twice id name) else ok (name ∷ seen)

abbrev pub named_option : String → String → Result Rejection String
named_option id name = if name == "" then err (option_unnamed id) else ok name

unfoldable pub offered_options :
    String → ℕ → List String → List ChoiceOption → Result Rejection (List ChoiceOption)
unfolding bounded described
offered_options id index seen [] = ok []
offered_options id index seen (o ∷ os) = do
  given ← named_option id o.name
  name ← bounded id (option_name index) given max_option_name_bytes
  seen' ← new_name id seen name
  description ← described id name o.description
  rest ← offered_options id (index + 1) seen' os
  ok (record { name = name; description = description } ∷ rest)

unfoldable pub validated_options : String → List ChoiceOption → Result Rejection QuestionKind
unfolding offered_options
validated_options id [] = err (no_options id)
validated_options id (o ∷ os) =
    if ltb max_choice_options (length (o ∷ os))
    then err (too_many_options id)
    else (do offered ← offered_options id 0 [] (o ∷ os); ok (QuestionKind.choice offered))

unfoldable pub validated_kind : String → Option SentKind → Result Rejection QuestionKind
unfolding criterion validated_options validated_levels
validated_kind id none = err (no_kind id)
validated_kind id (some (SentKind.noul t f)) = do
  yes_when ← criterion id when_true t
  no_when ← criterion id when_false f
  ok (QuestionKind.noul yes_when no_when)
validated_kind id (some (SentKind.choice options)) = validated_options id options
validated_kind id (some (SentKind.score levels)) = validated_levels id levels
