-- ===== src/LlmRouter/Request.antt =====
-- services/llm-router/src/budget.rs: the check of a whole Decide request, and the limits that are
-- published for callers.
pub mod Accepted
use Prim.Native.String.{len}
use ai_engineering_boilerpla.Base.{
  ℕ, ◌+◌, String, Bool, true, false, Option, none, some, List, [], ◌∷◌, ◌==◌, ltb, if◌then◌else◌,
  length,
}
use ai_engineering_boilerpla.Base.Results.{Result, ok, err, ◌>>=◌, ◌>>◌}
use ai_engineering_boilerpla.Json.{Value, is_null}
use ai_engineering_boilerpla.LlmRouter.Decision.{
  ChoiceOption, SentQuestion, DecideRequest, QuestionKind, Question, Decision, Wire,
}
use ai_engineering_boilerpla.LlmRouter.Budget.{
  max_questions, max_choice_options, max_score_levels, min_score_levels, max_question_id_bytes,
  max_state_plus_question_bytes, max_state_bytes, max_instructions_bytes, max_request_bytes,
  max_option_name_bytes, max_option_description_bytes, max_level_bytes, What, the_state,
  instructions_of, Rejection, no_questions, too_many_questions, id_missing, unreadable, not_set,
  json_too_long, id_too_long, asked_twice, state_and_question_too_long, request_too_long, counted,
  contains, validated_kind,
}

pub record DecisionBudget : Type 0 where
  pub questions : ℕ
  pub question_id_bytes : ℕ
  pub instructions_bytes : ℕ
  pub state_bytes : ℕ
  pub choice_options : ℕ
  pub option_name_bytes : ℕ
  pub option_description_bytes : ℕ
  pub least_score_levels : ℕ
  pub score_levels : ℕ
  pub level_bytes : ℕ
  pub state_plus_question_bytes : ℕ
  pub request_bytes : ℕ

unfoldable pub published : DecisionBudget
unfolding counted
published = record {
  questions = counted max_questions;
  question_id_bytes = counted max_question_id_bytes;
  instructions_bytes = counted max_instructions_bytes;
  state_bytes = counted max_state_bytes;
  choice_options = counted max_choice_options;
  option_name_bytes = counted max_option_name_bytes;
  option_description_bytes = counted max_option_description_bytes;
  least_score_levels = counted min_score_levels;
  score_levels = counted max_score_levels;
  level_bytes = counted max_level_bytes;
  state_plus_question_bytes = counted max_state_plus_question_bytes;
  request_bytes = counted max_request_bytes;
}

abbrev pub text_bytes : Option String → ℕ
text_bytes none = 0
text_bytes (some text) = len text

unfoldable pub options_bytes : List ChoiceOption → ℕ
options_bytes [] = 0
options_bytes (o ∷ os) = len o.name + text_bytes o.description + options_bytes os

unfoldable pub levels_bytes : List String → ℕ
levels_bytes [] = 0
levels_bytes (l ∷ ls) = len l + levels_bytes ls

unfoldable pub kind_bytes : QuestionKind → ℕ
unfolding options_bytes levels_bytes
kind_bytes (QuestionKind.noul when_true when_false) = text_bytes when_true + text_bytes when_false
kind_bytes (QuestionKind.choice options) = options_bytes options
kind_bytes (QuestionKind.score levels) = levels_bytes levels

unfoldable pub validated_id : String → List String → Result Rejection (List String)
validated_id id asked =
    if id == ""
    then err id_missing
    else if ltb max_question_id_bytes (len id)
    then err (id_too_long id)
    else if contains id asked
    then err (asked_twice id)
    else ok (id ∷ asked)

module _ {W : Type 0} (wire : Wire W) where
  open wire use {to_value, json_bytes}

  -- wire.rs, `json_from`, with the message that the caller puts round its error.
  unfoldable pub json_from : What → Option W → Result Rejection Value
  json_from what sent = elim (to_value sent) [
    | ok value ↦ ok value
    | err error ↦ err (unreadable what error)
  ]

  unfoldable pub within_json_budget : What → Value → ℕ → Result Rejection Value
  within_json_budget what value limit =
      if is_null value
      then err (not_set what)
      else if ltb limit (json_bytes value)
      then err (json_too_long what (json_bytes value))
      else ok value

  unfoldable pub question_bytes : Question → ℕ
  unfolding kind_bytes
  question_bytes q = json_bytes q.instructions + kind_bytes q.kind

  unfoldable pub within_state_and_question_budget : ℕ → Question → Result Rejection (Unit {0})
  within_state_and_question_budget state_bytes q =
      if ltb max_state_plus_question_bytes (state_bytes + question_bytes q)
      then err (state_and_question_too_long state_bytes (question_bytes q))
      else ok tt

  unfoldable pub total_bytes : List Question → ℕ
  total_bytes [] = 0
  total_bytes (q ∷ qs) = question_bytes q + total_bytes qs

  unfoldable pub within_request_budget : ℕ → List Question → Result Rejection (Unit {0})
  unfolding total_bytes
  within_request_budget state_bytes questions =
      if ltb max_request_bytes (state_bytes + total_bytes questions)
      then err (request_too_long state_bytes (total_bytes questions))
      else ok tt

  unfoldable pub validated_question : SentQuestion W → Result Rejection Question
  unfolding json_from within_json_budget validated_kind
  validated_question q = do
    given ← json_from (instructions_of q.id) q.instructions
    instructions ← within_json_budget (instructions_of q.id) given max_instructions_bytes
    kind ← validated_kind q.id q.kind
    ok (record { id = q.id; instructions = instructions; kind = kind })

  -- The loop over the questions, with the ids asked so far.
  unfoldable pub validated_questions :
      ℕ → List String → List (SentQuestion W) → Result Rejection (List Question)
  unfolding validated_id validated_question within_state_and_question_budget
  validated_questions state_bytes asked [] = ok []
  validated_questions state_bytes asked (q ∷ qs) = do
    asked' ← validated_id q.id asked
    question ← validated_question q
    within_state_and_question_budget state_bytes question
    rest ← validated_questions state_bytes asked' qs
    ok (question ∷ rest)

  unfoldable pub validated_parts : DecideRequest W → Result Rejection Decision
  unfolding json_from within_json_budget validated_questions within_request_budget
  validated_parts request = do
    given ← json_from the_state request.state
    state ← within_json_budget the_state given max_state_bytes
    questions ← validated_questions (json_bytes state) [] request.questions
    within_request_budget (json_bytes state) questions
    ok (record { state = state; questions = questions; caller_stops_waiting_at = none })

  unfoldable pub validated_decision : DecideRequest W → Result Rejection Decision
  unfolding validated_parts
  validated_decision request =
      if ltb (length request.questions) 1
      then err no_questions
      else if ltb max_questions (length request.questions)
      then err too_many_questions
      else validated_parts request
