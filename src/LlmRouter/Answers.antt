-- ===== src/LlmRouter/Answers.antt =====
-- services/llm-router/src/adapters/system_one/answers.rs: reads the reply of the decider into the
-- answers to the questions. An error is a value that names what its text names, and the maps of
-- probabilities are lists: of two texts of one level the map keeps the later.
pub mod Readings
pub mod Fits
use ai_engineering_boilerpla.Base.{
  ℕ, suc, ◌-◌, min, String, ◌≡◌, Bool, true, false, Option, none, some, List, [], ◌∷◌, any, all,
  find, length, ltb, eqb, get_or, ◌==◌, if◌then◌else◌,
}
use ai_engineering_boilerpla.Base.Results.{Result, ok, err, ◌>>=◌}
use ai_engineering_boilerpla.Base.Integers.{ℤ, pos}
use ai_engineering_boilerpla.Json.{
  Json, Value, Fields, null, number, object, end, field, as_str, as_object, is_null, value_get,
}
use ai_engineering_boilerpla.LlmRouter.Decision.{
  ChoiceOption, Question, QuestionKind, noul, choice, score,
}
use ai_engineering_boilerpla.LlmRouter.Decisions.{Verdict}

pub data AnswerFault : Type 0 where
  no_answers : AnswerFault
  never_asked left_unanswered : String → AnswerFault
  another_type : String → String → QuestionKind → AnswerFault
  not_readable not_an_object not_between_0_and_1 : String → String → AnswerFault
  never_offered no_probability_for not_a_level : String → String → AnswerFault
  past_the_levels : String → ℕ → ℕ → AnswerFault
  outside_the_scale : String → ℕ → AnswerFault

-- Only a reply without answers is worth another call.
abbrev pub is_worth_retrying : AnswerFault → Bool
is_worth_retrying no_answers = true
is_worth_retrying fault = false

-- f64: what serde_json reads, zero, and `(0.0..=highest).contains`; parsing a u32, and an i32 of a
-- number.
pub record Doubles (F : Type 0) : Type 0 where
  pub as_f64 : String → Option F
  pub zero : F
  pub is_within : F → ℕ → Bool
  pub parse_u32 : String → Option ℕ
  pub as_i32 : String → Option ℤ
  pub zero_within : (highest : ℕ) → is_within zero highest ≡ true

pub data Given (F : Type 0) : Type 0 where
  noul_answer : F → Given F
  choice_answer : String → List (String × F) → F → Given F
  score_answer : F → List (ℕ × String) → List (ℕ × F) → F → Given F

pub record Answer (F : Type 0) : Type 0 where
  pub id : String
  pub answer : Given F

abbrev pub u32_max : ℕ
u32_max = 0xffff_ffff

unfoldable pub type_name : QuestionKind → String
type_name (noul when_true when_false) = "noul"
type_name (choice options) = "choice"
type_name (score levels) = "score"

unfoldable pub offered : List ChoiceOption → String → Bool
offered options name = any (λ (o : ChoiceOption). o.name == name) options

unfoldable pub legend_from : ℕ → List String → List (ℕ × String)
legend_from index [] = []
legend_from index (level ∷ levels) = (min index u32_max, level) ∷ legend_from (suc index) levels

unfoldable pub caller_legend : List String → List (ℕ × String)
unfolding legend_from
caller_legend levels = legend_from 0 levels

unfoldable pub asked : List Question → String → Bool
asked questions id = any (λ (q : Question). q.id == id) questions

-- The first key that is the id of no question.
unfoldable pub unknown_key : List Question → Fields → Option String
unfolding asked
unknown_key questions end = none
unknown_key questions (field k v rest) =
    let later = unknown_key questions rest in if asked questions k then later else some k

abbrev pub present : {A : Type 0} → AnswerFault → Option A → Result AnswerFault A
present fault (some a) = ok a
present fault none = err fault

abbrev pub number_text : Value → Option String
number_text (number n) = some n
number_text v = none

abbrev pub or_null : Option Value → Value
or_null o = get_or null o

unfoldable pub text : Value → String
text v = get_or "" (as_str v)

-- `filter(|value| !value.is_null())`
abbrev pub unless_null : Option Value → Option Value
unless_null none = none
unless_null (some v) = if is_null v then none else some v

module _ (J : Json) {F : Type 0} (D : Doubles F) where
  open D use {as_f64, is_within, parse_u32, as_i32}

  abbrev pub read_f64 : Option String → Option F
  read_f64 none = none
  read_f64 (some n) = as_f64 n

  unfoldable pub number_of : String → String → Value → Result AnswerFault F
  number_of id name v = present (not_readable id name) (read_f64 (number_text v))

  unfoldable pub probability : String → String → Value → Result AnswerFault F
  unfolding number_of
  probability id name v = do
    read ← number_of id name v
    (if is_within read 1 then ok read else err (not_between_0_and_1 id name))

  unfoldable pub scored : String → Value → ℕ → Result AnswerFault F
  unfolding number_of
  scored id v levels = do
    read ← number_of id "score" v
    (if is_within read (min (levels - 1) u32_max)
        then ok read
        else err (outside_the_scale id levels))

  unfoldable pub confidence : String → Option Value → Result AnswerFault F
  unfolding probability
  confidence id none = ok D.zero
  confidence id (some v) = probability id "confidence" v

  unfoldable pub given_value : Value → String → Option Value
  given_value answer name = unless_null (value_get J answer name)

  unfoldable pub chosen_option : String → Value → List ChoiceOption → Result AnswerFault String
  unfolding offered
  chosen_option id v options = do
    chosen ← present (not_readable id "choice") (as_str v)
    (if offered options chosen then ok chosen else err (never_offered id chosen))

  -- No value is an empty map.
  unfoldable pub entries_of : String → String → Option Value → Result AnswerFault Fields
  entries_of id name none = ok end
  entries_of id name (some v) = present (not_an_object id name) (as_object v)

  unfoldable pub named_entries :
      String → List ChoiceOption → Fields → Result AnswerFault (List (String × F))
  unfolding offered probability
  named_entries id options end = ok []
  named_entries id options (field name weight rest) = do
    known ← (if offered options name then ok name else err (no_probability_for id name))
    p ← probability id "probability" weight
    later ← named_entries id options rest
    ok ((known, p) ∷ later)

  unfoldable pub named_probabilities :
      String → Option Value → List ChoiceOption → Result AnswerFault (List (String × F))
  unfolding entries_of named_entries
  named_probabilities id v options = entries_of id "probabilities" v >>= named_entries id options

  unfoldable pub levelled_entries : String → ℕ → Fields → Result AnswerFault (List (ℕ × F))
  unfolding probability
  levelled_entries id levels end = ok []
  levelled_entries id levels (field level weight rest) = do
    index ← present (not_a_level id level) (parse_u32 level)
    inside ← (if ltb index levels then ok index else err (past_the_levels id index levels))
    p ← probability id "probability" weight
    later ← levelled_entries id levels rest
    ok ((inside, p) ∷ later)

  unfoldable pub levelled_probabilities :
      String → Option Value → ℕ → Result AnswerFault (List (ℕ × F))
  unfolding entries_of levelled_entries
  levelled_probabilities id v levels =
      entries_of id "probabilities" v >>= levelled_entries id levels

  -- The answer to one question, whose type is the one reported.
  unfoldable pub read_kind : String → QuestionKind → Value → Result AnswerFault (Given F)
  unfolding probability chosen_option named_probabilities levelled_probabilities confidence scored
      caller_legend given_value
  read_kind id (noul when_true when_false) answer = do
    p ← probability id "noul" (or_null (value_get J answer "noul"))
    ok (noul_answer p)
  read_kind id (choice options) answer = do
    chosen ← chosen_option id (or_null (value_get J answer "choice")) options
    ps ← named_probabilities id (given_value answer "probabilities") options
    sure ← confidence id (given_value answer "confidence")
    ok (choice_answer chosen ps sure)
  read_kind id (score levels) answer = do
    read ← scored id (or_null (value_get J answer "score")) (length levels)
    ps ← levelled_probabilities id (given_value answer "probabilities") (length levels)
    sure ← confidence id (given_value answer "confidence")
    ok (score_answer read (caller_legend levels) ps sure)

  unfoldable pub read_answer : Question → Value → Result AnswerFault (Answer F)
  unfolding type_name text read_kind
  read_answer q answer =
      let reported = text (or_null (value_get J answer "type")) in
      if type_name q.kind == reported
      then (read_kind q.id q.kind answer >>= λ given. ok (record { id = q.id; answer = given }))
      else err (another_type q.id reported q.kind)

  -- The loop over the questions.
  unfoldable pub read_answers : Fields → List Question → Result AnswerFault (List (Answer F))
  unfolding read_answer
  read_answers answers [] = ok []
  read_answers answers (q ∷ qs) = do
    answer ← present (left_unanswered q.id) (J.get answers q.id)
    given ← read_answer q answer
    later ← read_answers answers qs
    ok (given ∷ later)

  unfoldable pub as_count : Value → ℤ
  as_count v = elim (number_text v) [ some n ↦ get_or (pos 0) (as_i32 n) | none ↦ pos 0 ]

  abbrev pub usage_of : Value → String → Value
  usage_of body name = or_null (value_get J (or_null (value_get J body "usage")) name)

  unfoldable pub only_asked : List Question → Fields → Result AnswerFault Fields
  unfolding unknown_key
  only_asked questions answers = elim (unknown_key questions answers) [
    | some unknown ↦ err (never_asked unknown)
    | none ↦ ok answers
  ]

  unfoldable pub read_verdict :
      Value → List Question → Value → Result AnswerFault (Verdict (Answer F))
  unfolding read_answers as_count text
  read_verdict body questions sent = do
    answers ← present no_answers (as_object (or_null (value_get J body "answers")))
    known ← only_asked questions answers
    given ← read_answers known questions
    ok (record {
      model_used = text (or_null (value_get J body "model"));
      answers = given;
      tokens_in = as_count (usage_of body "input_tokens");
      tokens_out = as_count (usage_of body "output_tokens");
      sent = sent;
      reply = body;
    })
