-- ===== src/Tests/Answers.antt =====
-- The theorem on the replies of the decider at a concrete reply.
use ai_engineering_boilerpla.Base.{
  ℕ, String, ◌≡◌, refl, true, Option, none, some, [], ◌∷◌, if◌then◌else◌, ◌==◌, arith, leb,
}
use ai_engineering_boilerpla.Base.Results.{Result, ok, err}
use ai_engineering_boilerpla.Base.Integers.{pos}
use ai_engineering_boilerpla.Json.{
  Value, Fields, null, string, number, object, end, field, value_get,
}
use ai_engineering_boilerpla.LlmRouter.Decision.{Question, choice, score}
use ai_engineering_boilerpla.LlmRouter.Decisions.{Verdict}
use ai_engineering_boilerpla.LlmRouter.Answers.{
  AnswerFault, Doubles, Answer, read_verdict, only_asked, past_the_levels,
}
use ai_engineering_boilerpla.LlmRouter.Answers.Fits.{AnswersAll, AllAsked, read_verdict-ok}
use ai_engineering_boilerpla.Tests.JsonModel.{json, lookup}

-- Numbers that are whole.
abbrev digit : String → Option ℕ
digit n =
    if n == "0" then some 0 else if n == "1" then some 1 else if n == "2" then some 2 else none

zero_first : (highest : ℕ) → leb 0 highest ≡ true
zero_first highest = ground arith

abbrev wholes : Doubles ℕ
wholes = record {
  as_f64 = digit;
  zero = 0;
  is_within = leb;
  parse_u32 = digit;
  as_i32 = λ n. some (pos 7);
  zero_within = zero_first;
}

abbrev colour : Question
colour = record {
  id = "colour";
  instructions = null;
  kind = choice (
      record { name = "red"; description = none }
      ∷ record { name = "blue"; description = none }
      ∷ []);
}

abbrev size : Question
size = record { id = "size"; instructions = null; kind = score ("small" ∷ "large" ∷ []) }

abbrev reply_with : String → Value
reply_with level = object (
    field "answers"
      (object (
        field "colour"
          (object (field "type" (string "choice") (field "choice" (string "blue") end)))
          (field "size"
            (object (
              field "type" (string "score") (
                field "score" (number "1")
                  (field "probabilities" (object (field level (number "1") end)) end))))
            end)))
      end)

abbrev verdict_of : Result AnswerFault (Verdict (Answer ℕ)) → Verdict (Answer ℕ)
verdict_of (ok v) = v
verdict_of (err e) = record {
  model_used = "";
  answers = [];
  tokens_in = pos 0;
  tokens_out = pos 0;
  sent = null;
  reply = null;
}

abbrev accepted : Verdict (Answer ℕ)
accepted = verdict_of (read_verdict json wholes (reply_with "1") (colour ∷ size ∷ []) null)

accepts : read_verdict json wholes (reply_with "1") (colour ∷ size ∷ []) null ≡ ok accepted
unfolding read_verdict only_asked lookup
accepts = refl

refuses_level :
    read_verdict json wholes (reply_with "2") (colour ∷ size ∷ []) null
    ≡ err (past_the_levels "size" 2 2)
unfolding read_verdict only_asked lookup
refuses_level = refl

read_verdict-ok_example :
    AnswersAll json wholes (colour ∷ size ∷ []) accepted.answers
    × ((answers : Fields) × (value_get json (reply_with "1") "answers" ≡ some (object answers))
        × AllAsked (colour ∷ size ∷ []) answers)
    × (accepted.sent ≡ null)
    × (accepted.reply ≡ reply_with "1")
read_verdict-ok_example =
    read_verdict-ok json wholes (reply_with "1") (colour ∷ size ∷ []) null accepted accepts
