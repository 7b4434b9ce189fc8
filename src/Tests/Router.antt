-- ===== src/Tests/Router.antt =====
-- The theorems on the router's requests and models at concrete inputs.
use Prim.Native.String.{len}
use ai_engineering_boilerpla.Base.{
  ℕ, ◌+◌, String, ◌≡◌, ◌↔◌, refl, Option, none, some, List, [], ◌∷◌,
}
use ai_engineering_boilerpla.Base.Results.{Result, ok}
use ai_engineering_boilerpla.Json.{Value, null, string}
use ai_engineering_boilerpla.LlmRouter.Decision.{
  ChoiceOption, SentKind, DecideRequest, QuestionKind, Decision, Wire,
}
use ai_engineering_boilerpla.LlmRouter.Request.{validated_decision, question_bytes}
use ai_engineering_boilerpla.LlmRouter.Request.Accepted.{Accepted, validated_decision-ok}

abbrev read : Option Value → Result String Value
read none = ok null
read (some v) = ok v

abbrev size : Value → ℕ
size (string s) = len s + 2
size v = 4

abbrev pub wire : Wire Value
wire = record { to_value = read; json_bytes = size }

abbrev sides : List ChoiceOption
sides =
    record { name = "left"; description = none }
    ∷ record { name = "right"; description = some "the other side" }
    ∷ []

abbrev pub request : DecideRequest Value
request = record {
  state = some (string "at the fork");
  questions =
      record {
        id = "turn";
        instructions = some (string "where to");
        kind = some (SentKind.choice sides);
      }
      ∷ record {
        id = "how_far";
        instructions = some (string "grade it");
        kind = some (SentKind.score ("near" ∷ "far" ∷ []));
      }
      ∷ [];
}

abbrev decision : Decision
decision = record {
  state = string "at the fork";
  questions =
      record { id = "turn"; instructions = string "where to"; kind = QuestionKind.choice sides }
      ∷ record {
        id = "how_far";
        instructions = string "grade it";
        kind = QuestionKind.score ("near" ∷ "far" ∷ []);
      }
      ∷ [];
  caller_stops_waiting_at = none;
}

request_accepted : validated_decision wire request ≡ ok decision
unfolding validated_decision question_bytes
request_accepted = refl

validated_decision-ok_example :
    (validated_decision wire request ≡ ok decision) ↔ Accepted wire request decision
validated_decision-ok_example = validated_decision-ok wire request decision
