-- ===== src/LlmRouter/Decisions.antt =====
-- services/llm-router/src/decisions.rs: a Decide call from the check of the request to the answer,
-- with the rows that it hands to the decision log. A failure to write a row is only traced.
pub mod Audited
use ai_engineering_boilerpla.Base.{
  ℕ, min, String, ◌≡◌, refl, Option, none, some, List, [], ◌∷◌, length,
}
use ai_engineering_boilerpla.Base.Results.{Result, ok, err, ◌>>=◌}
use ai_engineering_boilerpla.Base.Integers.{ℤ, pos}
use ai_engineering_boilerpla.Json.{Value, string, object, field, end}
use ai_engineering_boilerpla.LlmRouter.Provider.{CallError, worth_retrying, refused, final, message}
use ai_engineering_boilerpla.LlmRouter.Decision.{DecideRequest, Decision, Wire}
use ai_engineering_boilerpla.LlmRouter.Budget.{Rejection}
use ai_engineering_boilerpla.LlmRouter.Request.{DecisionBudget, published, validated_decision}

abbrev pub no_decision : String
no_decision = "the model did not decide; the decision log holds the provider's reply"

abbrev pub not_configured : String
not_configured = "structured decisions are not configured for this deployment"

abbrev pub provider_refused : String
provider_refused = "the provider refused this decision; the decision log holds the provider's reply"

abbrev pub unlisted : String
unlisted = "the provider did not list its models"

abbrev pub cannot_list : String
cannot_list = "the models of this class could not be listed; this service's own logs hold why"

-- `rejected` is an invalid argument too, with the message that its rejection stands for.
pub data ConnectError : Type 0 where
  unavailable invalid_argument internal failed_precondition : String → ConnectError
  rejected : Rejection → ConnectError

pub data Outcome : Type 0 where
  answered failed : Outcome

pub record DecisionAttempt : Type 0 where
  pub model_used : String
  pub questions : ℕ
  pub tokens_in : ℤ
  pub tokens_out : ℤ
  pub latency_ms : ℕ
  pub outcome : Outcome
  pub sent : Value
  pub received : Value

-- `A` is the Answer of the contract.
pub record Verdict (A : Type 0) : Type 0 where
  pub model_used : String
  pub answers : List A
  pub tokens_in : ℤ
  pub tokens_out : ℤ
  pub sent : Value
  pub reply : Value

pub record NotDecided : Type 0 where
  pub sent : Value
  pub error : CallError

pub record DecideResponse (A : Type 0) : Type 0 where
  pub model_used : String
  pub answers : List A
  pub tokens_in : ℤ
  pub tokens_out : ℤ

-- `C` is the ModelCard of the contract.
pub record Decider (A C : Type 0) : Type 0 where
  pub decided_by : String → Decision → Result NotDecided (Verdict A)
  pub listed : Result CallError (List C)

pub record DescribeModelsResponse (C : Type 0) : Type 0 where
  pub cards : List C
  pub budget : DecisionBudget

unfoldable pub failure_reported : CallError → ConnectError
failure_reported (worth_retrying m) = unavailable no_decision
failure_reported (refused m) = invalid_argument m
failure_reported (final m) = internal provider_refused

unfoldable pub listing_failure : CallError → ConnectError
listing_failure (worth_retrying m) = unavailable unlisted
listing_failure (refused m) = internal cannot_list
listing_failure (final m) = internal cannot_list

-- `i16::try_from(..).unwrap_or(i16::MAX)` and `i32::try_from(..).unwrap_or(i32::MAX)`
abbrev pub question_count : Decision → ℕ
question_count d = min (length d.questions) 32_767

abbrev pub latency : ℕ → ℕ
latency elapsed_ms = min elapsed_ms 0x7fff_ffff

unfoldable pub failed_row : String → NotDecided → Decision → ℕ → DecisionAttempt
unfolding message
failed_row model f d elapsed_ms = record {
  model_used = model;
  questions = question_count d;
  tokens_in = pos 0;
  tokens_out = pos 0;
  latency_ms = latency elapsed_ms;
  outcome = failed;
  sent = f.sent;
  received = object (field "error" (string (message f.error)) end);
}

module _ {A : Type 0} where
  -- wire.rs
  unfoldable pub decide_response_from : Verdict A → DecideResponse A
  decide_response_from v = record {
    model_used = v.model_used;
    answers = v.answers;
    tokens_in = v.tokens_in;
    tokens_out = v.tokens_out;
  }

  unfoldable pub answered_row : Verdict A → Decision → ℕ → DecisionAttempt
  answered_row v d elapsed_ms = record {
    model_used = v.model_used;
    questions = question_count d;
    tokens_in = v.tokens_in;
    tokens_out = v.tokens_out;
    latency_ms = latency elapsed_ms;
    outcome = answered;
    sent = v.sent;
    received = v.reply;
  }

  -- `match decided`
  unfoldable pub concluded :
      String
      → Decision
      → ℕ
      → Result NotDecided (Verdict A)
      → Result ConnectError (DecideResponse A) × List DecisionAttempt
  unfolding decide_response_from answered_row failed_row failure_reported
  concluded model d elapsed_ms (ok v) =
      (ok (decide_response_from v), answered_row v d elapsed_ms ∷ [])
  concluded model d elapsed_ms (err f) =
      (err (failure_reported f.error), failed_row model f d elapsed_ms ∷ [])

module _ {C : Type 0} where
  unfoldable pub described_models :
      Result CallError (List C) → Result ConnectError (DescribeModelsResponse C)
  unfolding listing_failure
  described_models (ok cards) = ok (record { cards = cards; budget = published })
  described_models (err failure) = err (listing_failure failure)

module _ {A C : Type 0} where
  unfoldable pub asked_with :
      Decider A C
      → String
      → Result Rejection Decision
      → Option ℕ
      → ℕ
      → Result ConnectError (DecideResponse A) × List DecisionAttempt
  unfolding concluded
  asked_with decider model (err r) caller_stops elapsed_ms = (err (rejected r), [])
  asked_with decider model (ok d) caller_stops elapsed_ms =
      let d' : Decision = record d { caller_stops_waiting_at = caller_stops } in
      concluded model d' elapsed_ms (decider.decided_by model d')

  unfoldable pub describe_models :
      Option (Decider A C × String) → Result ConnectError (DescribeModelsResponse C)
  unfolding described_models
  describe_models none = err (failed_precondition not_configured)
  describe_models (some (decider, model)) = described_models decider.listed

module _ {W A C : Type 0} (wire : Wire W) where
  -- The time that the call of the decider takes is a parameter.
  unfoldable pub decide :
      Option (Decider A C × String)
      → DecideRequest W
      → Option ℕ
      → ℕ
      → Result ConnectError (DecideResponse A) × List DecisionAttempt
  unfolding asked_with
  decide none request caller_stops elapsed_ms = (err (failed_precondition not_configured), [])
  decide (some (decider, model)) request caller_stops elapsed_ms =
      asked_with decider model (validated_decision wire request) caller_stops elapsed_ms
