-- ===== src/LlmRouter/Decisions/Audited.antt =====
-- What the decision log holds of a Decide call (services/llm-router/src/decisions.rs).
use ai_engineering_boilerpla.Base.{
  ℕ, min, length, String, ◌≡◌, ◌⊎◌, inl, inr, refl, Option, some, List, [], ◌∷◌,
}
use ai_engineering_boilerpla.Base.Results.{Result, ok, err}
use ai_engineering_boilerpla.Base.Integers.{pos}
use ai_engineering_boilerpla.Json.{string, object, field, end}
use ai_engineering_boilerpla.LlmRouter.Provider.{CallError, worth_retrying, refused, final, message}
use ai_engineering_boilerpla.LlmRouter.Decision.{DecideRequest, Decision, Wire}
use ai_engineering_boilerpla.LlmRouter.Budget.{Rejection}
use ai_engineering_boilerpla.LlmRouter.Request.{validated_decision}
use ai_engineering_boilerpla.LlmRouter.Request.Accepted.{Accepted, validated_decision-ok}
use ai_engineering_boilerpla.LlmRouter.Decisions.{
  ConnectError, rejected, unavailable, invalid_argument, internal, answered, failed, no_decision,
  provider_refused, DecisionAttempt, Verdict, NotDecided, DecideResponse, Decider, failure_reported,
  answered_row, failed_row, decide_response_from, concluded, asked_with, decide,
}

-- The error that the caller is given: the words of the provider only where it refused the request.
abbrev pub ToldAs : CallError → ConnectError → Type 0
ToldAs (worth_retrying words) e = e ≡ unavailable no_decision
ToldAs (refused words) e = e ≡ invalid_argument words
ToldAs (final words) e = e ≡ internal provider_refused

-- The words of the provider, whatever becomes of the error.
abbrev pub provider_words : CallError → String
provider_words (worth_retrying words) = words
provider_words (refused words) = words
provider_words (final words) = words

failure_reported-ToldAs : (e : CallError) → ToldAs e (failure_reported e)
unfolding failure_reported
failure_reported-ToldAs (worth_retrying words) = refl
failure_reported-ToldAs (refused words) = refl
failure_reported-ToldAs (final words) = refl

message_words : (e : CallError) → message e ≡ provider_words e
unfolding message
message_words (worth_retrying words) = refl
message_words (refused words) = refl
message_words (final words) = refl

module _ {A : Type 0} where
  -- The decider answered `v`: the caller is given its answers, and the row is that of an answer.
  abbrev pub AnswerRecorded :
      Verdict A
      → Decision
      → ℕ
      → Result ConnectError (DecideResponse A) × List DecisionAttempt
      → Type 0
  AnswerRecorded v d elapsed_ms (r, rows) =
      (r
        ≡ ok (record {
          model_used = v.model_used;
          answers = v.answers;
          tokens_in = v.tokens_in;
          tokens_out = v.tokens_out;
        }))
      × (rows
          ≡ record {
            model_used = v.model_used;
            questions = min (length d.questions) 32_767;
            tokens_in = v.tokens_in;
            tokens_out = v.tokens_out;
            latency_ms = min elapsed_ms 0x7fff_ffff;
            outcome = answered;
            sent = v.sent;
            received = v.reply;
          }
            ∷ [])

  -- The decider failed with `f`: the caller is given an error, and the row is that of a failure, with
  -- the words of the provider.
  abbrev pub FailureRecorded :
      String
      → NotDecided
      → Decision
      → ℕ
      → Result ConnectError (DecideResponse A) × List DecisionAttempt
      → Type 0
  FailureRecorded model f d elapsed_ms (r, rows) =
      ((e : ConnectError) × (r ≡ err e) × ToldAs f.error e)
      × (rows
          ≡ record {
            model_used = model;
            questions = min (length d.questions) 32_767;
            tokens_in = pos 0;
            tokens_out = pos 0;
            latency_ms = min elapsed_ms 0x7fff_ffff;
            outcome = failed;
            sent = f.sent;
            received = object (field "error" (string (provider_words f.error)) end);
          }
            ∷ [])

  concluded-AnswerRecorded :
      (model : String) (d : Decision) (elapsed_ms : ℕ) (v : Verdict A)
      → AnswerRecorded v d elapsed_ms (concluded model d elapsed_ms (ok v))
  unfolding concluded decide_response_from answered_row
  concluded-AnswerRecorded model d elapsed_ms v = (refl, refl)

  concluded-FailureRecorded :
      (model : String) (d : Decision) (elapsed_ms : ℕ) (f : NotDecided)
      → FailureRecorded model f d elapsed_ms (concluded model d elapsed_ms (err f))
  unfolding concluded failed_row
  concluded-FailureRecorded model d elapsed_ms f = (
    (failure_reported f.error, refl, failure_reported-ToldAs f.error),
    rw (message_words f.error) refl,
  )

module _ {A C : Type 0} where
  -- The decider was asked about `d`, and one row says how it went.
  abbrev pub Recorded :
      Decider A C
      → String
      → Decision
      → ℕ
      → Result ConnectError (DecideResponse A) × List DecisionAttempt
      → Type 0
  Recorded decider model d elapsed_ms p =
      ((v : Verdict A) × (decider.decided_by model d ≡ ok v) × AnswerRecorded v d elapsed_ms p)
      ⊎ ((f : NotDecided) × (decider.decided_by model d ≡ err f)
          × FailureRecorded model f d elapsed_ms p)

  concluded-Recorded :
      (decider : Decider A C) (model : String) (d : Decision) (elapsed_ms : ℕ)
      → Recorded decider model d elapsed_ms
          (concluded model d elapsed_ms (decider.decided_by model d))
  concluded-Recorded decider model d elapsed_ms = by_reply (decider.decided_by model d) refl
    where
      by_reply :
          (reply : Result NotDecided (Verdict A))
          → decider.decided_by model d ≡ reply
          → Recorded decider model d elapsed_ms (concluded model d elapsed_ms reply)
      by_reply (ok v) e = inl (v, e, concluded-AnswerRecorded model d elapsed_ms v)
      by_reply (err f) e = inr (f, e, concluded-FailureRecorded model d elapsed_ms f)

module _ {W A C : Type 0} (wire : Wire W) where
  -- With a decider configured, either the request is accepted and the decider is asked about the
  -- decision with the caller's deadline; then a verdict is handed on with one row marked answered, and
  -- a failure becomes the error of its kind with one row marked failed, which has the words of the
  -- provider; or the check rejects the request, the rejection is the result, and no row is written.
  pub decide-Recorded :
      (decider : Decider A C) (model : String) (request : DecideRequest W) (deadline : Option ℕ)
      (elapsed_ms : ℕ)
      → ((d : Decision) × Accepted wire request d
          × Recorded decider model
              (record d { caller_stops_waiting_at = deadline })
              elapsed_ms
              (decide wire (some (decider, model)) request deadline elapsed_ms))
        ⊎ ((why : Rejection) × (validated_decision wire request ≡ err why)
            × (decide wire (some (decider, model)) request deadline elapsed_ms
                ≡ (err (rejected why), [])))
  unfolding decide
  decide-Recorded decider model request deadline elapsed_ms =
      by_check (validated_decision wire request) refl
    where
      by_check :
          (check : Result Rejection Decision)
          → validated_decision wire request ≡ check
          → ((d : Decision) × Accepted wire request d
              × Recorded decider model
                  (record d { caller_stops_waiting_at = deadline })
                  elapsed_ms
                  (asked_with decider model check deadline elapsed_ms))
            ⊎ ((why : Rejection) × (validated_decision wire request ≡ err why)
                × (asked_with decider model check deadline elapsed_ms ≡ (err (rejected why), [])))
      by_check (ok d) e = inl (
        d,
        (validated_decision-ok wire request d).0 e,
        concluded-Recorded decider model (record d { caller_stops_waiting_at = deadline })
            elapsed_ms,
      )
      by_check (err why) e = inr (why, e, refl)
