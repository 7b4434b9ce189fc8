-- ===== src/Tests/Routing.antt =====
-- The theorems on the calls of models at concrete inputs.
use ai_engineering_boilerpla.Base.{String, ◌≡◌, ◌⊎◌, refl, true, some, List, [], ◌∷◌}
use ai_engineering_boilerpla.Base.Results.{Result, ok, err}
use ai_engineering_boilerpla.Base.Integers.{pos}
use ai_engineering_boilerpla.Json.{null, string}
use ai_engineering_boilerpla.LlmRouter.Decision.{Decision}
use ai_engineering_boilerpla.LlmRouter.Provider.{
  low, Prompt, Completion, CallError, worth_retrying, Tiers, TierModels, models,
}
use ai_engineering_boilerpla.LlmRouter.Budget.{Rejection}
use ai_engineering_boilerpla.LlmRouter.Request.{validated_decision}
use ai_engineering_boilerpla.LlmRouter.Request.Accepted.{Accepted}
use ai_engineering_boilerpla.LlmRouter.Routing.{complete, Routed, complete-Routed}
use ai_engineering_boilerpla.LlmRouter.Decisions.{Verdict, NotDecided, Decider, rejected, decide}
use ai_engineering_boilerpla.LlmRouter.Decisions.Audited.{Recorded, decide-Recorded}
use ai_engineering_boilerpla.Tests.Router.{wire, request}

abbrev pair : TierModels
pair = record { primary = "first"; backup = "second" }

abbrev tiers : Tiers
tiers = record { low_models = pair; medium_models = pair; high_models = pair }

abbrev prompt : Prompt Unit
prompt = record { tier = low; system = ""; user = "classify this"; sampling = tt }

abbrev completion : Completion Unit
completion = record {
  content = "docs";
  tokens_in = pos 10;
  tokens_out = pos 2;
  finish_reason = tt;
  reply = null;
}

-- A provider whose first call fails for a reason that passes.
abbrev busy_once : List String → String → Prompt Unit → Result CallError (Completion Unit)
busy_once [] model p = err (worth_retrying "the provider answered 429")
busy_once (m ∷ ms) model p = ok completion

busy_once_answers : complete busy_once tiers prompt ≡ (
  ok (record { completion = completion; model_used = "second"; used_backup = true }),
  "first" ∷ "second" ∷ [],
)
unfolding complete
busy_once_answers = refl

complete-Routed_example : Routed busy_once pair prompt (complete busy_once tiers prompt)
complete-Routed_example = complete-Routed busy_once tiers prompt pair (unfold models in refl)

abbrev verdict : Verdict String
verdict = record {
  model_used = "jev-1";
  answers = "left" ∷ [];
  tokens_in = pos 20;
  tokens_out = pos 1;
  sent = string "asked";
  reply = string "left";
}

abbrev always : String → Decision → Result NotDecided (Verdict String)
always model d = ok verdict

abbrev decider : Decider String Unit
decider = record { decided_by = always; listed = ok [] }

decide-Recorded_example :
    ((d : Decision) × Accepted wire request d
      × Recorded decider "jev"
          (record d { caller_stops_waiting_at = some 9 })
          120
          (decide wire (some (decider, "jev")) request (some 9) 120))
    ⊎ ((why : Rejection) × (validated_decision wire request ≡ err why)
        × (decide wire (some (decider, "jev")) request (some 9) 120 ≡ (err (rejected why), [])))
decide-Recorded_example = decide-Recorded wire decider "jev" request (some 9) 120
