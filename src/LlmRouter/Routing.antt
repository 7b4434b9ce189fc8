-- ===== src/LlmRouter/Routing.antt =====
-- services/llm-router/src/router.rs: a prompt runs on the primary model of its tier, and on the
-- backup where the failure is worth retrying. The provider's reply may depend on the calls made
-- before, which stand in the list of models asked so far.
use mathlib.Core.Path.{subst, sym}
use ai_engineering_boilerpla.Base.{
  String, ◌≡◌, refl, Bool, true, false, Option, none, some, List, [], ◌∷◌, ◌⊎◌, inl, inr,
}
use ai_engineering_boilerpla.Base.Results.{Result, ok, err}
use ai_engineering_boilerpla.LlmRouter.Provider.{
  QualityTier, Prompt, Completion, CallError, worth_retrying, refused, final, TierModels, Tiers,
  models,
}

pub record Answer (F : Type 0) : Type 0 where
  pub completion : Completion F
  pub model_used : String
  pub used_backup : Bool

-- `unserved` stands for the text that no models are configured for the tier.
pub data Fault : Type 0 where
  call_failed : CallError → Fault
  unserved : QualityTier → Fault

pub record Failed : Type 0 where
  pub error : Fault
  pub model_used : String
  pub used_backup : Bool

module _ {S F : Type 0}
    (provider : List String → String → Prompt S → Result CallError (Completion F)) where
  unfoldable pub reported :
      String → Bool → Result CallError (Completion F) → Result Failed (Answer F)
  reported model backup (ok completion) =
      ok (record { completion = completion; model_used = model; used_backup = backup })
  reported model backup (err error) =
      err (record { error = call_failed error; model_used = model; used_backup = backup })

  -- What follows the reply of the primary model, with the models that were asked in order.
  unfoldable pub after_primary :
      TierModels
      → Prompt S
      → Result CallError (Completion F)
      → Result Failed (Answer F) × List String
  unfolding reported
  after_primary tier prompt (err (worth_retrying m)) = (
    reported tier.backup true (provider (tier.primary ∷ []) tier.backup prompt),
    tier.primary ∷ tier.backup ∷ [],
  )
  after_primary tier prompt reply = (reported tier.primary false reply, tier.primary ∷ [])

  unfoldable pub complete_on : Option TierModels → Prompt S → Result Failed (Answer F) × List String
  unfolding after_primary
  complete_on none prompt =
      (err (record { error = unserved prompt.tier; model_used = ""; used_backup = false }), [])
  complete_on (some tier) prompt = after_primary tier prompt (provider [] tier.primary prompt)

  unfoldable pub complete : Tiers → Prompt S → Result Failed (Answer F) × List String
  unfolding complete_on models
  complete tiers prompt = complete_on (models tiers prompt.tier) prompt

  -- The failure of a call that may go to the backup.
  abbrev pub IsRetryable : Result CallError (Completion F) → Type 0
  IsRetryable r = (m : String) × (r ≡ err (worth_retrying m))

  -- The model that an outcome names, and whether it says that this was the backup.
  abbrev pub used : Result Failed (Answer F) → String × Bool
  used (ok a) = (a.model_used, a.used_backup)
  used (err f) = (f.model_used, f.used_backup)

  abbrev pub IsReplyOf : Result CallError (Completion F) → Result Failed (Answer F) → Type 0
  IsReplyOf (ok c) (ok a) = a.completion ≡ c
  IsReplyOf (err e) (err f) = f.error ≡ call_failed e
  IsReplyOf (ok c) (err f) = ⊥
  IsReplyOf (err e) (ok a) = ⊥

  -- One model was asked and its reply is final, or two were and the second's reply stands.
  abbrev pub Routed : TierModels → Prompt S → Result Failed (Answer F) × List String → Type 0
  Routed tier prompt (r, asked) =
      let first = provider [] tier.primary prompt in
      let second = provider (tier.primary ∷ []) tier.backup prompt in
      ((asked ≡ tier.primary ∷ [])
        × ¬ IsRetryable first
        × (used r ≡ (tier.primary, false))
        × IsReplyOf first r)
      ⊎ ((asked ≡ tier.primary ∷ tier.backup ∷ [])
          × IsRetryable first
          × (used r ≡ (tier.backup, true))
          × IsReplyOf second r)

  reported-IsReplyOf :
      (model : String) (backup : Bool) (reply : Result CallError (Completion F))
      → (used (reported model backup reply) ≡ (model, backup))
        × IsReplyOf reply (reported model backup reply)
  unfolding reported
  reported-IsReplyOf model backup (ok c) = (refl, refl)
  reported-IsReplyOf model backup (err e) = (refl, refl)

  -- For a tier that is served the primary model is asked, and the backup after it exactly when the
  -- primary's failure is worth retrying: an answer, a refusal and a final failure are never asked
  -- again. The outcome is the reply of the last model asked, and names it.
  pub complete-Routed :
      (tiers : Tiers) (prompt : Prompt S) (tier : TierModels)
      → models tiers prompt.tier ≡ some tier
      → Routed tier prompt (complete tiers prompt)
  unfolding complete
  complete-Routed tiers prompt tier h = rw h (by_reply (provider [] tier.primary prompt) refl)
    where
      only :
          (reply : Result CallError (Completion F))
          → provider [] tier.primary prompt ≡ reply
          → ¬ IsRetryable reply
          → Routed tier prompt (reported tier.primary false reply, tier.primary ∷ [])
      only reply e refused_one =
          let (a, b) = reported-IsReplyOf tier.primary false reply in
          inl (
            refl,
            subst (λ r. ¬ IsRetryable r) (sym e) refused_one,
            a,
            subst (λ r. IsReplyOf r (reported tier.primary false reply)) (sym e) b,
          )

      by_reply :
          (reply : Result CallError (Completion F))
          → provider [] tier.primary prompt ≡ reply
          → Routed tier prompt (after_primary tier prompt reply)
      by_reply (ok c) e = only (ok c) e (λ (m, d). cc)
      by_reply (err (worth_retrying m)) e =
          let (a, b) =
            reported-IsReplyOf tier.backup true (provider (tier.primary ∷ []) tier.backup prompt) in
          inr (refl, (m, e), a, b)
      by_reply (err (refused m)) e = only (err (refused m)) e (λ (m', d). cc)
      by_reply (err (final m)) e = only (err (final m)) e (λ (m', d). cc)
