-- ===== src/LlmRouter/Provider.antt =====
-- services/llm-router/src/provider.rs and tiers.rs: prompts, what a call of a model gives back, and
-- the models of each tier. `Sampling`, finish reasons and tiers belong to the messages of the
-- contract.
use ai_engineering_boilerpla.Base.{String, Option, none, some}
use ai_engineering_boilerpla.Base.Integers.{ℤ}
use ai_engineering_boilerpla.Json.{Value}

pub data QualityTier : Type 0 where
  unspecified low medium high : QualityTier

-- `S` is Sampling.
pub record Prompt (S : Type 0) : Type 0 where
  pub tier : QualityTier
  pub system : String
  pub user : String
  pub sampling : S

-- `F` is FinishReason.
pub record Completion (F : Type 0) : Type 0 where
  pub content : String
  pub tokens_in : ℤ
  pub tokens_out : ℤ
  pub finish_reason : F
  pub reply : Value

pub data CallError : Type 0 where
  worth_retrying refused final : String → CallError

unfoldable pub message : CallError → String
message (worth_retrying m) = m
message (refused m) = m
message (final m) = m

pub record TierModels : Type 0 where
  pub primary : String
  pub backup : String

pub record Tiers : Type 0 where
  pub low_models : TierModels
  pub medium_models : TierModels
  pub high_models : TierModels

unfoldable pub models : Tiers → QualityTier → Option TierModels
models t low = some t.low_models
models t medium = some t.medium_models
models t high = some t.high_models
models t unspecified = none
