-- ===== src/EngineCore/Budget.antt =====
-- engine-core/src/budget.rs: what is left of an execution's allowance. A `Duration` is its
-- nanoseconds.
pub mod Laws
use ai_engineering_boilerpla.Base.{ℕ, ◌-◌, ◌*◌, ◌/◌, ◌^◌, min, Bool, ◌||◌, eqb}

pub record Budget : Type 0 where
  pub tokens_remaining : ℕ
  pub tool_calls_remaining : ℕ
  pub wall_time_remaining : ℕ

unfoldable pub new : ℕ → ℕ → ℕ → Budget
new tokens tool_calls wall_time = record {
  tokens_remaining = tokens;
  tool_calls_remaining = tool_calls;
  wall_time_remaining = wall_time;
}

-- `saturating_sub` stops at 0, as `-` on ℕ does.
unfoldable pub charge : Budget → ℕ → ℕ → ℕ → Budget
charge b tokens tool_calls wall_time = record {
  tokens_remaining = b.tokens_remaining - tokens;
  tool_calls_remaining = b.tool_calls_remaining - tool_calls;
  wall_time_remaining = b.wall_time_remaining - wall_time;
}

unfoldable pub exhausted : Budget → Bool
exhausted b =
    eqb b.tokens_remaining 0 || eqb b.tool_calls_remaining 0 || eqb b.wall_time_remaining 0

abbrev pub nanos_per_milli : ℕ
nanos_per_milli = 1_000_000

abbrev pub u64_max : ℕ
u64_max = 0xffff_ffff_ffff_ffff

-- `u64::try_from(value.as_millis()).unwrap_or(u64::MAX)`
unfoldable pub serialize : ℕ → ℕ
serialize wall_time = min (wall_time / nanos_per_milli) u64_max

unfoldable pub deserialize : ℕ → ℕ
deserialize millis = millis * nanos_per_milli
