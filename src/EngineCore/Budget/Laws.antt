-- ===== src/EngineCore/Budget/Laws.antt =====
-- What charging a budget does (engine-core/src/budget.rs).
use ai_engineering_boilerpla.Base.{ℕ, ◌+◌, ◌*◌, ◌≤◌, ◌<◌, ◌≡◌, true, arith}
use ai_engineering_boilerpla.EngineCore.Budget.{
  Budget, charge, exhausted, serialize, deserialize, nanos_per_milli, u64_max,
}

pub charge-charge :
    (b : Budget) (t c w t' c' w' : ℕ)
    → charge (charge b t c w) t' c' w' ≡ charge b (t + t') (c + c') (w + w')
unfolding charge
charge-charge b t c w t' c' w' = ground arith

pub record Within (b b' : Budget) : Type 0 where
  pub tokens : b'.tokens_remaining ≤ b.tokens_remaining
  pub tool_calls : b'.tool_calls_remaining ≤ b.tool_calls_remaining
  pub wall_time : b'.wall_time_remaining ≤ b.wall_time_remaining

pub Within-refl : (b : Budget) → Within b b
Within-refl b = omega arith

pub Within-trans : (a b c : Budget) → Within a b → Within b c → Within a c
Within-trans a b c p q = omega arith

pub charge-Within : (b : Budget) (t c w : ℕ) → Within b (charge b t c w)
unfolding charge
charge-Within b t c w = omega arith

-- Once a budget is exhausted no charge refills it.
pub exhausted_stays : (a b : Budget) → Within a b → exhausted a ≡ true → exhausted b ≡ true
unfolding exhausted
exhausted_stays a b h e = ground arith

-- Writing a wall time to JSON and reading it back drops the part below a millisecond, and keeps
-- the rest exactly, as long as the milliseconds fit a u64.
pub deserialize-serialize :
    (d : ℕ)
    → d < (u64_max + 1) * nanos_per_milli
    → (deserialize (serialize d) ≤ d) × (d < deserialize (serialize d) + nanos_per_milli)
unfolding serialize deserialize
deserialize-serialize d h = omega arith
