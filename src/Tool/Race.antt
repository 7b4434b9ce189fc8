-- ===== src/Tool/Race.antt =====
-- services/tool/src/race.rs: the first `take` successes of a fan-out of operations. An operation
-- stands for its name. `arrival` is the runtime's choice: the place of the running operation that
-- ends next, the last one where there are fewer, and how it ends.
pub mod Counts
pub mod Turn
pub mod Settled
use ai_engineering_boilerpla.Base.{
  ℕ, zero, suc, max, String, Bool, true, false, List, [], ◌∷◌, ◌++◌, length, leb, if◌then◌else◌,
}
use ai_engineering_boilerpla.Base.Results.{Result, ok, err}

-- The texts of `failures`: why an operation named so did not succeed.
pub data Failure : Type 0 where
  no_operations : Failure
  failed_with : String → String → Failure
  timed_out : String → ℕ → Failure

-- How `timeout(per_op_timeout, factory())` ends.
pub data Ended (T : Type 0) : Type 0 where
  finished : Result String T → Ended T
  elapsed : Ended T

pub record Outcome (T : Type 0) : Type 0 where
  pub taken : List (String × T)
  pub failures : List Failure

-- The locals of `race`: `ops[next..]`, what runs, the outcome so far, and whether the loop broke.
pub record Racing (T : Type 0) : Type 0 where
  pub waiting : List String
  pub running : List String
  pub outcome : Outcome T
  pub stopped : Bool

unfoldable pub attempt : {T : Type 0} → ℕ → String → Ended T → Result Failure (String × T)
attempt timeout name (finished (ok value)) = ok (name, value)
attempt timeout name (finished (err reason)) = err (failed_with name reason)
attempt timeout name elapsed = err (timed_out name timeout)

-- The operations that start in the first loop, and the others.
unfoldable pub fill : ℕ → List String → List String × List String
fill zero ops = ([], ops)
fill (suc width) [] = ([], [])
fill (suc width) (o ∷ os) = let (run, wait) = fill width os in (o ∷ run, wait)

-- The operation at a place of those that run, and the rest.
unfoldable pub pick : ℕ → String → List String → String × List String
pick zero o os = (o, os)
pick (suc i) o [] = (o, [])
pick (suc i) o (p ∷ ps) = let (picked, rest) = pick i p ps in (picked, o ∷ rest)

module _ {T : Type 0} where
  -- `match result`
  unfoldable pub absorb : ℕ → Racing T → Result Failure (String × T) → Racing T
  absorb quorum r (ok t) = record r {
    outcome = record { taken = r.outcome.taken ++ t ∷ []; failures = r.outcome.failures };
    stopped = leb quorum (length (r.outcome.taken ++ t ∷ []));
  }
  absorb quorum r (err f) = record r {
    outcome = record { taken = r.outcome.taken; failures = r.outcome.failures ++ f ∷ [] };
  }

  -- `if next < ops.len()`, where the loop goes on.
  unfoldable pub refill : Bool → List String → Racing T → Racing T
  refill true wait r = r
  refill false [] r = r
  refill false (w ∷ ws) r = record r { waiting = ws; running = r.running ++ w ∷ [] }

  abbrev pub go_on : Racing T → Racing T
  go_on r = refill r.stopped r.waiting r

  module _ (quorum timeout : ℕ) (arrival : Racing T → ℕ × Ended T) where
    unfoldable pub turn_on : Bool → List String → Racing T → Racing T
    unfolding pick attempt absorb refill
    turn_on true run r = r
    turn_on false [] r = r
    turn_on false (o ∷ os) r =
        let (i, ended) = arrival r in
        let (name, rest) = pick i o os in
        go_on (absorb quorum (record r { running = rest }) (attempt timeout name ended))

    -- One turn of the second loop; a loop that has ended stays as it is.
    unfoldable pub turn : Racing T → Racing T
    unfolding turn_on
    turn r = turn_on r.stopped r.running r

    unfoldable pub turns : ℕ → Racing T → Racing T
    unfolding turn
    turns zero r = r
    turns (suc n) r = turns n (turn r)

  unfoldable pub started : ℕ → List String → Racing T
  unfolding fill
  started width ops =
      let (run, wait) = fill width ops in
      record {
        waiting = wait;
        running = run;
        outcome = record { taken = []; failures = [] };
        stopped = false;
      }

  -- Every turn ends an operation, so as many turns as operations are enough.
  unfoldable pub race : List String → ℕ → ℕ → ℕ → (Racing T → ℕ × Ended T) → Outcome T
  unfolding started turns
  race [] fan_out take timeout arrival = record { taken = []; failures = no_operations ∷ [] }
  race (o ∷ os) fan_out take timeout arrival =
      let last : Racing T =
        turns (max take 1) timeout arrival (length (o ∷ os)) (started (max fan_out 1) (o ∷ os)) in
      last.outcome
