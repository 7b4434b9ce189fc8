-- ===== src/Tool/Race/Settled.antt =====
-- How a race ends (services/tool/src/race.rs).
use mathlib.Core.Path.{subst}
use mathlib.Core.Bool.{true≢false}
use ai_engineering_boilerpla.Base.{
  ℕ, zero, suc, ◌+◌, ◌≤◌, ◌<◌, max, String, ◌≡◌, ◌⊎◌, inl, inr, refl, ap, sym, ◌∙◌, Bool, true,
  false, List, [], ◌∷◌, ◌++◌, length, length-append, arith,
}
use ai_engineering_boilerpla.Tool.Race.{
  Ended, Outcome, Racing, fill, turn_on, turn, turns, started, race,
}
use ai_engineering_boilerpla.Tool.Race.Counts.{
  tally, tally_taken, tally_failures, tally-append, tally-fill, length-fill, fill_runs,
}
use ai_engineering_boilerpla.Tool.Race.Turn.{Tracked, load, turn-Tracked}

module _ {T : Type 0} where
  turn_ended :
      (quorum timeout : ℕ) (arrival : Racing T → ℕ × Ended T) (r : Racing T)
      → (r.stopped ≡ true) ⊎ (load r ≡ 0)
      → turn quorum timeout arrival r ≡ r
  unfolding turn
  turn_ended quorum timeout arrival r h = by_case r.stopped r.running refl refl
    where
      by_case :
          (s : Bool) (run : List String)
          → r.stopped ≡ s
          → r.running ≡ run
          → turn_on quorum timeout arrival s run r ≡ r
      by_case true run e f = refl
      by_case false [] e f = refl
      by_case false (o ∷ os) e f =
          let k : length r.running ≡ suc (length os) = ap length f in
          absurd (elim h [ inl g ↦ true≢false (sym g ∙ e) | inr g ↦ absurd (omega (arith, g, k)) ])

  turns-Tracked :
      (quorum timeout width : ℕ) (arrival : Racing T → ℕ × Ended T) (ops : List String) (n : ℕ)
      (r : Racing T)
      → Tracked quorum width ops r
      → Tracked quorum width ops (turns quorum timeout arrival n r)
  unfolding turns
  turns-Tracked quorum timeout width arrival ops zero r h = h
  turns-Tracked quorum timeout width arrival ops (suc n) r h =
      turns-Tracked quorum timeout width arrival ops n (turn quorum timeout arrival r)
        (turn-Tracked quorum timeout width arrival ops r h).0

  -- The second loop has come to its end.
  abbrev IsOver : Racing T → Type 0
  IsOver r = (r.stopped ≡ true) ⊎ (load r ≡ 0)

  turns_ended :
      (quorum timeout : ℕ) (arrival : Racing T → ℕ × Ended T) (n : ℕ) (r : Racing T)
      → IsOver r
      → turns quorum timeout arrival n r ≡ r
  unfolding turns
  turns_ended quorum timeout arrival zero r h = refl
  turns_ended quorum timeout arrival (suc n) r h =
      ap (turns quorum timeout arrival n) (turn_ended quorum timeout arrival r h)
      ∙ turns_ended quorum timeout arrival n r h

  turns_enough :
      (quorum timeout width : ℕ) (arrival : Racing T → ℕ × Ended T) (ops : List String) (n : ℕ)
      (r : Racing T)
      → Tracked quorum width ops r
      → load r ≤ n
      → IsOver (turns quorum timeout arrival n r)
  unfolding turns
  turns_enough quorum timeout width arrival ops zero r h k = inr (omega (arith, k))
  turns_enough quorum timeout width arrival ops (suc n) r h k =
      let (p, q) = turn-Tracked quorum timeout width arrival ops r h in
      elim q [
        | inl g ↦ stays (inl g)
        | inr (inl g) ↦ stays (inr g)
        | inr (inr g) ↦
            turns_enough quorum timeout width arrival ops n (turn quorum timeout arrival r) p
              (omega (arith, g, k))
      ]
    where
      stays : IsOver r → IsOver (turns quorum timeout arrival (suc n) r)
      stays g = subst IsOver (sym (turns_ended quorum timeout arrival (suc n) r g)) g

  started-Tracked :
      (take fan_out : ℕ) (ops : List String) (r : Racing T)
      → r ≡ started (max fan_out 1) ops
      → Tracked (max take 1) (max fan_out 1) ops r × (load r ≡ length ops)
  unfolding started
  started-Tracked take fan_out ops r e =
      let (a, b) = length-fill (max fan_out 1) ops in
      rw e (
        (
          (λ n. omega (arith, tally-fill n (max fan_out 1) ops)),
          a,
          inr (refl, omega arith),
          inr (
              if_waiting (length (fill (max fan_out 1) ops).1)
                (fill_runs (max fan_out 1) ops (omega arith))),
        ),
        b,
      )
    where
      if_waiting : {m : ℕ} (n : ℕ) → (1 ≤ n → 1 ≤ m) → (n ≡ 0) ⊎ (1 ≤ m)
      if_waiting n h = grind (arith, h)

  -- However the runtime orders the operations and however they end, at every turn no more than
  -- `fan_out` of them run (one, if that is zero).
  pub race_width :
      (ops : List String) (fan_out take timeout : ℕ) (arrival : Racing T → ℕ × Ended T) (n : ℕ)
      → length (turns (max take 1) timeout arrival n (started (max fan_out 1) ops)).running
        ≤ max fan_out 1
  race_width ops fan_out take timeout arrival n =
      let (a, b, c, d) =
        turns-Tracked (max take 1) timeout (max fan_out 1) arrival ops n
          (started (max fan_out 1) ops)
          (started-Tracked take fan_out ops (started (max fan_out 1) ops) refl).0 in
      b

  none_left : (r : Racing T) → r.stopped ≡ false → IsOver r → r.running ++ r.waiting ≡ []
  none_left r s (inl g) = absurd (true≢false (sym g ∙ s))
  none_left r s (inr g) =
      no_names (r.running ++ r.waiting) (omega (arith, g, length-append r.running r.waiting))
    where
      no_names : (xs : List String) → length xs ≡ 0 → xs ≡ []
      no_names [] h = refl
      no_names (x ∷ xs) h = absurd (omega (arith, h))

  -- How a race of these operations may come out.
  abbrev pub Settled : List String → ℕ → Outcome T → Type 0
  Settled ops quorum o =
      (left : List String) × ((n : String)
        → tally_taken n o.taken + tally_failures n o.failures + tally n left ≡ tally n ops)
      × ((length o.taken ≡ quorum) ⊎ ((length o.taken < quorum) × (left ≡ [])))

  -- However the runtime orders the operations and however they end, a race of at least one
  -- operation comes to an end in which each operation has succeeded, has failed or is left without
  -- a verdict, as often as it was given, and either `take` of them succeeded (one, if that is
  -- zero), or fewer did and none is left.
  pub race-Settled :
      (o : String) (os : List String) (fan_out take timeout : ℕ) (arrival : Racing T → ℕ × Ended T)
      → Settled (o ∷ os) (max take 1) (race (o ∷ os) fan_out take timeout arrival)
  unfolding race
  race-Settled o os fan_out take timeout arrival =
      let q = max take 1 in
      let w = max fan_out 1 in
      let (first, size) = started-Tracked take fan_out (o ∷ os) (started w (o ∷ os)) refl in
      let last = turns q timeout arrival (length (o ∷ os)) (started w (o ∷ os)) in
      let (a, b, c, d) =
        turns-Tracked q timeout w arrival (o ∷ os) (length (o ∷ os)) (started w (o ∷ os)) first in
      let over =
        turns_enough q timeout w arrival (o ∷ os) (length (o ∷ os)) (started w (o ∷ os)) first
          (omega (arith, size)) in
      (
        last.running ++ last.waiting,
        (λ n. omega (arith, a n, tally-append n last.running last.waiting)),
        elim c [ inl (s, e) ↦ inl e | inr (s, e) ↦ inr (e, none_left last s over) ],
      )
