-- ===== src/Tool/Race/Turn.antt =====
-- What every turn of the loop of a race keeps (services/tool/src/race.rs).
use mathlib.Core.Bool.{true≢false}
use ai_engineering_boilerpla.Base.{
  ℕ, suc, ◌+◌, ◌≤◌, ◌<◌, String, ◌≡◌, ◌⊎◌, inl, inr, refl, ap, sym, ◌∙◌, Bool, true, false, List,
  [], ◌∷◌, ◌++◌, length, length-append, leb, ◌==◌, arith,
}
use ai_engineering_boilerpla.Base.Results.{ok, err}
use ai_engineering_boilerpla.Tool.Race.{
  failed_with, timed_out, Ended, finished, elapsed, Racing, attempt, pick, absorb, refill, go_on,
  turn_on, turn,
}
use ai_engineering_boilerpla.Tool.Race.Counts.{
  one_if, tally, tally_taken, tally_failures, tally-append, tally_taken-append,
  tally_failures-append, tally-pick, length-pick,
}

module _ {T : Type 0} where
  -- Every operation has a verdict, runs or waits, and never two of these.
  abbrev pub Counted : List String → Racing T → Type 0
  Counted ops r =
      (n : String)
      → tally_taken n r.outcome.taken
          + tally_failures n r.outcome.failures
          + tally n r.running
          + tally n r.waiting
        ≡ tally n ops

  abbrev pub Short : ℕ → Racing T → Type 0
  Short quorum r =
      ((r.stopped ≡ true) × (length r.outcome.taken ≡ quorum))
      ⊎ ((r.stopped ≡ false) × (length r.outcome.taken < quorum))

  abbrev pub Busy : Racing T → Type 0
  Busy r = (r.stopped ≡ true) ⊎ (length r.waiting ≡ 0) ⊎ (1 ≤ length r.running)

  abbrev pub Tracked : ℕ → ℕ → List String → Racing T → Type 0
  Tracked quorum width ops r = Counted ops r × (length r.running ≤ width) × Short quorum r × Busy r

  abbrev pub load : Racing T → ℕ
  load r = length r.running + length r.waiting

  go_on-Tracked :
      (quorum width : ℕ) (ops : List String) (r : Racing T)
      → Counted ops r
      → length r.running < width
      → Short quorum r
      → Tracked quorum width ops (go_on r) × (load (go_on r) ≡ load r)
  unfolding refill
  go_on-Tracked quorum width ops r a b c = by_case r.stopped r.waiting refl refl
    where
      by_case :
          (s : Bool) (wait : List String)
          → r.stopped ≡ s
          → r.waiting ≡ wait
          → Tracked quorum width ops (refill s wait r) × (load (refill s wait r) ≡ load r)
      by_case true wait e f = ((a, omega arith, c, inl e), refl)
      by_case false [] e f = ((a, omega arith, c, inr (inl (ap length f))), refl)
      by_case false (w ∷ ws) e f =
          let g : length (r.running ++ w ∷ []) ≡ length r.running + 1 =
            length-append r.running (w ∷ []) in
          let k : length r.waiting ≡ suc (length ws) = ap length f in
          (
            (
              λ n. omega (arith, a n, tally-append n r.running (w ∷ []), ap (tally n) f),
              omega (arith, b, g),
              c,
              inr (inr (omega (arith, g))),
            ),
            omega (arith, g, k),
          )

  absorbed :
      (quorum timeout : ℕ) (r : Racing T) (name : String) (ended : Ended T)
      → r.stopped ≡ false
      → length r.outcome.taken < quorum
      → let r' = absorb quorum r (attempt timeout name ended) in
        ((n : String)
          → tally_taken n r'.outcome.taken + tally_failures n r'.outcome.failures
            ≡ tally_taken n r.outcome.taken
              + tally_failures n r.outcome.failures
              + one_if (name == n))
        × Short quorum r'
        × (r'.running ≡ r.running)
        × (r'.waiting ≡ r.waiting)
  unfolding absorb attempt
  absorbed quorum timeout r name (finished (ok value)) s h =
      let g : length (r.outcome.taken ++ (name, value) ∷ []) ≡ length r.outcome.taken + 1 =
        length-append r.outcome.taken ((name, value) ∷ []) in
      (
        (λ n. omega (arith, tally_taken-append n r.outcome.taken name value)),
        quorum_test quorum (length (r.outcome.taken ++ (name, value) ∷ [])) (omega (arith, h, g)),
        refl,
        refl,
      )
    where
      quorum_test : (q n : ℕ) → n ≤ q → ((leb q n ≡ true) × (n ≡ q)) ⊎ ((leb q n ≡ false) × (n < q))
      quorum_test q n h = ground arith
  absorbed quorum timeout r name (finished (err reason)) s h = (
    (λ n. omega (arith, tally_failures-append n r.outcome.failures (failed_with name reason))),
    inr (s, h),
    refl,
    refl,
  )
  absorbed quorum timeout r name elapsed s h = (
    (λ n. omega (arith, tally_failures-append n r.outcome.failures (timed_out name timeout))),
    inr (s, h),
    refl,
    refl,
  )

  pub turn-Tracked :
      (quorum timeout width : ℕ) (arrival : Racing T → ℕ × Ended T) (ops : List String)
      (r : Racing T)
      → Tracked quorum width ops r
      → Tracked quorum width ops (turn quorum timeout arrival r)
        × ((r.stopped ≡ true) ⊎ (load r ≡ 0) ⊎ (load (turn quorum timeout arrival r) + 1 ≡ load r))
  unfolding turn
  turn-Tracked quorum timeout width arrival ops r (a, b, c, d) =
      by_case r.stopped r.running refl refl
    where
      by_case :
          (s : Bool) (run : List String)
          → r.stopped ≡ s
          → r.running ≡ run
          → Tracked quorum width ops (turn_on quorum timeout arrival s run r)
            × ((r.stopped ≡ true)
                ⊎ (load r ≡ 0)
                ⊎ (load (turn_on quorum timeout arrival s run r) + 1 ≡ load r))
      by_case true run e f = ((a, b, c, d), inl e)
      by_case false [] e f =
          let k : length r.running ≡ 0 = ap length f in
          (
            (a, b, c, d),
            elim d [
              | inl g ↦ inl g
              | inr (inl g) ↦ inr (inl (omega (arith, g, k)))
              | inr (inr g) ↦ absurd (omega (arith, g, k))
            ],
          )
      by_case false (o ∷ os) e f =
          let i = (arrival r).0 in
          let name = (pick i o os).0 in
          let rest = (pick i o os).1 in
          let left : Racing T = record r { running = rest } in
          let k : length r.running ≡ suc (length os) = ap length f in
          let short : length r.outcome.taken < quorum = elim c [
            | inl (g, h) ↦ absurd (true≢false (sym g ∙ e))
            | inr (g, h) ↦ h
          ] in
          let (w, x, y, z) = absorbed quorum timeout left name (arrival r).1 e short in
          let next = absorb quorum left (attempt timeout name (arrival r).1) in
          let y' : length next.running ≡ length os = ap length y ∙ length-pick i o os in
          let z' : length next.waiting ≡ length r.waiting = ap length z in
          let (p, q) =
            go_on-Tracked quorum width ops next
              (λ n. omega (
                arith,
                a n,
                w n,
                ap (tally n) y,
                ap (tally n) z,
                ap (tally n) f,
                tally-pick n i o os,
              ))
              (omega (arith, b, k, y')) x in
          (p, inr (inr (omega (arith, q, k, y', z'))))
