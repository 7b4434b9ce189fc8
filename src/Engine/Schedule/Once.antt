-- ===== src/Engine/Schedule/Once.antt =====
-- A due schedule fires once (services/engine/src/scheduler.rs).
use ai_engineering_boilerpla.Base.{
  ℕ, ◌<◌, String, ◌≡◌, refl, ap, sym, subst, Bool, true, false, not, ◌&&◌, Option, none, some, List,
  [], ◌∷◌, All, arith, inl, inr, Bool-cases, Option-cases, eqb, is_some, of_some_eq, if◌then◌else◌,
}
use ai_engineering_boilerpla.Base.Results.{Result, ok, err}
use ai_engineering_boilerpla.Base.Tables.{first_by, update_where}
use ai_engineering_boilerpla.Base.Tables.Counts.{first_by-found}
use ai_engineering_boilerpla.EngineCore.Graph.{Instant}
use ai_engineering_boilerpla.Engine.Schedule.{
  ScheduleRow, DueSchedule, is_due, due_of, ok_or_none, advanced, claim_one_due,
}

later_than :
    (r : Result String Instant) (now : Instant)
    → ((t : Instant) → r ≡ ok t → now < t)
    → (t : Instant) → ok_or_none r ≡ some t
    → now < t
later_than (ok u) now h t e = h t (ap ok (of_some_eq e))
later_than (err x) now h t e = cc

advanced-not_due :
    (next : Option Instant) (now : Instant) (id : ℕ) (rows : List ScheduleRow)
    → ((t : Instant) → next ≡ some t → now < t)
    → All
        (λ r. r.id ≡ id → is_due now r ≡ false)
        (update_where (λ r. eqb r.id id) (advanced next now) rows)
unfolding update_where is_due advanced
advanced-not_due next now id [] h = tt
advanced-not_due none now id (r ∷ rs) h = (
  elim (Bool-cases (eqb r.id id)) [
    | inl t ↦ rw t (λ q. refl)
    | inr t ↦ rw t (λ q. absurd (ground (arith, q, t)))
  ],
  advanced-not_due none now id rs h,
)
advanced-not_due (some t) now id (r ∷ rs) h =
    let later : now < t = h t refl in
    (
      elim (Bool-cases (eqb r.id id)) [
        | inl u ↦ rw u (λ q. ground (arith, later))
        | inr u ↦ rw u (λ q. absurd (ground (arith, q, u)))
      ],
      advanced-not_due (some t) now id rs h,
    )

-- If the next time of an expression always lies after the instant it is asked for, a claim takes a
-- schedule that was enabled and due, and leaves it not due any more: what is claimed is not claimed
-- again for the same time.
pub claim_one_due-once :
    (next_fire_after : String → Instant → Result String Instant) (locked : ℕ → Bool) (now : Instant)
    (rows rows' : List ScheduleRow) (due : DueSchedule)
    → ((cron_expr : String) (t : Instant) → next_fire_after cron_expr now ≡ ok t → now < t)
    → claim_one_due next_fire_after locked now rows ≡ (some due, rows')
    → ((s : ScheduleRow) × (is_due now s ≡ true) × (due ≡ due_of s))
      × All (λ r. r.id ≡ due.id → is_due now r ≡ false) rows'
unfolding claim_one_due due_of
claim_one_due-once next_fire_after locked now rows rows' due later e =
    elim (Option-cases
      (first_by (λ s. is_due now s && not (locked s.id)) (λ s. s.next_run_at) rows)) [
        | inl g ↦ absurd (ground (arith, g, e))
        | inr (s, g) ↦
            let taken =
              (first_by-found (λ s. is_due now s && not (locked s.id)) (λ s. s.next_run_at) rows s
                g).0 in
            let next = ok_or_none (next_fire_after s.cron_expr now) in
            let got : (if is_some next then some (due_of s) else none) ≡ some due =
              ground (arith, g, e) in
            let left : update_where (λ r. eqb r.id s.id) (advanced next now) rows ≡ rows' =
              ground (arith, g, e) in
            let same : due_of s ≡ due = of_some_eq (ground (arith, got)) in
            (
              (s, ground (arith, taken), sym same),
              subst (λ n. All (λ r. r.id ≡ n → is_due now r ≡ false) rows') (ap (λ d. d.id) same)
                  (subst (All (λ r. r.id ≡ s.id → is_due now r ≡ false)) left (
                    advanced-not_due next now s.id rows
                      (later_than (next_fire_after s.cron_expr now) now (later s.cron_expr)))),
            )
      ]
