-- ===== src/Engine/Sweep/Only.antt =====
-- What a sweep deletes (services/engine/src/sweep.rs).
use ai_engineering_boilerpla.Base.{
  ℕ, zero, suc, ◌<◌, ◌↔◌, ◌⊎◌, ◌||◌, Option, none, some, ◌-◌, ◌≤◌, ◌≡◌, refl, Bool, true, false,
  not, ◌&&◌, List, [], ◌∷◌, All, Any, length, Option-cases, Bool-cases, inl, inr, arith,
}
use ai_engineering_boilerpla.Base.Tables.{first_by, delete_where}
use ai_engineering_boilerpla.Base.Tables.Counts.{first_by-found}
use ai_engineering_boilerpla.EngineCore.Graph.{Instant}
use ai_engineering_boilerpla.EngineCore.Execution.{ExecutionId}
use ai_engineering_boilerpla.Engine.Rows.{RowStatus, ExecutionRow, Database}
use ai_engineering_boilerpla.Engine.Sweep.{
  is_terminal, cutoff_of, among, is_over, oldest, without, sweep_terminal,
}

-- The statuses in which an execution has ended.
abbrev pub HasEnded : RowStatus → Type 0
HasEnded RowStatus.ready = ⊥
HasEnded RowStatus.running = ⊥
HasEnded RowStatus.waiting = ⊥
HasEnded RowStatus.completed = Unit
HasEnded RowStatus.failed = Unit
HasEnded RowStatus.cancelled = Unit

abbrev pub EndedBefore : Instant → ExecutionRow → Type 0
EndedBefore cutoff r = HasEnded r.status × (r.updated_at < cutoff)

-- The retention before now, or now for a retention out of chrono's range.
abbrev pub IsCutoff : (ℕ → Option ℕ) → ℕ → Instant → Instant → Type 0
IsCutoff from_std retention now cutoff =
    ((kept : ℕ) × (from_std retention ≡ some kept) × (cutoff ≡ now - kept))
    ⊎ ((from_std retention ≡ none) × (cutoff ≡ now))

-- An execution of the table that ended before the cutoff.
abbrev pub OverIn : Instant → List ExecutionRow → ExecutionId → Type 0
OverIn cutoff rows id =
    (r : ExecutionRow) × Any (λ b. b ≡ r) rows × (r.id ≡ id) × EndedBefore cutoff r

is_terminal_iff : (status : RowStatus) → (is_terminal status ≡ true) ↔ HasEnded status
unfolding is_terminal
is_terminal_iff RowStatus.ready = ((λ h. cc), (λ e. elim e [ ]))
is_terminal_iff RowStatus.running = ((λ h. cc), (λ e. elim e [ ]))
is_terminal_iff RowStatus.waiting = ((λ h. cc), (λ e. elim e [ ]))
is_terminal_iff RowStatus.completed = ((λ h. tt), (λ e. refl))
is_terminal_iff RowStatus.failed = ((λ h. tt), (λ e. refl))
is_terminal_iff RowStatus.cancelled = ((λ h. tt), (λ e. refl))

is_over_iff :
    (cutoff : Instant) (r : ExecutionRow) → (is_over cutoff r ≡ true) ↔ EndedBefore cutoff r
unfolding is_over
is_over_iff cutoff r = (
  (λ h. ((is_terminal_iff r.status).0 (ground (arith, h)), ground (arith, h))),
  (λ (e, b). let t = (is_terminal_iff r.status).1 e in ground (arith, t, b)),
)

cutoff_of-IsCutoff :
    (from_std : ℕ → Option ℕ) (retention : ℕ) (now : Instant)
    → IsCutoff from_std retention now (cutoff_of from_std retention now)
unfolding cutoff_of
cutoff_of-IsCutoff from_std retention now = elim (Option-cases (from_std retention)) [
  | inl n ↦ inr (n, rw n (omega arith))
  | inr (kept, e) ↦ inl (kept, e, rw e refl)
]

oldest-OverIn :
    (batch : ℕ) (cutoff : Instant) (taken : List ExecutionId) (rows : List ExecutionRow)
    → All (OverIn cutoff rows) (oldest batch cutoff taken rows)
      × (length (oldest batch cutoff taken rows) ≤ batch)
unfolding oldest
oldest-OverIn zero cutoff taken rows = (tt, omega arith)
oldest-OverIn (suc batch) cutoff taken rows =
    elim (Option-cases
      (first_by (λ r. is_over cutoff r && not (among taken r.id)) (λ r. r.updated_at) rows)) [
        | inl g ↦ rw (g, All, oldest) (tt, omega arith)
        | inr (r, g) ↦
            let (over, member) =
              first_by-found (λ r. is_over cutoff r && not (among taken r.id)) (λ r. r.updated_at)
                rows r g in
            let (a, c) = oldest-OverIn batch cutoff (r.id ∷ taken) rows in
            rw (g, All, oldest)
              (
                ((r, member, refl, (is_over_iff cutoff r).0 (ground (arith, over))), a),
                omega (arith, c),
              )
      ]

first_by-none :
    {A : Type 0} (p : A → Bool) (key : A → ℕ) (rows : List A)
    → first_by p key rows ≡ none
    → All (λ a. p a ≡ false) rows
unfolding first_by
first_by-none p key [] h = tt
first_by-none p key (r ∷ rs) h = elim (Bool-cases (p r)) [
  | inl t ↦ absurd (ground (arith, t, h))
  | inr f ↦ (f, first_by-none p key rs (ground (arith, f, h)))
]

-- A row that is over is among those taken before or among these.
abbrev TakenIn : Instant → List ExecutionId → List ExecutionId → ExecutionRow → Type 0
TakenIn cutoff taken ids r = (is_over cutoff r && not (among taken r.id || among ids r.id)) ≡ false

each : {A : Type 0} {P Q : A → Type 0} → ((a : A) → P a → Q a) → (xs : List A) → All P xs → All Q xs
each f [] h = tt
each f (x ∷ xs) (h, k) = (f x h, each f xs k)

-- Unless the batch is full, every row that is over is taken.
oldest-TakenIn :
    (batch : ℕ) (cutoff : Instant) (taken : List ExecutionId) (rows : List ExecutionRow)
    → (length (oldest batch cutoff taken rows) ≡ batch)
      ⊎ All (TakenIn cutoff taken (oldest batch cutoff taken rows)) rows
unfolding oldest
oldest-TakenIn zero cutoff taken rows = inl (omega arith)
oldest-TakenIn (suc batch) cutoff taken rows =
    elim (Option-cases
      (first_by (λ r. is_over cutoff r && not (among taken r.id)) (λ r. r.updated_at) rows)) [
        | inl g ↦
            rw (g, oldest)
              (inr (
                each {Q = TakenIn cutoff taken []} (λ q e. ground (arith, e)) rows
                  (first_by-none _ _ rows g)))
        | inr (r, g) ↦ elim (oldest-TakenIn batch cutoff (r.id ∷ taken) rows) [
          | inl full ↦ rw (g, oldest) (inl (omega (arith, full)))
          | inr k ↦
              rw (g, oldest)
                (inr (
                  each {Q = TakenIn cutoff taken (r.id ∷ oldest batch cutoff (r.id ∷ taken) rows)}
                    (λ q e. ground (arith, e)) rows k))
        ]
      ]

delete_where-none :
    {A : Type 0} (p : A → Bool) (xs : List A) → All (λ a. p a ≡ false) (delete_where p xs)
unfolding delete_where
delete_where-none p [] = tt
delete_where-none p (x ∷ xs) = elim (Bool-cases (p x)) [
  | inl e ↦ rw (e, All, delete_where) (delete_where-none p xs)
  | inr e ↦ rw (e, All, delete_where) (e, delete_where-none p xs)
]

left-NotEnded :
    (cutoff : Instant) (ids : List ExecutionId) (rows : List ExecutionRow)
    → All (TakenIn cutoff [] ids) rows
    → All (λ r. ¬ EndedBefore cutoff r) (delete_where (λ r. among ids r.id) rows)
unfolding delete_where
left-NotEnded cutoff ids [] h = tt
left-NotEnded cutoff ids (r ∷ rs) (h, k) =
    let rest = left-NotEnded cutoff ids rs k in
    elim (Bool-cases (among ids r.id)) [
      | inl t ↦ rw (t, All, delete_where) rest
      | inr f ↦
          let live : ¬ EndedBefore cutoff r =
            λ e. let o = (is_over_iff cutoff r).1 e in ground (arith, h, f, o) in
          rw (f, All, delete_where) (live, rest)
    ]

-- A sweep deletes at most a batch of executions, each of which is completed, failed or cancelled
-- since before the cutoff: the retention before now, or now itself for a retention that chrono
-- cannot hold. With them go exactly their checkpoints: what is left has neither their rows nor their
-- checkpoints, and is all the rest. Unless the batch is full, nothing that had ended is left.
pub sweep_terminal-OverIn :
    (from_std : ℕ → Option ℕ) (retention batch : ℕ) (now : Instant) (db : Database)
    → let db' = (sweep_terminal from_std retention batch now db).1 in
      (cutoff : Instant) × (ids : List ExecutionId) × IsCutoff from_std retention now cutoff
      × (length ids ≤ batch)
      × All (OverIn cutoff db.executions) ids
      × All (λ r. among ids r.id ≡ false) db'.executions
      × All (λ c. among ids c.execution_id ≡ false) db'.checkpoints
      × (db' ≡ record db {
        executions = delete_where (λ r. among ids r.id) db.executions;
        checkpoints = delete_where (λ c. among ids c.execution_id) db.checkpoints;
      })
      × ((length ids ≡ batch) ⊎ All (λ r. ¬ EndedBefore cutoff r) db'.executions)
unfolding sweep_terminal without
sweep_terminal-OverIn from_std retention batch now db =
    let cutoff = cutoff_of from_std retention now in
    let ids = oldest batch cutoff [] db.executions in
    let (a, b) = oldest-OverIn batch cutoff [] db.executions in
    (
      cutoff,
      ids,
      cutoff_of-IsCutoff from_std retention now,
      b,
      a,
      delete_where-none (λ r. among ids r.id) db.executions,
      delete_where-none (λ c. among ids c.execution_id) db.checkpoints,
      refl,
      elim (oldest-TakenIn batch cutoff [] db.executions) [
        | inl full ↦ inl full
        | inr k ↦ inr (left-NotEnded cutoff ids db.executions k)
      ],
    )
