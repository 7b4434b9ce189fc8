-- ===== src/Engine/Workers/Kept.antt =====
-- What each access to the database does to the history of one execution (services/engine/src).
use ai_engineering_boilerpla.Base.{
  ℕ, ◌+◌, ◌≤◌, min, ◌≡◌, inl, inr, refl, ap, sym, ◌∙◌, subst, Bool, true, false, not, ◌&&◌, Option,
  some, List, [], ◌∷◌, ◌++◌, arith, keep, any, length, length-append, ◌==◌, eq_iff, if◌then◌else◌,
  Bool-cases, String, Option-cases, of_some_pair_eq,
}
use mathlib.Core.List.{append-nil}
use ai_engineering_boilerpla.Base.Results.{ok}
use ai_engineering_boilerpla.Base.Integers.{pos}
use ai_engineering_boilerpla.Base.Tables.{update_where, first_by}
use ai_engineering_boilerpla.EngineCore.Graph.{Instant}
use ai_engineering_boilerpla.EngineCore.Execution.{ExecutionId, Execution, ExecutionEvent}
use ai_engineering_boilerpla.Engine.Rows.{ExecutionRow, CheckpointRow, Database}
use ai_engineering_boilerpla.Engine.Wire.{Columns, checkpoint_to_row, i32_max}
use ai_engineering_boilerpla.Engine.Lease.{
  claim_one_ready, claimable, leased_to, release_lease, is_owner,
}
use ai_engineering_boilerpla.Engine.Store.{commit_step}
use ai_engineering_boilerpla.Engine.Store.Commit.{commit_step-applied, row_of_step}
use ai_engineering_boilerpla.Engine.Sweep.{among, without}
use ai_engineering_boilerpla.Engine.Workers.History.{
  history, has_row, Numbered, Numbered-append, Numbered-lacks, lacks-history, keep-append,
  has_row-update, has_row-delete, history-delete, has_row-count,
}

-- Nothing happens to an execution, or it is swept, or its next checkpoint is added.
pub data Kept (id : ExecutionId) (db db' : Database) : Type 0 where
  same : has_row id db' ≡ has_row id db → history id db' ≡ history id db → Kept id db db'
  gone : has_row id db' ≡ false → history id db' ≡ [] → Kept id db db'
  grown :
      (c : CheckpointRow)
      → has_row id db' ≡ has_row id db
      → history id db' ≡ history id db ++ c ∷ []
      → c.step ≡ pos (length (history id db))
      → Kept id db db'

pub Kept-Numbered :
    (id : ExecutionId) (db db' : Database)
    → Kept id db db'
    → Numbered 0 (history id db)
    → Numbered 0 (history id db')
Kept-Numbered id db db' (same a b) h = subst (Numbered 0) (sym b) h
Kept-Numbered id db db' (gone a b) h = subst (Numbered 0) (sym b) tt
Kept-Numbered id db db' (grown c a b e) h =
    subst (Numbered 0) (sym b) (Numbered-append 0 (history id db) c h (e ∙ ap pos (omega arith)))

-- An execution that has a row has a checkpoint.
abbrev pub Backed : ExecutionId → Database → Type 0
Backed id db = has_row id db ≡ true → 1 ≤ length (history id db)

pub Kept-Backed :
    (id : ExecutionId) (db db' : Database) → Kept id db db' → Backed id db → Backed id db'
Kept-Backed id db db' (same a b) h r = subst (λ cs. 1 ≤ length cs) (sym b) (h (sym a ∙ r))
Kept-Backed id db db' (gone a b) h r = absurd (cc)
Kept-Backed id db db' (grown c a b e) h r =
    omega (arith, ap length b, length-append (history id db) (c ∷ []))

pub Kept-rows :
    (db : Database) (rows : List ExecutionRow)
    → ((id : ExecutionId) → any (λ r. r.id == id) rows ≡ has_row id db)
    → (id : ExecutionId) → Kept id db (record db { executions = rows })
Kept-rows db rows h id = same (h id) refl

module _ (C : Columns) where
  pub Kept-claim_one_ready :
      (locked : ExecutionId → Bool) (owner : String) (lease_for : ℕ) (now : Instant) (db : Database)
      (id : ExecutionId) (rows : List ExecutionRow)
      → claim_one_ready C locked owner lease_for now db.executions ≡ some (id, rows)
      → (j : ExecutionId) → Kept j db (record db { executions = rows })
  unfolding claim_one_ready
  Kept-claim_one_ready locked owner lease_for now db id rows e =
      elim (Option-cases (
        first_by (λ row. claimable C now row && not (locked row.id)) (λ row. row.updated_at)
          db.executions)) [
            | inl g ↦ absurd (ground (arith, g))
            | inr (row, g) ↦
                let k : ◌≡◌ {A = Option (ExecutionId × List ExecutionRow)}
                    (some (
                      row.id,
                      update_where (λ r. r.id == row.id) (leased_to C owner (now + lease_for) now)
                          db.executions,
                    ))
                    (some (id, rows)) =
                  ground (arith, g, e) in
                Kept-rows db rows (λ j.
                  subst (λ rs. any (λ r. r.id == j) rs ≡ has_row j db) (of_some_pair_eq k).1
                    (has_row-update j (λ r. r.id == row.id)
                      (leased_to C owner (now + lease_for) now) db.executions (λ r. refl)))
          ]

  pub Kept-commit_step :
      (id : ExecutionId) (owner : Option String) (n : ℕ) (x : Execution)
      (events : List ExecutionEvent) (now : Instant) (db db' : Database)
      → commit_step C id owner n x events now db ≡ ok db'
      → Numbered 0 (history id db)
      → n ≤ length (history id db)
      → (j : ExecutionId) → Kept j db db'
  unfolding checkpoint_to_row release_lease
  Kept-commit_step id owner n x events now db db' e h l j =
      let (a, b, d) = (commit_step-applied C id owner n x events now db db').0 e in
      let c = row_of_step C id n x now in
      let k : length (history id db) ≤ min n i32_max = omega (
        arith,
        Numbered-lacks 0 (min n i32_max) (history id db) h (lacks-history c db.checkpoints a)
            (omega arith),
      ) in
      let rows : has_row j db' ≡ has_row j db =
        ap (has_row j) d ∙ has_row-update j _ _ db.executions (λ r. refl) in
      let grows : history j db' ≡ history j db ++ keep (λ q. q.execution_id == j) (c ∷ []) =
        ap (history j) d ∙ keep-append (λ q. q.execution_id == j) db.checkpoints (c ∷ []) in
      elim (Bool-cases (id == j)) [
        | inl t ↦ grown c rows (grows ∙ ap (λ b. history j db ++ (if b then c ∷ [] else [])) t) (
            ap pos (omega (arith, k, l))
            ∙ ap (λ i. pos (length (history i db))) ((eq_iff id j).0 t))
        | inr t ↦ same rows (
            grows
            ∙ ap (λ b. history j db ++ (if b then c ∷ [] else [])) t
            ∙ append-nil (history j db))
      ]

  -- The row of a commit that succeeded.
  pub commit_step-has_row :
      (id : ExecutionId) (owner : Option String) (n : ℕ) (x : Execution)
      (events : List ExecutionEvent) (now : Instant) (db db' : Database)
      → commit_step C id owner n x events now db ≡ ok db'
      → has_row id db ≡ true
  unfolding release_lease
  commit_step-has_row id owner n x events now db db' e =
      let (a, b, d) = (commit_step-applied C id owner n x events now db db').0 e in
      has_row-count id (λ r. is_owner owner r.lease_owner) db.executions b

pub Kept-without :
    (ids : List ExecutionId) (db : Database) (j : ExecutionId) → Kept j db (without ids db)
unfolding without
Kept-without ids db j = elim (Bool-cases (among ids j)) [
  | inl t ↦
      gone (has_row-delete j ids db.executions ∙ ground (arith, t))
        (history-delete j ids db.checkpoints ∙ ground (arith, t))
  | inr t ↦
      same (has_row-delete j ids db.executions ∙ ground (arith, t))
        (history-delete j ids db.checkpoints ∙ ground (arith, t))
]
