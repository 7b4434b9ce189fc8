-- ===== src/Engine/Workers/Moves.antt =====
-- The accesses that write, one by one (services/engine/src).
use ai_engineering_boilerpla.Base.{
  ℕ, ◌+◌, ◌≤◌, min, ◌≡◌, inl, inr, refl, ap, sym, ◌∙◌, subst, Option, none, some, List, [], arith,
  length, Bool-cases, String,
}
use mathlib.Core.Bool.{true≢false}
use ai_engineering_boilerpla.Base.Results.{Result, ok, >>=-eq-ok, of_ok_eq}
use ai_engineering_boilerpla.Base.Integers.{ℤ}
use ai_engineering_boilerpla.Base.Tables.Laws.{All-Any}
use ai_engineering_boilerpla.Json.{Value}
use ai_engineering_boilerpla.EngineCore.Graph.{Graph, GraphId, Instant}
use ai_engineering_boilerpla.EngineCore.Execution.{
  ExecutionId, Execution, ExecutionEvent, ActiveNode,
}
use ai_engineering_boilerpla.Engine.Rows.{ExecutionRow, Database}
use ai_engineering_boilerpla.Engine.Wire.{Columns, checkpoint_to_row, i32_max}
use ai_engineering_boilerpla.Engine.Lease.{expire_abandoned_leases}
use ai_engineering_boilerpla.Engine.Store.{commit_step, latest}
use ai_engineering_boilerpla.Engine.Store.Commit.{commit_step-applied, row_of_step}
use ai_engineering_boilerpla.Engine.Tick.{Work, load_current_state, position, next_step_after}
use ai_engineering_boilerpla.Engine.Control.{persist, next_checkpoint_step, stored}
use ai_engineering_boilerpla.Engine.Graphs.{register_graph, insert_next_version, validated_graph}
use ai_engineering_boilerpla.Engine.Sweep.{cutoff_of, sweep_terminal, oldest}
use ai_engineering_boilerpla.Engine.Workers.{System, Among}
use ai_engineering_boilerpla.Engine.Answers.{in_db-ok, stored-ok}
use ai_engineering_boilerpla.Engine.Workers.History.{
  history, has_row, Numbered, Numbered-lacks, lacks-history, has_row-update,
}
use ai_engineering_boilerpla.Engine.Workers.Kept.{
  Kept, same, Backed, Kept-rows, Kept-commit_step, commit_step-has_row, Kept-without,
}
use ai_engineering_boilerpla.Engine.Workers.Current.{
  newest, latest-newest, IsCurrent, IsPastStep, IsLinear, newest-step, load_current_state-parts,
}

module _ (C : Columns) where
  -- What is loaded of an execution without a row does not count, and else it is up to date.
  pub loaded-IsCurrent :
      (db : Database) (row : ExecutionRow) (graph : Graph) (x : Execution) (n : ℕ)
      → load_current_state C row.id row graph db ≡ ok (x, n)
      → Numbered 0 (history row.id db)
      → Backed row.id db
      → IsCurrent C db (record { id = row.id; graph = graph; execution = x; next_step = n })
  loaded-IsCurrent db row graph x n e num back = elim (Bool-cases (has_row row.id db)) [
    | inr t ↦ inl t
    | inl t ↦
        let (o, a, b, k) = load_current_state-parts C row.id row graph db x n e in
        let a' : newest C (history row.id db) ≡ ok o = sym (latest-newest C row.id db) ∙ a in
        let (c, f, g) = newest-step C (history row.id db) o num (back t) a' in
        let m : n ≡ c.step + 1 = k ∙ ap (next_step_after C) f in
        let at : (x.state, x.current_nodes) ≡ (c.state, c.current_nodes) =
          b ∙ ap (λ o. position C o row) f in
        inr (
          omega (arith, g, m),
          (λ q. (
            c,
            a' ∙ ap ok f,
            (
              ap (λ (p : Value × List ActiveNode). p.0) at,
              ap (λ (p : Value × List ActiveNode). p.1) at,
              m,
            ),
          )),
        )
  ]

  pub read-IsPastStep :
      (db : Database) (id : ExecutionId) (n : ℕ)
      → next_checkpoint_step C id db ≡ ok n
      → Numbered 0 (history id db)
      → Backed id db
      → IsPastStep C db (id, n)
  unfolding next_checkpoint_step
  read-IsPastStep db id n e num back = elim (Bool-cases (has_row id db)) [
    | inr t ↦ inl t
    | inl t ↦
        let (o, a, b) = >>=-eq-ok (stored (latest C id db.checkpoints)) _ e in
        let a' : newest C (history id db) ≡ ok o =
          sym (latest-newest C id db) ∙ stored-ok (latest C id db.checkpoints) o a in
        let (c, f, g) = newest-step C (history id db) o num (back t) a' in
        let m : n ≡ c.step + 1 = sym (of_ok_eq b) ∙ ap (next_step_after C) f in
        inr (omega (arith, g, m))
  ]

  -- The step of a commit that succeeds is not behind the history.
  pub commit_step-next :
      (id : ExecutionId) (owner : Option String) (n : ℕ) (x : Execution)
      (events : List ExecutionEvent) (now : Instant) (db db' : Database)
      → commit_step C id owner n x events now db ≡ ok db'
      → Numbered 0 (history id db)
      → length (history id db) ≤ n
  unfolding checkpoint_to_row
  commit_step-next id owner n x events now db db' e h =
      let (a, b, d) = (commit_step-applied C id owner n x events now db db').0 e in
      omega (
        arith,
        Numbered-lacks 0 (min n i32_max) (history id db) h
            (lacks-history (row_of_step C id n x now) db.checkpoints a) (omega arith),
      )

  not_past :
      (id : ExecutionId) (owner : Option String) (n : ℕ) (x : Execution)
      (events : List ExecutionEvent) (now : Instant) (db db' : Database)
      → commit_step C id owner n x events now db ≡ ok db'
      → IsPastStep C db (id, n)
      → n ≤ length (history id db)
  not_past id owner n x events now db db' e (inl h) =
      absurd (true≢false (sym (commit_step-has_row C id owner n x events now db db' e) ∙ h))
  not_past id owner n x events now db db' e (inr h) = h

  current-IsPastStep :
      (db : Database) (w : Work) → IsCurrent C db w → IsPastStep C db (w.id, w.next_step)
  current-IsPastStep db w (inl h) = inl h
  current-IsPastStep db w (inr (h, k)) = inr h

  -- What each access that writes does to one execution.
  pub Kept-registers :
      (id : GraphId) (sent : Result String Graph) (now : Instant) (v : GraphId × ℤ)
      (db db' : Database)
      → register_graph C id sent now db ≡ ok (v, db')
      → (j : ExecutionId) → Kept j db db'
  unfolding register_graph insert_next_version
  Kept-registers id sent now v db db' e j =
      let (definition, e1, h1) = >>=-eq-ok (validated_graph sent) _ e in
      subst (λ (p : (GraphId × ℤ) × Database). Kept j db p.1) (of_ok_eq h1) (same refl refl)

  pub Kept-commits :
      (owner : String) (w : Work) (next : Execution) (events : List ExecutionEvent) (now : Instant)
      (s : System) (db : Database)
      → Among w s.works
      → commit_step C w.id (some owner) w.next_step next events now s.db ≡ ok db
      → IsLinear C s
      → (j : ExecutionId) → Kept j s.db db
  Kept-commits owner w next events now s db m e h =
      Kept-commit_step C w.id (some owner) w.next_step next events now s.db db e (h.numbered w.id) (
        not_past w.id (some owner) w.next_step next events now s.db db e
          (current-IsPastStep s.db w (All-Any (IsCurrent C s.db) w s.works m h.works_current)))

  pub Kept-persists :
      (id : ExecutionId) (n : ℕ) (next : Execution) (events : List ExecutionEvent) (now : Instant)
      (s : System) (db : Database)
      → Among (id, n) s.steps
      → persist C id n (next, events) now s.db ≡ ok db
      → IsLinear C s
      → (j : ExecutionId) → Kept j s.db db
  unfolding persist
  Kept-persists id n next events now s db m e h =
      let e' = in_db-ok (commit_step C id none n next events now s.db) db e in
      Kept-commit_step C id none n next events now s.db db e' (h.numbered id) (
        not_past id none n next events now s.db db e'
          (All-Any (IsPastStep C s.db) (id, n) s.steps m h.steps_past))

  pub Kept-expires :
      (now : Instant) (db : Database) (j : ExecutionId)
      → Kept j db (record db { executions = (expire_abandoned_leases now db.executions).1 })
  unfolding expire_abandoned_leases
  Kept-expires now db j =
      Kept-rows db (expire_abandoned_leases now db.executions).1
        (λ id. has_row-update id _ _ db.executions (λ r. refl)) j

  pub Kept-sweeps :
      (from_std : ℕ → Option ℕ) (retention batch : ℕ) (now : Instant) (db : Database)
      (j : ExecutionId)
      → Kept j db (sweep_terminal from_std retention batch now db).1
  unfolding sweep_terminal
  Kept-sweeps from_std retention batch now db j =
      Kept-without (oldest batch (cutoff_of from_std retention now) [] db.executions) db j
