-- ===== src/Engine/Workers/Current.antt =====
-- What ticks and calls hold against the checkpoints of their execution (services/engine/src/tick.rs, store.rs).
use ai_engineering_boilerpla.Base.{
  ℕ, ◌+◌, ◌≤◌, ◌≡◌, ◌⊎◌, inl, inr, ap, sym, ◌∙◌, subst, true, false, Option, some, List, [], ◌∷◌,
  All, arith, any, length, length-append, ◌==◌, if◌then◌else◌,
}
use ai_engineering_boilerpla.Base.Results.{Result, ok, err, ◌>>=◌, >>=-eq-ok, of_ok_eq}
use ai_engineering_boilerpla.Base.Tables.{last_by}
use ai_engineering_boilerpla.Json.{Value}
use ai_engineering_boilerpla.EngineCore.Graph.{Graph, node}
use ai_engineering_boilerpla.EngineCore.Execution.{ExecutionId, Execution, Checkpoint, ActiveNode}
use ai_engineering_boilerpla.Engine.Rows.{ExecutionRow, CheckpointRow, Database}
use ai_engineering_boilerpla.Engine.Wire.{
  Columns, WireFault, checkpoint_from_model, read, unsigned_or_zero, columns_to_status,
  counter_column,
}
use ai_engineering_boilerpla.Engine.Wire.RoundTrip.{checkpoint_from_model-step}
use ai_engineering_boilerpla.Engine.Store.{latest, read_back}
use ai_engineering_boilerpla.Engine.Tick.{
  Work, load_current_state, execution_from, position, next_step_after,
}
use ai_engineering_boilerpla.Engine.Nodes.{wired, is_subgraph, subgraph_not_wired}
use ai_engineering_boilerpla.Engine.Workers.{System}
use ai_engineering_boilerpla.Engine.Answers.{wired-ok}
use ai_engineering_boilerpla.Engine.Workers.History.{
  step_of, history, has_row, Numbered, newest-Numbered, last_by-keep,
}
use ai_engineering_boilerpla.Engine.Workers.Kept.{
  Kept, same, gone, grown, Kept-Numbered, Backed, Kept-Backed,
}

module _ (C : Columns) where
  abbrev pub newest : List CheckpointRow → Result WireFault (Option Checkpoint)
  newest cs = read_back C (last_by (λ q. true) step_of cs)

  pub latest-newest :
      (id : ExecutionId) (db : Database) → latest C id db.checkpoints ≡ newest (history id db)
  unfolding latest
  latest-newest id db = ap (read_back C) (last_by-keep (λ q. q.execution_id == id) db.checkpoints)

  -- The state and the position that were loaded are those of this checkpoint, and the step is next.
  abbrev pub IsBasedOn : Work → Checkpoint → Type 0
  IsBasedOn w c =
      (w.execution.state ≡ c.state)
      × (w.execution.current_nodes ≡ c.current_nodes)
      × (w.next_step ≡ c.step + 1)

  abbrev pub BasedOnNewest : Work → List CheckpointRow → Type 0
  BasedOnNewest w cs = (c : Checkpoint) × (newest cs ≡ ok (some c)) × IsBasedOn w c

  -- As long as nothing was committed after the load, the load is up to date.
  abbrev pub IsCurrent : Database → Work → Type 0
  IsCurrent db w =
      (has_row w.id db ≡ false)
      ⊎ ((w.next_step ≤ length (history w.id db))
          × (length (history w.id db) ≡ w.next_step → BasedOnNewest w (history w.id db)))

  abbrev pub IsPastStep : Database → ExecutionId × ℕ → Type 0
  IsPastStep db p = (has_row p.0 db ≡ false) ⊎ (p.1 ≤ length (history p.0 db))

  pub Kept-IsCurrent :
      (db db' : Database) (w : Work) → Kept w.id db db' → IsCurrent db w → IsCurrent db' w
  Kept-IsCurrent db db' w (gone a b) h = inl a
  Kept-IsCurrent db db' w (same a b) (inl h) = inl (a ∙ h)
  Kept-IsCurrent db db' w (same a b) (inr (h, k)) = inr (
      subst (λ cs. (w.next_step ≤ length cs) × (length cs ≡ w.next_step → BasedOnNewest w cs))
        (sym b) (h, k))
  Kept-IsCurrent db db' w (grown c a b e) (inl h) = inl (a ∙ h)
  Kept-IsCurrent db db' w (grown c a b e) (inr (h, k)) =
      let more : length (history w.id db') ≡ length (history w.id db) + 1 =
        ap length b ∙ length-append (history w.id db) (c ∷ []) in
      inr (omega (arith, h, more), (λ q. absurd (omega (arith, h, more, q))))

  pub Kept-IsPastStep :
      (db db' : Database) (p : ExecutionId × ℕ)
      → Kept p.0 db db'
      → IsPastStep db p
      → IsPastStep db' p
  Kept-IsPastStep db db' p (gone a b) h = inl a
  Kept-IsPastStep db db' p (same a b) (inl h) = inl (a ∙ h)
  Kept-IsPastStep db db' p (same a b) (inr h) = inr (omega (arith, h, ap length b))
  Kept-IsPastStep db db' p (grown c a b e) (inl h) = inl (a ∙ h)
  Kept-IsPastStep db db' p (grown c a b e) (inr h) =
      inr (omega (arith, h, ap length b, length-append (history p.0 db) (c ∷ [])))

  pub All-moved :
      {A : Type 0} (P Q : A → Type 0) (xs : List A) → ((a : A) → P a → Q a) → All P xs → All Q xs
  All-moved P Q [] f h = tt
  All-moved P Q (x ∷ xs) f (a, b) = (f x a, All-moved P Q xs f b)

  pub record IsLinear (s : System) : Type 0 where
    pub numbered : (id : ExecutionId) → Numbered 0 (history id s.db)
    pub backed : (id : ExecutionId) → Backed id s.db
    pub works_current : All (IsCurrent s.db) s.works
    pub steps_past : All (IsPastStep s.db) s.steps

  pub moved :
      (s : System) (db : Database)
      → ((id : ExecutionId) → Kept id s.db db)
      → IsLinear s
      → IsLinear (record s { db = db })
  moved s db k h = record {
    numbered = λ id. Kept-Numbered id s.db db (k id) (h.numbered id);
    backed = λ id. Kept-Backed id s.db db (k id) (h.backed id);
    works_current =
        All-moved (IsCurrent s.db) (IsCurrent db) s.works (λ w. Kept-IsCurrent s.db db w (k w.id))
          h.works_current;
    steps_past =
        All-moved (IsPastStep s.db) (IsPastStep db) s.steps (λ p. Kept-IsPastStep s.db db p (k p.0))
          h.steps_past;
  }

  -- A history that is not empty is read back with the step before its length.
  pub newest-step :
      (cs : List CheckpointRow) (o : Option Checkpoint)
      → Numbered 0 cs
      → 1 ≤ length cs
      → newest cs ≡ ok o
      → (c : Checkpoint) × (o ≡ some c) × (length cs ≡ c.step + 1)
  unfolding checkpoint_from_model read
  newest-step [] o h l e = absurd (omega (arith, l))
  newest-step (d ∷ ds) o h l e =
      let (r, f, g) = newest-Numbered 0 d ds h in
      let e' : (checkpoint_from_model C r >>= λ c. ok (some c)) ≡ ok o =
        sym (ap (read_back C) f) ∙ e in
      let (c, a, b) = >>=-eq-ok (checkpoint_from_model C r) _ e' in
      let k : c.step ≡ length ds =
        checkpoint_from_model-step C r c a ∙ ap unsigned_or_zero g ∙ omega arith in
      (c, sym (of_ok_eq b), omega (arith, k))

  execution_from-position :
      (id : ExecutionId) (row : ExecutionRow) (at : Value × List ActiveNode) (x : Execution)
      → execution_from C id row at ≡ ok x
      → (x.state, x.current_nodes) ≡ at
  unfolding execution_from
  execution_from-position id row at x e =
      let (status, e1, h1) = >>=-eq-ok (columns_to_status C row.status row.wait_kind) _ e in
      let (version, e2, h2) = >>=-eq-ok (counter_column row.graph_version "graph_version") _ h1 in
      let (iteration, e3, h3) = >>=-eq-ok (counter_column row.iteration "iteration") _ h2 in
      let (limit, e4, h4) = >>=-eq-ok (counter_column row.max_iterations "max_iterations") _ h3 in
      let (budget, e5, h5) = >>=-eq-ok (read (C.budget_from_value row.budget)) _ h4 in
      ap (λ (y : Execution). (y.state, y.current_nodes)) (sym (of_ok_eq h5))

  -- What `load_current_state` gives, of the checkpoint that it reads.
  pub load_current_state-parts :
      (id : ExecutionId) (row : ExecutionRow) (graph : Graph) (db : Database) (x : Execution)
      (n : ℕ)
      → load_current_state C id row graph db ≡ ok (x, n)
      → (o : Option Checkpoint) × (latest C id db.checkpoints ≡ ok o)
        × ((x.state, x.current_nodes) ≡ position C o row)
        × (n ≡ next_step_after C o)
  unfolding load_current_state
  load_current_state-parts id row graph db x n e =
      let (o, e1, h1) = >>=-eq-ok (wired (latest C id db.checkpoints)) _ e in
      let (y, e2, h2) =
        >>=-eq-ok
          (if any (λ a. is_subgraph (node graph a.node)) (position C o row).1
            then err subgraph_not_wired
            else wired (execution_from C id row (position C o row)))
          _ h1 in
      let k : wired (execution_from C id row (position C o row)) ≡ ok y = ground arith in
      let k' = wired-ok (execution_from C id row (position C o row)) y k in
      let h3 = of_ok_eq h2 in
      (
        o,
        wired-ok (latest C id db.checkpoints) o e1,
        ap (λ (p : Execution × ℕ). (p.0.state, p.0.current_nodes)) (sym h3)
            ∙ execution_from-position id row (position C o row) y k',
        ap (λ (p : Execution × ℕ). p.1) (sym h3),
      )
