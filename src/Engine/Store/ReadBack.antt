-- ===== src/Engine/Store/ReadBack.antt =====
-- What is read of an execution after a commit (services/engine/src/store.rs, service.rs).
use ai_engineering_boilerpla.Base.{
  ℕ, ◌+◌, ◌≤◌, ◌≡◌, refl, ap, ◌∙◌, Bool, true, false, ◌&&◌, Option, none, some, List, [], ◌∷◌, ◌++◌,
  arith, find, length, ltb, ◌==◌, eq_refl, if◌then◌else◌, Bool-cases, inl, inr, String, of_some_eq,
}
use ai_engineering_boilerpla.Base.Results.{ok, ◌>>=◌}
use ai_engineering_boilerpla.Base.Integers.{pos}
use ai_engineering_boilerpla.Base.Tables.{last_by, greatest, update_where}
use ai_engineering_boilerpla.EngineCore.Budget.{serialize, deserialize}
use ai_engineering_boilerpla.EngineCore.Graph.{Instant}
use ai_engineering_boilerpla.EngineCore.Execution.{ExecutionId, Execution, ExecutionEvent}
use ai_engineering_boilerpla.Engine.Rows.{ExecutionRow, CheckpointRow, Database}
use ai_engineering_boilerpla.Engine.Wire.{
  Columns, unsigned_or_zero, i32_max, status_to_columns, counter_column, checkpoint_to_row, read,
}
use ai_engineering_boilerpla.Engine.Wire.RoundTrip.{status_round_trip, checkpoint_round_trip}
use ai_engineering_boilerpla.Engine.Lease.{is_owner, release_lease}
use ai_engineering_boilerpla.Engine.Store.{commit_step, latest, read_back, checkpoint_of}
use ai_engineering_boilerpla.Engine.Store.Commit.{commit_step-applied, row_of_step}
use ai_engineering_boilerpla.Engine.Tick.{execution_from}
use ai_engineering_boilerpla.Engine.Control.{get_execution, execution_row, to_execution}
use ai_engineering_boilerpla.Engine.Service.{default_budget, default_max_iterations}
use ai_engineering_boilerpla.Engine.Workers.History.{
  step_of, history, Numbered, Numbered-append, last_by-keep, keep-append,
}
use ai_engineering_boilerpla.Engine.Workers.Fresh.{IsFreshRow}

Numbered-last :
    (n : ℕ) (cs : List CheckpointRow) (c : CheckpointRow)
    → Numbered n (cs ++ c ∷ [])
    → step_of c ≡ n + length cs
Numbered-last n [] c (a, b) = ap unsigned_or_zero a ∙ omega arith
Numbered-last n (d ∷ ds) c (a, b) = Numbered-last (n + 1) ds c b ∙ omega arith

-- The checkpoint that was inserted last is the one that `order_by_desc` finds.
last_by-append :
    (n : ℕ) (cs : List CheckpointRow) (c : CheckpointRow)
    → Numbered n (cs ++ c ∷ [])
    → last_by (λ q. true) step_of (cs ++ c ∷ []) ≡ some c
unfolding last_by
last_by-append n [] c h = refl
last_by-append n (d ∷ ds) c (a, b) =
    let k : ltb (step_of d) (step_of c) ≡ true =
      (λ i. ltb (unsigned_or_zero (a i)) (Numbered-last (n + 1) ds c b i)) ∙ ground (arith) in
    ap (λ o. some (greatest step_of d o)) (last_by-append (n + 1) ds c b)
    ∙ (λ i. some (if k i then c else d))

find-update :
    (id : ExecutionId) (q : ExecutionRow → Bool) (f : ExecutionRow → ExecutionRow)
    (rows : List ExecutionRow) (row : ExecutionRow)
    → find (λ r. r.id == id) rows ≡ some row
    → q row ≡ true
    → ((r : ExecutionRow) → (f r).id ≡ r.id)
    → find (λ r. r.id == id) (update_where (λ r. r.id == id && q r) f rows) ≡ some (f row)
unfolding update_where
find-update id q f [] row e t k = cc
find-update id q f (r ∷ rs) row e t k = elim (Bool-cases (r.id == id)) [
  | inl u ↦
      let same : r ≡ row = of_some_eq (ground (arith, u, e)) in
      let hit : (r.id == id && q r) ≡ true = ap (λ b. b && q r) u ∙ ap q same ∙ t in
      let there : ((f r).id == id) ≡ true = ap (λ i. i == id) (k r) ∙ u in
      rw hit (rw there (ap (λ x. some (f x)) same))
  | inr u ↦
      let rest : find (λ r. r.id == id) rs ≡ some row = ground (arith, u, e) in
      let miss : (r.id == id && q r) ≡ false = ap (λ b. b && q r) u in
      rw miss (rw u (find-update id q f rs row rest t k))
]

module _ (C : Columns) where
  -- The execution that a commit hands on: what was committed, but the counters of the row.
  abbrev pub reread : ExecutionRow → ℕ → Execution → Execution
  reread row version x = record {
    id = row.id;
    graph_id = row.graph_id;
    graph_version = version;
    user_id = row.user_id;
    status = x.status;
    current_nodes = x.current_nodes;
    state = x.state;
    iteration = 0;
    max_iterations = default_max_iterations;
    deadline = row.deadline;
    budget = default_budget;
  }

  released_row : ExecutionRow → Execution → Instant → ExecutionRow
  released_row row x now = record row {
    status = (status_to_columns C x.status).0;
    wait_kind = (status_to_columns C x.status).1;
    current_nodes = C.nodes_to_value x.current_nodes;
    lease_owner = none;
    lease_until = none;
    updated_at = now;
  }

  execution_from-released :
      (row : ExecutionRow) (version : ℕ) (x : Execution) (now : Instant)
      → row.graph_version ≡ pos version
      → IsFreshRow C row
      → execution_from C row.id (released_row row x now) (x.state, x.current_nodes)
        ≡ ok (reread row version x)
  unfolding execution_from released_row counter_column read default_budget serialize deserialize
  execution_from-released row version x now v (a, b, c) =
      let e1 : counter_column row.graph_version "graph_version" ≡ ok version =
        ap (λ i. counter_column i "graph_version") v in
      let e2 : counter_column row.iteration "iteration" ≡ ok 0 =
        ap (λ i. counter_column i "iteration") a in
      let e3 : counter_column row.max_iterations "max_iterations" ≡ ok default_max_iterations =
        ap (λ i. counter_column i "max_iterations") b in
      let e4 : read (C.budget_from_value row.budget) ≡ ok default_budget =
        ap (λ u. read (C.budget_from_value u)) c ∙ ap read (C.budget-round_trip default_budget) in
      rw (status_round_trip C x.status) (rw e1 (rw e2 (rw e3 (rw e4 refl))))

  -- The newest checkpoint after a commit is the committed one.
  pub latest-committed :
      (id : ExecutionId) (owner : Option String) (n : ℕ) (x : Execution)
      (events : List ExecutionEvent) (now : Instant) (db db' : Database)
      → commit_step C id owner n x events now db ≡ ok db'
      → Numbered 0 (history id db)
      → length (history id db) ≡ n
      → n ≤ i32_max
      → latest C id db'.checkpoints ≡ ok (some (checkpoint_of C id n x))
  unfolding latest checkpoint_to_row
  latest-committed id owner n x events now db db' e h l m =
      let (a, b, d) = (commit_step-applied C id owner n x events now db db').0 e in
      let c = row_of_step C id n x now in
      let grows : history id db' ≡ history id db ++ c ∷ [] =
        ap (history id) d
        ∙ keep-append (λ q. q.execution_id == id) db.checkpoints (c ∷ [])
        ∙ ap (λ b. history id db ++ (if b then c ∷ [] else [])) (eq_refl id) in
      let newest : last_by (λ q. q.execution_id == id) step_of db'.checkpoints ≡ some c =
        last_by-keep (λ q. q.execution_id == id) db'.checkpoints
        ∙ ap (last_by (λ q. true) step_of) grows
        ∙ last_by-append 0 (history id db) c
            (Numbered-append 0 (history id db) c h (ap pos (omega (arith, l, m)))) in
      ap (read_back C) newest
      ∙ ap (λ r. r >>= λ k. ok (some k))
          (checkpoint_round_trip C now (checkpoint_of C id n x) refl m)

  -- After a commit of the next step onto the row that is found, as its lease holder, a read of the
  -- execution gives the status, the state and the position that were committed, and everything else
  -- as the row has it: iteration 0 and the whole default budget, whatever the committed execution
  -- had counted and spent.
  pub get_execution-commit_step :
      (id : ExecutionId) (owner : Option String) (x : Execution) (events : List ExecutionEvent)
      (now : Instant) (db db' : Database) (row : ExecutionRow) (version : ℕ)
      → commit_step C id owner (length (history id db)) x events now db ≡ ok db'
      → Numbered 0 (history id db)
      → length (history id db) ≤ i32_max
      → find (λ r. r.id == id) db.executions ≡ some row
      → is_owner owner row.lease_owner ≡ true
      → row.graph_version ≡ pos version
      → IsFreshRow C row
      → get_execution C id db' ≡ ok (reread row version x)
  unfolding get_execution execution_row to_execution release_lease released_row
  get_execution-commit_step id owner x events now db db' row version e h l f t v k =
      let (a, b, d) =
        (commit_step-applied C id owner (length (history id db)) x events now db db').0 e in
      let found : find (λ r. r.id == id) db'.executions ≡ some (released_row row x now) =
        ap (λ (y : Database). find (λ r. r.id == id) y.executions) d
        ∙ find-update id (λ r. is_owner owner r.lease_owner) (λ r. released_row r x now)
            db.executions row f t (λ r. refl) in
      rw found (
        rw (latest-committed id owner (length (history id db)) x events now db db' e h refl l)
          (rw (execution_from-released row version x now v k) refl))
