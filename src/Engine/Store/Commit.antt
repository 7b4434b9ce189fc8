-- ===== src/Engine/Store/Commit.antt =====
-- When a commit succeeds, and what it changes (services/engine/src/store.rs).
use ai_engineering_boilerpla.Base.{
  ℕ, ◌+◌, ◌<◌, ◌≡◌, ◌↔◌, refl, ap, sym, ◌∙◌, String, false, Option, List, [], ◌∷◌, ◌++◌, map, any,
  min, All, Any, subst, arith,
}
use ai_engineering_boilerpla.Base.Results.{ok, >>=-eq-ok, of_ok_eq}
use ai_engineering_boilerpla.Base.Integers.{pos}
use ai_engineering_boilerpla.EngineCore.Graph.{Instant}
use ai_engineering_boilerpla.EngineCore.Execution.{
  ExecutionId, Execution, ExecutionEvent, checkpoint_schema_version,
}
use ai_engineering_boilerpla.Engine.Rows.{ExecutionRow, CheckpointRow, Database}
use ai_engineering_boilerpla.Engine.Wire.{
  i32_max, Columns, status_to_columns, checkpoint_to_row, event_to_row,
}
use ai_engineering_boilerpla.Engine.Lease.{release_lease}
use ai_engineering_boilerpla.Engine.Lease.Released.{
  IsHeld, Released, release_lease-IsHeld, release_lease-Released, Released-release_lease,
}
use ai_engineering_boilerpla.Engine.Store.Keys.{same_key-none}
use ai_engineering_boilerpla.Engine.Store.{
  same_key, insert_checkpoint, released_rows, checkpoint_of, commit_step,
}

pub insert_checkpoint-ok :
    (c : CheckpointRow) (rows r : List CheckpointRow)
    → (insert_checkpoint c rows ≡ ok r)
      ↔ ((any (λ q. same_key c q) rows ≡ false) × (r ≡ rows ++ c ∷ []))
unfolding insert_checkpoint
insert_checkpoint-ok c rows r = ((λ h. ground arith), (λ (a, b). ground arith))

released_rows-ok :
    (released : ℕ × List ExecutionRow) (r : List ExecutionRow)
    → (released_rows released ≡ ok r) ↔ ((0 < released.0) × (r ≡ released.1))
released_rows-ok (n, rows) r = ((λ h. ground arith), (λ (a, b). ground arith))

module _ (C : Columns) where
  abbrev pub row_of_step : ExecutionId → ℕ → Execution → Instant → CheckpointRow
  row_of_step id step x now = checkpoint_to_row C now (checkpoint_of C id step x)

  abbrev pub released :
      ExecutionId → Option String → Execution → Instant → Database → ℕ × List ExecutionRow
  released id owner x now db =
      release_lease id owner (status_to_columns C x.status).0 (status_to_columns C x.status).1
        (C.nodes_to_value x.current_nodes) now db.executions

  -- What the parts of the transaction leave.
  abbrev pub AppliedTo :
      ExecutionId
      → Option String
      → ℕ
      → Execution
      → List ExecutionEvent
      → Instant
      → Database
      → Database
      → Type 0
  AppliedTo id owner step x events now db db' =
      (any (λ q. same_key (row_of_step id step x now) q) db.checkpoints ≡ false)
      × (0 < (released id owner x now db).0)
      × (db' ≡ record db {
        executions = (released id owner x now db).1;
        checkpoints = db.checkpoints ++ row_of_step id step x now ∷ [];
        events = db.events ++ map (event_to_row C) events;
        wakes = db.wakes + 1;
      })

  pub commit_step-applied :
      (id : ExecutionId) (owner : Option String) (step : ℕ) (x : Execution)
      (events : List ExecutionEvent) (now : Instant) (db db' : Database)
      → (commit_step C id owner step x events now db ≡ ok db')
        ↔ AppliedTo id owner step x events now db db'
  unfolding commit_step
  commit_step-applied id owner step x events now db db' = (sound, complete)
    where
      sound :
          commit_step C id owner step x events now db ≡ ok db'
          → AppliedTo id owner step x events now db db'
      sound h =
          let (checkpoints, a, h1) =
            >>=-eq-ok (insert_checkpoint (row_of_step id step x now) db.checkpoints) _ h in
          let (executions, b, h2) = >>=-eq-ok (released_rows (released id owner x now db)) _ h1 in
          let (a1, a2) =
            (insert_checkpoint-ok (row_of_step id step x now) db.checkpoints checkpoints).0 a in
          let (b1, b2) = (released_rows-ok (released id owner x now db) executions).0 b in
          (
            a1,
            b1,
            sym (of_ok_eq h2) ∙ (λ i. record db {
              executions = b2 i;
              checkpoints = a2 i;
              events = db.events ++ map (event_to_row C) events;
              wakes = db.wakes + 1;
            }),
          )

      complete :
          AppliedTo id owner step x events now db db'
          → commit_step C id owner step x events now db ≡ ok db'
      complete (a, b, e) =
          rw
            ((insert_checkpoint-ok (row_of_step id step x now) db.checkpoints
                (db.checkpoints ++ row_of_step id step x now ∷ [])).1
              (a, refl))
            (rw
              ((released_rows-ok (released id owner x now db) (released id owner x now db).1).1
                (b, refl))
              (ap ok (sym e)))

  -- No checkpoint has the execution and the step.
  abbrev pub IsFree : ExecutionId → ℕ → CheckpointRow → Type 0
  IsFree id step q = ¬ ((q.execution_id ≡ id) × (q.step ≡ pos (min step i32_max)))

  -- The checkpoint of the step as a row.
  abbrev pub checkpoint_row : ExecutionId → ℕ → Execution → Instant → CheckpointRow
  checkpoint_row id step x now = record {
    execution_id = id;
    step = pos (min step i32_max);
    schema_version = pos checkpoint_schema_version;
    state = x.state;
    current_nodes = C.nodes_to_value x.current_nodes;
    created_at = now;
  }

  -- The rows after the transaction; every other table stays as it is.
  abbrev pub CommittedTo :
      ExecutionId
      → Option String
      → ℕ
      → Execution
      → List ExecutionEvent
      → Instant
      → Database
      → Database
      → Type 0
  CommittedTo id owner step x events now db db' =
      All (IsFree id step) db.checkpoints
      × Any (IsHeld id owner) db.executions
      × Released id owner (status_to_columns C x.status).0 (status_to_columns C x.status).1
          (C.nodes_to_value x.current_nodes) now db.executions db'.executions
      × (db' ≡ record db {
        executions = db'.executions;
        checkpoints = db.checkpoints ++ checkpoint_row id step x now ∷ [];
        events = db.events ++ map (event_to_row C) events;
        wakes = db.wakes + 1;
      })

  IsFree-iff :
      (id : ExecutionId) (step : ℕ) (x : Execution) (now : Instant) (qs : List CheckpointRow)
      → (any (λ q. same_key (row_of_step id step x now) q) qs ≡ false) ↔ All (IsFree id step) qs
  unfolding checkpoint_to_row
  IsFree-iff id step x now qs = same_key-none (row_of_step id step x now) (min step i32_max) refl qs

  applied_iff :
      (id : ExecutionId) (owner : Option String) (step : ℕ) (x : Execution)
      (events : List ExecutionEvent) (now : Instant) (db db' : Database)
      → AppliedTo id owner step x events now db db' ↔ CommittedTo id owner step x events now db db'
  unfolding checkpoint_to_row
  applied_iff id owner step x events now db db' = (forth, back)
    where
      forth :
          AppliedTo id owner step x events now db db'
          → CommittedTo id owner step x events now db db'
      forth (a, b, e) = (
        (IsFree-iff id step x now db.checkpoints).0 a,
        (release_lease-IsHeld id owner _ _ _ now db.executions).0 b,
        subst
            (λ (d : Database).
              Released id owner (status_to_columns C x.status).0 (status_to_columns C x.status).1
                (C.nodes_to_value x.current_nodes) now db.executions d.executions)
            (sym e) (release_lease-Released id owner _ _ _ now db.executions),
        e ∙ (λ i. record db {
          executions = sym (ap (λ (d : Database). d.executions) e) i;
          checkpoints = db.checkpoints ++ checkpoint_row id step x now ∷ [];
          events = db.events ++ map (event_to_row C) events;
          wakes = db.wakes + 1;
        }),
      )

      back :
          CommittedTo id owner step x events now db db'
          → AppliedTo id owner step x events now db db'
      back (a, b, r, e) = (
        (IsFree-iff id step x now db.checkpoints).1 a,
        (release_lease-IsHeld id owner _ _ _ now db.executions).1 b,
        e ∙ (λ i. record db {
          executions = Released-release_lease id owner _ _ _ now db.executions db'.executions r i;
          checkpoints = db.checkpoints ++ checkpoint_row id step x now ∷ [];
          events = db.events ++ map (event_to_row C) events;
          wakes = db.wakes + 1;
        }),
      )

  -- A commit succeeds exactly when no checkpoint has its execution and step and the row of the
  -- execution is held as the caller says (by its owner, or by nobody). It then appends the checkpoint
  -- and the events, wakes the next tick, and gives each row that is held the new status, wait and
  -- position and takes the lease off it; every other row stays as it was.
  pub commit_step-ok :
      (id : ExecutionId) (owner : Option String) (step : ℕ) (x : Execution)
      (events : List ExecutionEvent) (now : Instant) (db db' : Database)
      → (commit_step C id owner step x events now db ≡ ok db')
        ↔ CommittedTo id owner step x events now db db'
  commit_step-ok id owner step x events now db db' =
      let (sound, complete) = commit_step-applied id owner step x events now db db' in
      let (forth, back) = applied_iff id owner step x events now db db' in
      ((λ h. forth (sound h)), (λ c. complete (back c)))
