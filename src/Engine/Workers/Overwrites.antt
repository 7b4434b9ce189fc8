-- ===== src/Engine/Workers/Overwrites.antt =====
-- What a cancel does to the steps that were committed after its load
-- (services/engine/src/control.rs).
use ai_engineering_boilerpla.Base.{
  ℕ, ◌+◌, ◌≤◌, ◌≡◌, ap, sym, ◌∙◌, [], ◌∷◌, some, none, length, arith,
}
use ai_engineering_boilerpla.Base.Results.{ok, >>=-eq-ok, of_ok_eq}
use ai_engineering_boilerpla.Json.{Json}
use ai_engineering_boilerpla.EngineCore.Graph.{Instant}
use ai_engineering_boilerpla.EngineCore.LlmOutput.{Serde}
use ai_engineering_boilerpla.EngineCore.Execution.{
  ExecutionId, Execution, Stamps, cancelled, execution_cancelled, event,
}
use ai_engineering_boilerpla.Engine.Rows.{Database}
use ai_engineering_boilerpla.Engine.Wire.{Columns, i32_max}
use ai_engineering_boilerpla.Engine.Store.{latest, checkpoint_of}
use ai_engineering_boilerpla.Engine.Store.Commit.{commit_step-ok}
use ai_engineering_boilerpla.Engine.Store.ReadBack.{latest-committed}
use ai_engineering_boilerpla.Engine.Tick.{next_step_after}
use ai_engineering_boilerpla.Engine.Control.{load_idle, next_checkpoint_step, stored, cancel}
use ai_engineering_boilerpla.Engine.Control.Calls.{cancel-Called}
use ai_engineering_boilerpla.Engine.Answers.{stored-ok}
use ai_engineering_boilerpla.Engine.Workers.{System, Reach}
use ai_engineering_boilerpla.Engine.Workers.History.{history, Numbered}
use ai_engineering_boilerpla.Engine.Workers.Kept.{commit_step-has_row}
use ai_engineering_boilerpla.Engine.Workers.Current.{newest, latest-newest, newest-step}
use ai_engineering_boilerpla.Engine.Workers.Linear.{Reach-IsLinear}

module _ (C : Columns) where
  -- The next step of an execution that has a row is the number of its checkpoints.
  next_checkpoint_step-length :
      (id : ExecutionId) (n : ℕ) (db : Database)
      → next_checkpoint_step C id db ≡ ok n
      → Numbered 0 (history id db)
      → 1 ≤ length (history id db)
      → length (history id db) ≡ n
  unfolding next_checkpoint_step
  next_checkpoint_step-length id n db e num one =
      let (o, a, b) = >>=-eq-ok (stored (latest C id db.checkpoints)) _ e in
      let a' : newest C (history id db) ≡ ok o =
        sym (latest-newest C id db) ∙ stored-ok (latest C id db.checkpoints) o a in
      let (c, f, g) = newest-step C (history id db) o num one a' in
      let m : n ≡ c.step + 1 = sym (of_ok_eq b) ∙ ap (next_step_after C) f in omega (arith, g, m)

  -- Whatever was committed between the load of a cancel and its read of the next step: if the cancel
  -- succeeds, the newest checkpoint has the state and the position of its load.
  pub cancel_overwrites :
      (J : Json) (S : Serde) (s : System) (stamps : Stamps) (id : ExecutionId) (now : Instant)
      (at_load db : Database)
      → Reach C J S s
      → length (history id s.db) ≤ i32_max
      → cancel C J S stamps id now at_load s.db s.db ≡ ok db
      → (x : Execution) × (load_idle C id at_load ≡ ok x)
        × (latest C id db.checkpoints ≡ ok (some (checkpoint_of C id (length (history id s.db)) x)))
  cancel_overwrites J S s stamps id now at_load db r l e =
      let (x, (a, (n, b, d))) = cancel-Called C J S stamps id now at_load s.db s.db db e in
      let y : Execution = record x { status = cancelled } in
      let events = event stamps 0 y execution_cancelled ∷ [] in
      let done = (commit_step-ok C id none n y events now s.db db).1 d in
      let h = Reach-IsLinear C J S s r in
      let one = h.backed id (commit_step-has_row C id none n y events now s.db db done) in
      let k = next_checkpoint_step-length id n s.db b (h.numbered id) one in
      (
        x,
        a,
        latest-committed C id none n y events now s.db db done (h.numbered id) k
              (omega (arith, k, l))
            ∙ ap (λ i. ok (some (checkpoint_of C id i x))) (sym k),
      )
