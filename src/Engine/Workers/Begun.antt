-- ===== src/Engine/Workers/Begun.antt =====
-- What the start of an execution does to the tables (services/engine/src/service.rs).
use ai_engineering_boilerpla.Base.{
  ◌≤◌, ◌≡◌, refl, ap, sym, ◌∙◌, subst, false, ◌||◌, Option, [], ◌∷◌, ◌++◌, All, arith, keep, any,
  length, length-append, ◌==◌, eq_refl, if◌then◌else◌, String,
}
use mathlib.Core.List.{append-nil}
use ai_engineering_boilerpla.Base.Results.{Result, ok, >>=-eq-ok, of_ok_eq}
use ai_engineering_boilerpla.Base.Integers.{ℤ, pos}
use ai_engineering_boilerpla.Json.{Json, Value}
use ai_engineering_boilerpla.EngineCore.LlmOutput.{Serde}
use ai_engineering_boilerpla.EngineCore.Graph.{Instant, GraphId, UserId}
use ai_engineering_boilerpla.EngineCore.Execution.{plain, ExecutionId}
use ai_engineering_boilerpla.Engine.Rows.{ExecutionRow, CheckpointRow, Database}
use ai_engineering_boilerpla.Engine.Wire.{Columns, checkpoint_to_row}
use ai_engineering_boilerpla.Engine.Store.{same_step, same_key, insert_checkpoint}
use ai_engineering_boilerpla.Engine.Store.Commit.{insert_checkpoint-ok}
use ai_engineering_boilerpla.Engine.Control.{in_db}
use ai_engineering_boilerpla.Engine.Service.{
  start_continuing, execution_input, first_checkpoint, first_row, continued,
}
use ai_engineering_boilerpla.Engine.Graphs.{load_graph}
use ai_engineering_boilerpla.Engine.Answers.{in_db-ok}
use ai_engineering_boilerpla.Engine.Workers.History.{
  history, has_row, Numbered, Numbered-append, Numbered-lacks, lacks-history, keep-append,
  has_row-append,
}
use ai_engineering_boilerpla.Engine.Workers.Kept.{Kept, same}

module _ (C : Columns) (J : Json) (S : Serde) where
  -- A new execution has one row and one checkpoint, which was not there.
  start_continuing-parts :
      (id : ExecutionId) (graph_id : GraphId) (version : Option ℤ) (sent : Result String Value)
      (user : Option UserId) (continues : Option ExecutionId) (now : Instant) (db db' : Database)
      → start_continuing C J S id graph_id version sent user continues now db ≡ ok db'
      → (r : ExecutionRow) × (c : CheckpointRow) × (r.id ≡ id)
        × (c.execution_id ≡ id)
        × (c.step ≡ pos 0)
        × (any (λ q. same_key c q) db.checkpoints ≡ false)
        × (db'.executions ≡ db.executions ++ r ∷ [])
        × (db'.checkpoints ≡ db.checkpoints ++ c ∷ [])
  unfolding start_continuing checkpoint_to_row
  start_continuing-parts id graph_id version sent user continues now db db' e =
      let (own, e1, h1) = >>=-eq-ok (execution_input sent) _ e in
      let (graph, e2, h2) = >>=-eq-ok (load_graph C graph_id version db) _ h1 in
      let entry = plain graph.1.entry ∷ [] in
      let c =
        checkpoint_to_row C now
          (first_checkpoint C id (continued C J S continues user own db) entry) in
      let (checkpoints, e3, h3) = >>=-eq-ok (in_db (insert_checkpoint c db.checkpoints)) _ h2 in
      let (a, b) =
        (insert_checkpoint-ok c db.checkpoints checkpoints).0
          (in_db-ok (insert_checkpoint c db.checkpoints) checkpoints e3) in
      (
        first_row C id graph.0 entry user now,
        c,
        refl,
        refl,
        refl,
        a,
        ap (λ (d : Database). d.executions) (sym (of_ok_eq h3)),
        ap (λ (d : Database). d.checkpoints) (sym (of_ok_eq h3)) ∙ b,
      )

  pub Kept-other :
      (id : ExecutionId) (graph_id : GraphId) (version : Option ℤ) (sent : Result String Value)
      (user : Option UserId) (continues : Option ExecutionId) (now : Instant) (db db' : Database)
      → start_continuing C J S id graph_id version sent user continues now db ≡ ok db'
      → (j : ExecutionId) → (id == j) ≡ false
      → Kept j db db'
  Kept-other id graph_id version sent user continues now db db' e j t =
      let (r, c, ri, ci, cs, a, b, d) =
        start_continuing-parts id graph_id version sent user continues now db db' e in
      same
        (ap (λ rs. any (λ r. r.id == j) rs) b
          ∙ has_row-append j db.executions r
          ∙ ap (λ i. has_row j db || (i == j)) ri
          ∙ ground (arith, t))
        (ap (λ cs. keep (λ q. q.execution_id == j) cs) d
          ∙ keep-append (λ q. q.execution_id == j) db.checkpoints (c ∷ [])
          ∙ ap (λ b. history j db ++ (if b then c ∷ [] else [])) (ap (λ i. i == j) ci ∙ t)
          ∙ append-nil (history j db))

  -- The checkpoints of a new execution end with its first one.
  pub first_checkpoint_of :
      (id : ExecutionId) (graph_id : GraphId) (version : Option ℤ) (sent : Result String Value)
      (user : Option UserId) (continues : Option ExecutionId) (now : Instant) (db db' : Database)
      → start_continuing C J S id graph_id version sent user continues now db ≡ ok db'
      → (c : CheckpointRow) × (history id db' ≡ history id db ++ c ∷ [])
        × (c.step ≡ pos 0)
        × All (λ q. same_step (pos 0) q.step ≡ false) (history id db)
  first_checkpoint_of id graph_id version sent user continues now db db' e =
      let (r, c, ri, ci, cs, a, b, d) =
        start_continuing-parts id graph_id version sent user continues now db db' e in
      (
        c,
        ap (λ cs. keep (λ q. q.execution_id == id) cs) d
            ∙ keep-append (λ q. q.execution_id == id) db.checkpoints (c ∷ [])
            ∙ ap (λ b. history id db ++ (if b then c ∷ [] else []))
                (ap (λ i. i == id) ci ∙ eq_refl id),
        cs,
        subst (λ i. All (λ q. same_step (pos 0) q.step ≡ false) (history i db)) ci
            (subst (λ n. All (λ q. same_step n q.step ≡ false) (history c.execution_id db)) cs
              (lacks-history c db.checkpoints a)),
      )

  pub added_first :
      (id : ExecutionId) (graph_id : GraphId) (version : Option ℤ) (sent : Result String Value)
      (user : Option UserId) (continues : Option ExecutionId) (now : Instant) (db db' : Database)
      → start_continuing C J S id graph_id version sent user continues now db ≡ ok db'
      → Numbered 0 (history id db)
      → Numbered 0 (history id db') × (1 ≤ length (history id db'))
  added_first id graph_id version sent user continues now db db' e h =
      let (c, k, cs, lacks) =
        first_checkpoint_of id graph_id version sent user continues now db db' e in
      let none_yet : length (history id db) ≡ 0 =
        omega (arith, Numbered-lacks 0 0 (history id db) h lacks (omega arith)) in
      (
        subst (Numbered 0) (sym k)
            (Numbered-append 0 (history id db) c h (cs ∙ ap pos (omega (arith, none_yet)))),
        omega (arith, ap length k, length-append (history id db) (c ∷ [])),
      )
