-- ===== src/Engine/Workers/Log.antt =====
-- What the checkpoints of one execution promise, whoever writes them (services/engine/src/store.rs,
-- service.rs, sweep.rs).
use ai_engineering_boilerpla.Base.{
  map, ◌≡◌, inl, inr, ap, sym, ◌∙◌, subst, Option, List, [], ◌∷◌, ◌++◌, ◌==◌, eq_iff, Bool-cases,
  String,
}
use mathlib.Core.List.{map-append}
use ai_engineering_boilerpla.Base.Results.{Result, ok}
use ai_engineering_boilerpla.Base.Integers.{ℤ}
use ai_engineering_boilerpla.Json.{Json, Value}
use ai_engineering_boilerpla.EngineCore.Graph.{GraphId, Instant, UserId}
use ai_engineering_boilerpla.EngineCore.LlmOutput.{Serde}
use ai_engineering_boilerpla.EngineCore.Execution.{ExecutionId}
use ai_engineering_boilerpla.Engine.Rows.{CheckpointRow, Database}
use ai_engineering_boilerpla.Engine.Wire.{Columns}
use ai_engineering_boilerpla.Engine.Lease.{expire_abandoned_leases}
use ai_engineering_boilerpla.Engine.Tick.{lease_duration}
use ai_engineering_boilerpla.Engine.Service.{start_continuing}
use ai_engineering_boilerpla.Engine.Sweep.{sweep_terminal}
use ai_engineering_boilerpla.Engine.Workers.{
  System, Step, registers, starts, claims, finds, loads, commits, reads, persists, expires, sweeps,
  Reach, later,
}
use ai_engineering_boilerpla.Engine.Workers.History.{history, Numbered}
use ai_engineering_boilerpla.Engine.Workers.Kept.{Kept, same, gone, grown, Kept-claim_one_ready}
use ai_engineering_boilerpla.Engine.Workers.Current.{IsLinear}
use ai_engineering_boilerpla.Engine.Workers.Begun.{Kept-other, first_checkpoint_of}
use ai_engineering_boilerpla.Engine.Workers.Linear.{Reach-IsLinear}
use ai_engineering_boilerpla.Engine.Workers.Moves.{
  Kept-registers, Kept-commits, Kept-persists, Kept-expires, Kept-sweeps,
}

-- The abstract view: a log of the states and positions of one execution. It grows at its end or is
-- dropped as a whole.
pub data LogStep (log : List (Value × Value)) : List (Value × Value) → Type 0 where
  stays : LogStep log log
  adds : (state nodes : Value) → LogStep log (log ++ (state, nodes) ∷ [])
  drops : LogStep log []

abbrev pub entry_of : CheckpointRow → Value × Value
entry_of c = (c.state, c.current_nodes)

unfoldable pub log : ExecutionId → Database → List (Value × Value)
log id db = map entry_of (history id db)

added :
    (id : ExecutionId) (db db' : Database) (c : CheckpointRow)
    → history id db' ≡ history id db ++ c ∷ []
    → LogStep (log id db) (log id db')
unfolding log
added id db db' c e =
    subst (LogStep (log id db))
      (sym (ap (map entry_of) e ∙ map-append entry_of (history id db) (c ∷ [])))
      (adds c.state c.current_nodes)

Kept-LogStep :
    (id : ExecutionId) (db db' : Database) → Kept id db db' → LogStep (log id db) (log id db')
unfolding log
Kept-LogStep id db db' (same a b) = subst (LogStep (log id db)) (sym (ap (map entry_of) b)) stays
Kept-LogStep id db db' (gone a b) = subst (LogStep (log id db)) (sym (ap (map entry_of) b)) drops
Kept-LogStep id db db' (grown c a b e) = added id db db' c b

module _ (C : Columns) (J : Json) (S : Serde) where
  started-LogStep :
      (id : ExecutionId) (graph_id : GraphId) (version : Option ℤ) (sent : Result String Value)
      (user : Option UserId) (continues : Option ExecutionId) (now : Instant) (db db' : Database)
      → start_continuing C J S id graph_id version sent user continues now db ≡ ok db'
      → (j : ExecutionId) → LogStep (log j db) (log j db')
  started-LogStep id graph_id version sent user continues now db db' e j =
      elim (Bool-cases (id == j)) [
        | inl t ↦
            let (c, k, cs, lacks) =
              first_checkpoint_of C J S id graph_id version sent user continues now db db' e in
            let q = (eq_iff id j).0 t in
            added j db db' c (subst (λ i. history i db' ≡ history i db ++ c ∷ []) q k)
        | inr t ↦
            Kept-LogStep j db db'
              (Kept-other C J S id graph_id version sent user continues now db db' e j t)
      ]

  -- Each step of the system refines a step of the log: for every execution, the checkpoints stay as
  -- they are, gain one entry at their end or are dropped, and they are numbered from 0 on.
  pub Step-LogStep :
      (s t : System)
      → Reach C J S s
      → Step C J S s t
      → (id : ExecutionId) → LogStep (log id s.db) (log id t.db) × Numbered 0 (history id t.db)
  Step-LogStep s t r st id = (
    by_step s t st (Reach-IsLinear C J S s r) id,
    (Reach-IsLinear C J S t (later r st)).numbered id,
  )
    where
      by_step :
          (s t : System)
          → Step C J S s t
          → IsLinear C s
          → (id : ExecutionId) → LogStep (log id s.db) (log id t.db)
      by_step s _ (starts id graph version sent user continues now {db} a b e) h j =
          started-LogStep id graph version sent user continues now s.db db e j
      by_step s _ (registers id sent now {v} {db} e) h j =
          Kept-LogStep j s.db db (Kept-registers C id sent now v s.db db e j)
      by_step s _ (claims locked owner now {id} {rows} e) h j =
          Kept-LogStep j s.db (record s.db { executions = rows })
            (Kept-claim_one_ready C locked owner lease_duration now s.db id rows e j)
      by_step s _ (finds id e) h j = stays
      by_step s _ (loads row graph m e) h j = stays
      by_step s _ (commits owner w next events now {db} m e) h j =
          Kept-LogStep j s.db db (Kept-commits C owner w next events now s db m e h j)
      by_step s _ (reads id e) h j = stays
      by_step s _ (persists id n next events now {db} m e) h j =
          Kept-LogStep j s.db db (Kept-persists C id n next events now s db m e h j)
      by_step s _ (expires now) h j =
          Kept-LogStep j s.db
            (record s.db { executions = (expire_abandoned_leases now s.db.executions).1 })
            (Kept-expires C now s.db j)
      by_step s _ (sweeps from_std retention batch now) h j =
          Kept-LogStep j s.db (sweep_terminal from_std retention batch now s.db).1
            (Kept-sweeps C from_std retention batch now s.db j)
