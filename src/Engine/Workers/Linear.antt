-- ===== src/Engine/Workers/Linear.antt =====
-- A tick commits onto the checkpoint that it loaded (services/engine/src/tick.rs, store.rs).
use ai_engineering_boilerpla.Base.{
  ℕ, ◌≤◌, ◌≡◌, ◌≢◌, inl, inr, sym, ◌∙◌, subst, false, Option, some, List, [], ◌∷◌, All, arith,
  length, ◌==◌, eq_iff, Bool-cases, String,
}
use mathlib.Core.Bool.{true≢false}
use ai_engineering_boilerpla.Base.Results.{Result, ok}
use ai_engineering_boilerpla.Base.Integers.{ℤ}
use ai_engineering_boilerpla.Base.Tables.Laws.{All-Any}
use ai_engineering_boilerpla.Json.{Json, Value}
use ai_engineering_boilerpla.EngineCore.Graph.{GraphId, Instant, UserId}
use ai_engineering_boilerpla.EngineCore.LlmOutput.{Serde}
use ai_engineering_boilerpla.EngineCore.Execution.{
  ExecutionId, Execution, ExecutionEvent, Checkpoint,
}
use ai_engineering_boilerpla.Engine.Rows.{Database}
use ai_engineering_boilerpla.Engine.Wire.{Columns}
use ai_engineering_boilerpla.Engine.Lease.{expire_abandoned_leases}
use ai_engineering_boilerpla.Engine.Store.{commit_step, latest}
use ai_engineering_boilerpla.Engine.Tick.{Work, lease_duration}
use ai_engineering_boilerpla.Engine.Service.{start_continuing}
use ai_engineering_boilerpla.Engine.Sweep.{sweep_terminal}
use ai_engineering_boilerpla.Engine.Workers.{
  System, Among, Step, registers, starts, claims, finds, loads, commits, reads, persists, expires,
  sweeps, Reach, start, later,
}
use ai_engineering_boilerpla.Engine.Workers.History.{history, Numbered}
use ai_engineering_boilerpla.Engine.Workers.Kept.{
  Kept-Numbered, Kept-Backed, Kept-claim_one_ready, commit_step-has_row,
}
use ai_engineering_boilerpla.Engine.Workers.Current.{
  latest-newest, IsBasedOn, IsCurrent, IsPastStep, IsLinear, moved, Kept-IsCurrent, Kept-IsPastStep,
}
use ai_engineering_boilerpla.Engine.Workers.Begun.{Kept-other, added_first}
use ai_engineering_boilerpla.Engine.Workers.Moves.{
  loaded-IsCurrent, read-IsPastStep, commit_step-next, Kept-registers, Kept-commits, Kept-persists,
  Kept-expires, Kept-sweeps,
}

differs : (i j : String) → j ≢ i → (i == j) ≡ false
differs i j n = elim (Bool-cases (i == j)) [
  | inl t ↦ absurd (n (sym ((eq_iff i j).0 t)))
  | inr t ↦ t
]

All-moved_given :
    {A : Type 0} (G P Q : A → Type 0) (xs : List A)
    → ((a : A) → G a → P a → Q a)
    → All G xs
    → All P xs
    → All Q xs
All-moved_given G P Q [] f g h = tt
All-moved_given G P Q (x ∷ xs) f (a, b) (c, d) = (f x a c, All-moved_given G P Q xs f b d)

module _ (C : Columns) where
  module _ (J : Json) (S : Serde) where
    started-IsLinear :
        (s : System) (id : ExecutionId) (graph_id : GraphId) (version : Option ℤ)
        (sent : Result String Value) (user : Option UserId) (continues : Option ExecutionId)
        (now : Instant) (db : Database)
        → All (λ (w : Work). w.id ≢ id) s.works
        → All (λ (p : ExecutionId × ℕ). p.0 ≢ id) s.steps
        → start_continuing C J S id graph_id version sent user continues now s.db ≡ ok db
        → IsLinear C s
        → IsLinear C (record s { db = db })
    started-IsLinear s id graph_id version sent user continues now db a b e h =
        let other = Kept-other C J S id graph_id version sent user continues now s.db db e in
        let own =
          added_first C J S id graph_id version sent user continues now s.db db e (h.numbered id) in
        record {
          numbered = λ j. elim (Bool-cases (id == j)) [
            | inl t ↦ subst (λ i. Numbered 0 (history i db)) ((eq_iff id j).0 t) own.0
            | inr t ↦ Kept-Numbered j s.db db (other j t) (h.numbered j)
          ];
          backed = λ j. elim (Bool-cases (id == j)) [
            | inl t ↦ λ r. subst (λ i. 1 ≤ length (history i db)) ((eq_iff id j).0 t) own.1
            | inr t ↦ Kept-Backed j s.db db (other j t) (h.backed j)
          ];
          works_current =
              All-moved_given (λ (w : Work). w.id ≢ id) (IsCurrent C s.db) (IsCurrent C db) s.works
                (λ w n. Kept-IsCurrent C s.db db w (other w.id (differs id w.id n))) a
                h.works_current;
          steps_past =
              All-moved_given (λ (p : ExecutionId × ℕ). p.0 ≢ id) (IsPastStep C s.db)
                (IsPastStep C db) s.steps
                (λ p n. Kept-IsPastStep C s.db db p (other p.0 (differs id p.0 n))) b h.steps_past;
        }

    Step-IsLinear : {s t : System} → Step C J S s t → IsLinear C s → IsLinear C t
    Step-IsLinear {s = s} (registers id sent now {v} {db} e) h =
        moved C s db (Kept-registers C id sent now v s.db db e) h
    Step-IsLinear {s = s} (starts id graph version sent user continues now {db} a b e) h =
        started-IsLinear s id graph version sent user continues now db a b e h
    Step-IsLinear {s = s} (claims locked owner now {id} {rows} e) h =
        moved C s (record s.db { executions = rows })
          (Kept-claim_one_ready C locked owner lease_duration now s.db id rows e) h
    Step-IsLinear (finds id e) h = record {
      numbered = h.numbered;
      backed = h.backed;
      works_current = h.works_current;
      steps_past = h.steps_past;
    }
    Step-IsLinear {s = s} (loads row graph {x} {n} m e) h = record {
      numbered = h.numbered;
      backed = h.backed;
      works_current = (
        loaded-IsCurrent C s.db row graph x n e (h.numbered row.id) (h.backed row.id),
        h.works_current,
      );
      steps_past = h.steps_past;
    }
    Step-IsLinear {s = s} (commits owner w next events now {db} m e) h =
        moved C s db (Kept-commits C owner w next events now s db m e h) h
    Step-IsLinear {s = s} (reads id {n} e) h = record {
      numbered = h.numbered;
      backed = h.backed;
      works_current = h.works_current;
      steps_past = (read-IsPastStep C s.db id n e (h.numbered id) (h.backed id), h.steps_past);
    }
    Step-IsLinear {s = s} (persists id n next events now {db} m e) h =
        moved C s db (Kept-persists C id n next events now s db m e h) h
    Step-IsLinear {s = s} (expires now) h =
        moved C s (record s.db { executions = (expire_abandoned_leases now s.db.executions).1 })
          (Kept-expires C now s.db) h
    Step-IsLinear {s = s} (sweeps from_std retention batch now) h =
        moved C s (sweep_terminal from_std retention batch now s.db).1
          (Kept-sweeps C from_std retention batch now s.db) h

    pub Reach-IsLinear : (s : System) → Reach C J S s → IsLinear C s
    Reach-IsLinear s start = record {
      numbered = λ id. tt;
      backed = λ id e. cc;
      works_current = tt;
      steps_past = tt;
    }
    Reach-IsLinear t (later r st) = Step-IsLinear st (Reach-IsLinear _ r)

    -- Whatever ticks, calls and daemons did in between, and though the lease that it claimed may have
    -- been lost and claimed anew: when a tick commits, the checkpoint that it loaded is still the
    -- newest one of its execution, so the step that is committed is a step of the stored state.
    pub tick_commits_on_newest :
        (s : System) (owner : String) (w : Work) (next : Execution) (events : List ExecutionEvent)
        (now : Instant) (db : Database)
        → Reach C J S s
        → Among w s.works
        → commit_step C w.id (some owner) w.next_step next events now s.db ≡ ok db
        → (c : Checkpoint) × (latest C w.id s.db.checkpoints ≡ ok (some c)) × IsBasedOn C w c
    tick_commits_on_newest s owner w next events now db r m e =
        let h = Reach-IsLinear s r in
        based (All-Any (IsCurrent C s.db) w s.works m h.works_current) (
          commit_step-next C w.id (some owner) w.next_step next events now s.db db e
            (h.numbered w.id))
      where
        based :
            IsCurrent C s.db w
            → length (history w.id s.db) ≤ w.next_step
            → (c : Checkpoint) × (latest C w.id s.db.checkpoints ≡ ok (some c)) × IsBasedOn C w c
        based (inl g) l = absurd (
            true≢false (
              sym (commit_step-has_row C w.id (some owner) w.next_step next events now s.db db e)
              ∙ g))
        based (inr (g, k)) l =
            let (c, a, b) = k (omega (arith, g, l)) in (c, latest-newest C w.id s.db ∙ a, b)
