-- ===== src/Engine/Control/Calls.antt =====
-- What the calls commit, whatever happens between their accesses (services/engine/src/control.rs).
use ai_engineering_boilerpla.Base.{
  ℕ, String, ◌≡◌, refl, ap, sym, subst, true, none, some, List, [], ◌∷◌, arith, inl, inr,
  Bool-cases, if◌then◌else◌, of_some_eq, >>=-eq-some,
}
use ai_engineering_boilerpla.Base.Results.{Result, ok, err, >>=-eq-ok, of_ok_eq}
use ai_engineering_boilerpla.Json.{Json, Value, as_object}
use ai_engineering_boilerpla.EngineCore.Graph.{Instant, WaitKind}
use ai_engineering_boilerpla.EngineCore.LlmOutput.{Serde}
use ai_engineering_boilerpla.EngineCore.Execution.{
  ExecutionId, Execution, ExecutionEvent, Stamps, Status, ready, running, waiting, cancelled,
  execution_cancelled, event,
}
use ai_engineering_boilerpla.EngineCore.Step.{interrupt}
use ai_engineering_boilerpla.Engine.Rows.{Database}
use ai_engineering_boilerpla.Engine.Wire.{Columns}
use ai_engineering_boilerpla.Engine.Store.{commit_step}
use ai_engineering_boilerpla.Engine.Store.Commit.{commit_step-ok, CommittedTo}
use ai_engineering_boilerpla.Engine.Answers.{in_db-ok, parsed-ok, or_panic-ok}
use ai_engineering_boilerpla.Engine.Control.{
  EngineError, load_idle, next_checkpoint_step, persist, parsed, or_panic, interrupt_execution,
  resume, cancel, is_waiting_status, with_field, resume_event_state_key, not_waiting,
}

waits : (s : Status) → is_waiting_status s ≡ true → (on : WaitKind) × (s ≡ waiting on)
waits ready e = cc
waits (waiting on) e = (on, refl)
waits running e = cc
waits Status.completed e = cc
waits Status.failed e = cc
waits cancelled e = cc

idle_waits :
    (id : ExecutionId) (x y : Execution)
    → ◌≡◌ {A = Result EngineError Execution}
        (if is_waiting_status x.status then ok x else err (not_waiting id x.status))
        (ok y)
    → (is_waiting_status x.status ≡ true) × (y ≡ x)
idle_waits id x y e = elim (Bool-cases (is_waiting_status x.status)) [
  | inl t ↦ (t, sym (of_ok_eq {E = EngineError} (ground (arith, t, e))))
  | inr t ↦ absurd (ground (arith, t, e))
]

module _ (C : Columns) (J : Json) (S : Serde) where
  -- A call whose load found `x` and whose read found `n` committed `y` as the step `n`.
  abbrev pub Called :
      ExecutionId
      → Execution
      → Execution
      → List ExecutionEvent
      → Instant
      → Database
      → Database
      → Database
      → Database
      → Type 0
  Called id x y events now at_load at_read at_commit db =
      (load_idle C id at_load ≡ ok x)
      × ((n : ℕ) × (next_checkpoint_step C id at_read ≡ ok n)
          × CommittedTo C id none n y events now at_commit db)

  persist-Called :
      (id : ExecutionId) (n : ℕ) (y : Execution) (events : List ExecutionEvent) (now : Instant)
      (at_commit db : Database)
      → persist C id n (y, events) now at_commit ≡ ok db
      → CommittedTo C id none n y events now at_commit db
  unfolding persist
  persist-Called id n y events now at_commit db e =
      (commit_step-ok C id none n y events now at_commit db).0
        (in_db-ok (commit_step C id none n y events now at_commit) db e)

  -- A cancel that succeeds commits the state that its load found, as the step that its later read
  -- found, with the status cancelled and one event.
  pub cancel-Called :
      (stamps : Stamps) (id : ExecutionId) (now : Instant) (at_load at_read at_commit db : Database)
      → cancel C J S stamps id now at_load at_read at_commit ≡ ok db
      → (x : Execution) × Called id x
          (record x { status = cancelled })
          (event stamps 0 (record x { status = cancelled }) execution_cancelled ∷ [])
          now
          at_load
          at_read
          at_commit
          db
  unfolding cancel
  cancel-Called stamps id now at_load at_read at_commit db e =
      let (x, a, h1) = >>=-eq-ok (load_idle C id at_load) _ e in
      let (n, b, h2) = >>=-eq-ok (next_checkpoint_step C id at_read) _ h1 in
      (
        x,
        (
          a,
          (
            n,
            b,
            persist-Called id n (record x { status = cancelled })
                (event stamps 0 (record x { status = cancelled }) execution_cancelled ∷ []) now
                at_commit db h2,
          ),
        ),
      )

  -- A resume that succeeds found the execution waiting, and commits it ready, with the event under
  -- its key in the state that its load found.
  pub resume-Called :
      (id : ExecutionId) (sent : Result String Value) (now : Instant)
      (at_load at_read at_commit db : Database)
      → resume C J S id sent now at_load at_read at_commit ≡ ok db
      → (x : Execution) × (v : Value) × (on : WaitKind) × (sent ≡ ok v)
        × (x.status ≡ waiting on)
        × Called id x
            (record x { state = with_field J x.state resume_event_state_key v; status = ready })
            []
            now
            at_load
            at_read
            at_commit
            db
  unfolding resume
  resume-Called id sent now at_load at_read at_commit db e =
      let (v, a, h1) = >>=-eq-ok (parsed sent) _ e in
      let (x, b, h2) = >>=-eq-ok (load_idle C id at_load) _ h1 in
      let (idle, c, h3) =
        >>=-eq-ok (if is_waiting_status x.status then ok x else err (not_waiting id x.status)) _
          h2 in
      let (n, d, h4) = >>=-eq-ok (next_checkpoint_step C id at_read) _ h3 in
      let (w, same) = idle_waits id x idle c in
      let (on, f) = waits x.status w in
      let y : Execution = record x {
        state = with_field J x.state resume_event_state_key v;
        status = ready;
      } in
      let h5 : persist C id n (y, []) now at_commit ≡ ok db =
        subst
          (λ (i : Execution).
            persist C id n
              (
                record i { state = with_field J i.state resume_event_state_key v; status = ready },
                [],
              )
              now at_commit
            ≡ ok db)
          same h4 in
      (x, v, on, parsed-ok sent v a, f, (b, (n, d, persist-Called id n y [] now at_commit db h5)))

  interrupt-ready :
      (stamps : Stamps) (x y : Execution) (v : Value) (ev : ExecutionEvent)
      → interrupt J S stamps x v ≡ some (y, ev)
      → y.status ≡ ready
  unfolding interrupt
  interrupt-ready stamps x y v ev e =
      let (m, a, h) = >>=-eq-some (as_object x.state) _ e in
      ap (λ (p : Execution × ExecutionEvent). p.0.status) (sym (of_some_eq h))

  -- An interrupt that succeeds commits what `interrupt` makes of the execution that its load found,
  -- and so commits it ready, whatever status it had, even if it had ended.
  pub interrupt_execution-Called :
      (stamps : Stamps) (id : ExecutionId) (sent : Result String Value) (now : Instant)
      (at_load at_read at_commit db : Database)
      → interrupt_execution C J S stamps id sent now at_load at_read at_commit ≡ ok db
      → (x : Execution) × (y : Execution) × (v : Value) × (ev : ExecutionEvent) × (sent ≡ ok v)
        × (interrupt J S stamps x v ≡ some (y, ev))
        × (y.status ≡ ready)
        × Called id x y (ev ∷ []) now at_load at_read at_commit db
  unfolding interrupt_execution
  interrupt_execution-Called stamps id sent now at_load at_read at_commit db e =
      let (v, a, h1) = >>=-eq-ok (parsed sent) _ e in
      let (x, b, h2) = >>=-eq-ok (load_idle C id at_load) _ h1 in
      let (n, d, h3) = >>=-eq-ok (next_checkpoint_step C id at_read) _ h2 in
      let (r, f, h4) = >>=-eq-ok (or_panic (interrupt J S stamps x v)) _ h3 in
      let g = or_panic-ok (interrupt J S stamps x v) r f in
      (
        x,
        r.0,
        v,
        r.1,
        parsed-ok sent v a,
        g,
        interrupt-ready stamps x r.0 v r.1 g,
        (b, (n, d, persist-Called id n r.0 (r.1 ∷ []) now at_commit db h4)),
      )
