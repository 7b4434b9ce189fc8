-- ===== src/Engine/ToolNode/Records.antt =====
-- What a tool node stores (services/engine/src/executors/tool.rs).
use ai_engineering_boilerpla.Base.{
  ℕ, suc, ◌≤◌, ◌<◌, String, ◌≡◌, sym, ◌∙◌, ◌≢◌, refl, ◌⊎◌, inl, inr, true, false, List, [], ◌∷◌,
  map, length, arith, ltb, Bool-cases, ◌∙◌, sym,
}
use ai_engineering_boilerpla.Base.Results.{ok, ◌>>=◌, >>=-eq-ok, of_ok_eq}
use ai_engineering_boilerpla.Json.{Json, Value, array, of_list}
use ai_engineering_boilerpla.EngineCore.LlmOutput.{Serde, ToolRecord, ToolCall}
use ai_engineering_boilerpla.EngineCore.LlmOutput.Shown.{SameStep, IsOneStep}
use ai_engineering_boilerpla.Engine.Nodes.{IdempotencyKey}
use ai_engineering_boilerpla.Engine.ToolNode.{
  Client, ToolService, nth_call, CallOutcome, output, error, max_parallel_tool_calls,
  requested_calls, refused_whole, record_of_outcome, records_of, call_tool, calls_from, run_all,
  execute_calls, execute, too_long, recoverable_unless_the_run_is_too_long,
}

-- Every record has the time `now`.
abbrev pub MadeAt : String → List ToolRecord → Type 0
MadeAt now [] = Unit
MadeAt now (r ∷ rs) = (r.fetched_at ≡ now) × MadeAt now rs

same_time :
    (now : String) (r q : ToolRecord)
    → now ≢ ""
    → r.fetched_at ≡ now
    → q.fetched_at ≡ now
    → SameStep r q
same_time now r q full e f = ((λ u. full (sym e ∙ u)), e ∙ sym f)

pub MadeAt-IsOneStep :
    (now : String) (rs : List ToolRecord) → now ≢ "" → MadeAt now rs → IsOneStep rs
MadeAt-IsOneStep now [] full h = tt
MadeAt-IsOneStep now (r ∷ []) full h = tt
MadeAt-IsOneStep now (r ∷ q ∷ rs) full (e, h) =
    (same_time now r q full e h.0, MadeAt-IsOneStep now (q ∷ rs) full h)

module _ (J : Json) (S : Serde) (C : Client) where
  record_time :
      (c : ToolCall) (o : CallOutcome) (now : String)
      → (record_of_outcome J S C c o now).fetched_at ≡ now
  unfolding record_of_outcome
  record_time c (output v) now = refl
  record_time c (error m) now = refl

  pub records-MadeAt :
      (cs : List ToolCall) (os : List CallOutcome) (now : String)
      → MadeAt now (records_of J S C cs os now)
  unfolding records_of
  records-MadeAt [] [] now = tt
  records-MadeAt [] (o ∷ os) now = tt
  records-MadeAt (c ∷ cs) [] now = tt
  records-MadeAt (c ∷ cs) (o ∷ os) now = (record_time c o now, records-MadeAt cs os now)

  kept_on :
      (state : Value) (rs : List ToolRecord)
      → too_long J S C state rs ≡ false
      → recoverable_unless_the_run_is_too_long J S C state rs
        ≡ ok (array (of_list (map S.write_record rs)))
  unfolding recoverable_unless_the_run_is_too_long
  kept_on state rs t = rw t refl

  reported :
      (state : Value) (rs : List ToolRecord) (v : Value)
      → recoverable_unless_the_run_is_too_long J S C state rs ≡ ok v
      → v ≡ array (of_list (map S.write_record rs))
  reported state rs v h = elim (Bool-cases (too_long J S C state rs)) [
    | inl t ↦ absurd (unfold recoverable_unless_the_run_is_too_long in (ground (arith, t, h)))
    | inr t ↦ of_ok_eq (sym h ∙ kept_on state rs t)
  ]

  module _ (service : ToolService) (step : IdempotencyKey) (now : String) where
    -- The record of a call is made of what Tool Service answers to it under the key of its place.
    abbrev pub Answers : ℕ → List ToolCall → List ToolRecord → Type 0
    Answers index [] [] = Unit
    Answers index [] (r ∷ rs) = ⊥
    Answers index (c ∷ cs) [] = ⊥
    Answers index (c ∷ cs) (r ∷ rs) =
        ((o : CallOutcome) × (call_tool J S C service c (nth_call step index) ≡ ok o)
          × (r ≡ record_of_outcome J S C c o now))
        × Answers (suc index) cs rs

    answered :
        (index : ℕ) (cs : List ToolCall) (os : List CallOutcome)
        → calls_from J S C service step index cs ≡ map ok os
        → Answers index cs (records_of J S C cs os now)
    unfolding calls_from records_of
    answered index [] [] h = tt
    answered index [] (o ∷ os) h = cc
    answered index (c ∷ cs) [] h = cc
    answered index (c ∷ cs) (o ∷ os) h = ((o, cc, refl), answered (suc index) cs os (cc))

    -- The records of one step: those of the calls, or a refusal of more than eight.
    abbrev pub IsReport : List ToolCall → List ToolRecord → Type 0
    IsReport cs rs =
        ((length cs ≤ max_parallel_tool_calls) × Answers 0 cs rs)
        ⊎ ((max_parallel_tool_calls < length cs) × (rs ≡ refused_whole J S C cs now ∷ []))

    abbrev pub Stores : Value → List ToolCall → Value → Type 0
    Stores state cs v =
        (rs : List ToolRecord) × IsReport cs rs
        × MadeAt now rs
        × (recoverable_unless_the_run_is_too_long J S C state rs ≡ ok v)

    few :
        (state : Value) (cs : List ToolCall)
        → ltb max_parallel_tool_calls (length cs) ≡ false
        → execute_calls J S C service state step now cs ≡ (
            run_all J S C service cs step >>= λ outcomes.
            recoverable_unless_the_run_is_too_long J S C state (records_of J S C cs outcomes now))
    unfolding execute_calls
    few state cs t = rw t refl

    many :
        (state : Value) (cs : List ToolCall)
        → ltb max_parallel_tool_calls (length cs) ≡ true
        → execute_calls J S C service state step now cs
          ≡ recoverable_unless_the_run_is_too_long J S C state (refused_whole J S C cs now ∷ [])
    unfolding execute_calls
    many state cs t = rw t refl

    execute_calls-Stores :
        (state : Value) (cs : List ToolCall) (v : Value)
        → execute_calls J S C service state step now cs ≡ ok v
        → Stores state cs v
    execute_calls-Stores state cs v h =
        elim (Bool-cases (ltb max_parallel_tool_calls (length cs))) [
          | inl t ↦ (
            refused_whole J S C cs now ∷ [],
            inr (ground (arith, t), refl),
            (unfold refused_whole in refl, tt),
            sym (many state cs t) ∙ h,
          )
          | inr t ↦
              let (os, all_done, rest) =
                >>=-eq-ok (run_all J S C service cs step) _ (sym (few state cs t) ∙ h) in
              (
                records_of J S C cs os now,
                inl (
                  ground (arith, t),
                  answered 0 cs os (C.try_join_all_ended _ os (unfold run_all in all_done)),
                ),
                records-MadeAt cs os now,
                rest,
              )
        ]

    -- A result of a tool node is the array of one record for each requested call, in order, made of
    -- Tool Service's answer to it under a key of its own, or, beyond eight calls, of one refusal;
    -- and the records are of one step.
    pub execute-ok :
        (config state v : Value)
        → now ≢ ""
        → execute J S C service config state step now ≡ ok v
        → (cs : List ToolCall) × (rs : List ToolRecord) × (requested_calls J S C config state
            ≡ ok cs)
          × IsReport cs rs
          × IsOneStep rs
          × (v ≡ array (of_list (map S.write_record rs)))
    execute-ok config state v full h =
        let (cs, asked, told) =
          >>=-eq-ok (requested_calls J S C config state)
            (execute_calls J S C service state step now) {end = v} (unfold execute in h) in
        let (rs, report, times, kept) = execute_calls-Stores state cs v told in
        (cs, rs, asked, report, MadeAt-IsOneStep now rs full times, reported state rs v kept)
