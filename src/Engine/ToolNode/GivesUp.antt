-- ===== src/Engine/ToolNode/GivesUp.antt =====
-- When a run gives up on its tools (services/engine/src/executors/tool.rs).
use mathlib.Core.List.{
  reverse, reverse-append, reverse-cons, reverse-reverse, append_assoc, append-nil,
}
use ai_engineering_boilerpla.Base.{
  ℕ, ◌≤◌, String, ◌≡◌, refl, ◌↔◌, Bool, true, List, [], ◌∷◌, ◌++◌, flatten, flatten-append, length,
  take_while, arith, subst, Bool-cases, inl, inr, sym, ◌∙◌, ap,
}
use ai_engineering_boilerpla.Base.Results.{err}
use ai_engineering_boilerpla.Json.{Json, Value, Fields, object}
use ai_engineering_boilerpla.EngineCore.LlmOutput.{
  Serde, ToolRecord, made_in_the_same_step_as, all_under, tool_result_state_key,
}
use ai_engineering_boilerpla.Engine.ToolNode.{
  Client, nothing_reached_its_source, consecutive_failed_steps, too_long, giving_up,
  recoverable_unless_the_run_is_too_long,
}
use ai_engineering_boilerpla.Engine.ToolNode.Steps.{AreSteps, chunk_by-flatten}
use ai_engineering_boilerpla.Engine.ToolNode.Grows.{IsList, all_under-reduce, stored, stored-IsList}

module _ {ℓ} {A : Type ℓ} (p : A → Bool) where
  -- The last two satisfy `p`.
  abbrev pub EndsInTwo : List A → Type ℓ
  EndsInTwo xs =
      (before : List A) × (a b : A) × (xs ≡ before ++ (a ∷ b ∷ [])) × (p a ≡ true) × (p b ≡ true)

  -- The first two satisfy `p`.
  abbrev BeginsWithTwo : List A → Type ℓ
  BeginsWithTwo xs = (a b : A) × (rest : List A) × (xs ≡ a ∷ b ∷ rest) × (p a ≡ true) × (p b ≡ true)

  taken_begins : (xs : List A) → 2 ≤ length (take_while p xs) → BeginsWithTwo xs
  taken_begins [] h = absurd (omega (arith, h))
  taken_begins (a ∷ []) h = absurd (ground (arith, h))
  taken_begins (a ∷ b ∷ rest) h = (a, b, rest, refl, ground (arith, h), ground (arith, h))

  begins_taken : (xs : List A) → BeginsWithTwo xs → 2 ≤ length (take_while p xs)
  begins_taken xs (a, b, rest, e, f, g) = rw e (ground (arith, f, g))

  ends_reversed : (xs : List A) → BeginsWithTwo (reverse xs) → EndsInTwo xs
  ends_reversed xs (a, b, rest, e, f, g) = (
    reverse rest,
    b,
    a,
    sym (reverse-reverse xs)
        ∙ ap reverse e
        ∙ reverse-cons a (b ∷ rest)
        ∙ ap (λ (t : List A). t ++ (a ∷ [])) (reverse-cons b rest)
        ∙ append_assoc (reverse rest) (b ∷ []) (a ∷ []),
    g,
    f,
  )

  reversed_ends : (xs : List A) → EndsInTwo xs → BeginsWithTwo (reverse xs)
  reversed_ends xs (before, a, b, e, f, g) =
      (b, a, reverse before, ap reverse e ∙ reverse-append before (a ∷ b ∷ []), g, f)

module _ (J : Json) (S : Serde) (C : Client) where
  -- What two steps in a row that reached nothing look like.
  abbrev pub TwoFailed : List (List ToolRecord) → Type 0
  TwoFailed steps = EndsInTwo (nothing_reached_its_source J S C) steps

  counted :
      (state : Value) (steps : List (List ToolRecord))
      → all_under J S state tool_result_state_key ≡ flatten steps
      → AreSteps made_in_the_same_step_as steps
      → consecutive_failed_steps J S C state
        ≡ length (take_while (nothing_reached_its_source J S C) (reverse steps))
  unfolding consecutive_failed_steps
  counted state steps e h = rw e (rw (chunk_by-flatten made_in_the_same_step_as steps h) refl)

  given_up :
      (state : Value) (this_step : List ToolRecord)
      → ((e : String) × (recoverable_unless_the_run_is_too_long J S C state this_step ≡ err e))
        ↔ (too_long J S C state this_step ≡ true)
  unfolding recoverable_unless_the_run_is_too_long
  given_up state this_step = elim (Bool-cases (too_long J S C state this_step)) [
    | inl t ↦ ((λ h. t), (λ h. (giving_up J S C this_step, rw t refl)))
    | inr t ↦ ((λ h. ground (arith, h, t)), (λ h. cc))
  ]

  too_long_iff :
      (state : Value) (this_step : List ToolRecord)
      → (too_long J S C state this_step ≡ true) ↔ (
          (nothing_reached_its_source J S C this_step ≡ true)
          × (2 ≤ consecutive_failed_steps J S C state))
  unfolding too_long
  too_long_iff state this_step =
      ((λ h. (ground (arith, h), ground (arith, h))), (λ h. ground (arith, h)))

  -- Where the records of a run are those of a history of steps, a tool node ends the run with an
  -- error exactly if its own step and the last two of the history reached no source.
  pub recoverable-TwoFailed :
      (state : Value) (this_step : List ToolRecord) (steps : List (List ToolRecord))
      → all_under J S state tool_result_state_key ≡ flatten steps
      → AreSteps made_in_the_same_step_as steps
      → ((e : String) × (recoverable_unless_the_run_is_too_long J S C state this_step ≡ err e))
        ↔ ((nothing_reached_its_source J S C this_step ≡ true) × TwoFailed steps)
  recoverable-TwoFailed state this_step steps e h =
      let p = nothing_reached_its_source J S C in
      let n = counted state steps e h in
      let ends = given_up state this_step in
      let long = too_long_iff state this_step in
      (
        (λ g.
            let (f, two) = long.0 (ends.0 g) in
            (
              f,
              ends_reversed p steps
                  (taken_begins p (reverse steps) (subst (λ (k : ℕ). 2 ≤ k) n two)),
            )),
        (λ (f, two). ends.1 (
            long.1 (
              f,
              subst (λ (k : ℕ). 2 ≤ k) (sym n)
                  (begins_taken p (reverse steps) (reversed_ends p steps two)),
            ))),
      )

  two_more :
      (m : Fields) (steps : List (List ToolRecord)) (a b : List ToolRecord)
      → IsList (J.get m tool_result_state_key)
      → all_under J S (object m) tool_result_state_key ≡ flatten steps
      → all_under J S (object (stored J S (stored J S m a) b)) tool_result_state_key
        ≡ flatten (steps ++ (a ∷ b ∷ []))
  unfolding stored
  two_more m steps a b l e =
      all_under-reduce J S (stored J S m a) tool_result_state_key b (stored-IsList J S m a l)
      ∙ ap (λ (t : List ToolRecord). t ++ b) (all_under-reduce J S m tool_result_state_key a l)
      ∙ rw e refl
      ∙ append_assoc (flatten steps) a b
      ∙ rw (flatten-append steps (a ∷ b ∷ []), append-nil b) refl

  -- When two tool nodes in a row have stored steps that reached no source, a third such step ends
  -- the run, whatever came before.
  pub third_failure :
      (m : Fields) (steps : List (List ToolRecord)) (a b c : List ToolRecord)
      → IsList (J.get m tool_result_state_key)
      → all_under J S (object m) tool_result_state_key ≡ flatten steps
      → AreSteps made_in_the_same_step_as (steps ++ (a ∷ b ∷ []))
      → nothing_reached_its_source J S C a ≡ true
      → nothing_reached_its_source J S C b ≡ true
      → nothing_reached_its_source J S C c ≡ true
      → (e : String) × (recoverable_unless_the_run_is_too_long J S C
            (object (stored J S (stored J S m a) b))
            c
          ≡ err e)
  third_failure m steps a b c l e h fa fb fc =
      (recoverable-TwoFailed (object (stored J S (stored J S m a) b)) c (steps ++ (a ∷ b ∷ []))
          (two_more m steps a b l e) h).1
        (fc, (steps, a, b, refl, fa, fb))
