-- ===== src/EngineCore/Loop/Rounds.antt =====
-- The whole loop of `step` over the outputs: one report for each, in order, and a hard failure is
-- remembered (engine-core/src/step.rs).
use ai_engineering_boilerpla.Base.{
  ◌≡◌, ◌∙◌, some, List, [], ◌∷◌, ◌++◌, map, >>=-eq-some, of_some_eq, subst, is_some, true, Any,
  here, there,
}
use mathlib.Core.List.{map-append, append_assoc, append-nil}
use ai_engineering_boilerpla.Json.{Json}
use ai_engineering_boilerpla.EngineCore.Graph.{Graph}
use ai_engineering_boilerpla.EngineCore.LlmOutput.{Serde}
use ai_engineering_boilerpla.EngineCore.Execution.{
  Execution, ExecutionEvent, ExecutionPayload, Stamps, push_event,
}
use ai_engineering_boilerpla.EngineCore.Execution.Kept.{Kept, Kept-refl, Kept-trans}
use ai_engineering_boilerpla.EngineCore.FanIn.{NodeOutput}
use ai_engineering_boilerpla.EngineCore.Output.{report}
use ai_engineering_boilerpla.EngineCore.Loop.{Progress, process, process_all}
use ai_engineering_boilerpla.EngineCore.Loop.Frame.{IsHardFailure, IsOfNode, process-Round}

abbrev pub payloads : List ExecutionEvent → List ExecutionPayload
payloads events = map (λ e. e.payload) events

pub payloads-push_event :
    (stamps : Stamps) (x : Execution) (payload : ExecutionPayload) (events : List ExecutionEvent)
    → payloads (push_event stamps x payload events) ≡ payloads events ++ payload ∷ []
unfolding push_event
payloads-push_event stamps x payload events = rw map-append

module _ (J : Json) (S : Serde) where
  pub record Rounds (g : Graph) (p q : Progress) (os : List NodeOutput) : Type 0 where
    pub kept : Kept p.execution q.execution
    pub reported : payloads q.events ≡ payloads p.events ++ map (report J S) os
    pub failure_stays : is_some p.hard_failure ≡ true → is_some q.hard_failure ≡ true
    pub failure_noted : Any (IsHardFailure g) os → is_some q.hard_failure ≡ true
    pub failure_of_node : IsOfNode p.hard_failure → IsOfNode q.hard_failure

  pub process_all-Rounds :
      (stamps : Stamps) (g : Graph) (p q : Progress) (os : List NodeOutput)
      → process_all J S stamps g p os ≡ some q
      → Rounds g p q os
  unfolding process_all
  process_all-Rounds stamps g p q [] h =
      subst (λ t. Rounds g p t []) (of_some_eq h)
        (record {
          kept = Kept-refl p.execution;
          reported = simp append-nil;
          failure_stays = λ e. e;
          failure_noted = λ (a : Any (IsHardFailure g) []). elim a [ ];
          failure_of_node = λ e. e;
        })
  process_all-Rounds stamps g p q (o ∷ os) h =
      let (r, a, b) = >>=-eq-some (process J S stamps g p o) _ h in
      let first = process-Round J S stamps g p r o a in
      let rest = process_all-Rounds stamps g r q os b in
      record {
        kept = Kept-trans p.execution r.execution q.execution first.kept rest.kept;
        reported =
            rest.reported
            ∙ rw (first.reported, payloads-push_event stamps p.execution (report J S o) p.events)
                (append_assoc (payloads p.events) (report J S o ∷ []) (map (report J S) os));
        failure_stays = λ e. rest.failure_stays (first.failure_stays e);
        failure_of_node = λ e. rest.failure_of_node (first.failure_of_node e);
        failure_noted = noted r first.failure_noted rest.failure_stays rest.failure_noted;
      }
    where
      noted :
          (r : Progress)
          → (IsHardFailure g o → is_some r.hard_failure ≡ true)
          → (is_some r.hard_failure ≡ true → is_some q.hard_failure ≡ true)
          → (Any (IsHardFailure g) os → is_some q.hard_failure ≡ true)
          → Any (IsHardFailure g) (o ∷ os)
          → is_some q.hard_failure ≡ true
      noted r f s t (here e) = s (f e)
      noted r f s t (there a) = t a
