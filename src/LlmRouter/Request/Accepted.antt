-- ===== src/LlmRouter/Request/Accepted.antt =====
-- What `validated_decision` accepts, and that it hands on what was sent
-- (services/llm-router/src/budget.rs).
use Prim.Native.String.{len}
use ai_engineering_boilerpla.Base.{
  ℕ, ◌+◌, ◌≤◌, String, ◌≡◌, ◌↔◌, refl, ap, sym, ◌∙◌, false, inl, inr, Option, none, some, List, [],
  ◌∷◌, ◌==◌, ltb, length, Bool-cases, arith,
}
use mathlib.Core.Path.{subst}
use ai_engineering_boilerpla.Base.Results.{ok, >>=-eq-ok, of_ok_eq}
use ai_engineering_boilerpla.Json.{Value, is_null}
use ai_engineering_boilerpla.LlmRouter.Decision.{
  SentKind, SentQuestion, DecideRequest, QuestionKind, Question, Decision, Wire,
}
use ai_engineering_boilerpla.LlmRouter.Budget.{
  max_questions, max_question_id_bytes, max_state_plus_question_bytes, max_state_bytes,
  max_instructions_bytes, max_request_bytes, What, the_state, instructions_of, contains,
  validated_kind,
}
use ai_engineering_boilerpla.LlmRouter.Budget.Kinds.{KindFits, as_sent, at_most, validated_kind-ok}
use ai_engineering_boilerpla.LlmRouter.Request.{
  validated_id, json_from, within_json_budget, question_bytes, within_state_and_question_budget,
  total_bytes, within_request_budget, validated_question, validated_questions, validated_parts,
  validated_decision,
}

-- An id that is there, short and not among `asked`.
abbrev pub FreshId : List String → String → Type 0
FreshId asked id =
    ((id == "") ≡ false) × (len id ≤ max_question_id_bytes) × (contains id asked ≡ false)

validated_id-ok :
    (id : String) (asked r : List String)
    → (validated_id id asked ≡ ok r) ↔ (FreshId asked id × (r ≡ id ∷ asked))
unfolding validated_id
validated_id-ok id asked r = ((λ h. ground arith), (λ (p, e). ground arith))

module _ {W : Type 0} (wire : Wire W) where
  open wire use {to_value, json_bytes}

  -- A JSON value that can be read, is not null and has at most `limit` bytes.
  abbrev pub JsonFits : ℕ → Option W → Value → Type 0
  JsonFits limit sent value =
      (to_value sent ≡ ok value) × (is_null value ≡ false) × (json_bytes value ≤ limit)

  -- One question that was sent against the question that is asked.
  abbrev pub Asked : ℕ → SentQuestion W → Question → Type 0
  Asked state_bytes s q =
      (q.id ≡ s.id)
      × JsonFits max_instructions_bytes s.instructions q.instructions
      × ((kind : SentKind) × (s.kind ≡ some kind) × KindFits kind × (q.kind ≡ as_sent kind))
      × (state_bytes + question_bytes wire q ≤ max_state_plus_question_bytes)

  -- The questions in the order they were sent, with ids that are not in `asked` and distinct.
  abbrev pub AllAsked : ℕ → List String → List (SentQuestion W) → List Question → Type 0
  AllAsked state_bytes asked [] [] = Unit
  AllAsked state_bytes asked (s ∷ ss) (q ∷ qs) =
      FreshId asked s.id × Asked state_bytes s q × AllAsked state_bytes (s.id ∷ asked) ss qs
  AllAsked state_bytes asked [] (q ∷ qs) = ⊥
  AllAsked state_bytes asked (s ∷ ss) [] = ⊥

  json_from-ok :
      (what : What) (sent : Option W) (v : Value)
      → (json_from wire what sent ≡ ok v) ↔ (to_value sent ≡ ok v)
  unfolding json_from
  json_from-ok what sent v = ((λ h. ground arith), (λ h. ground arith))

  within_json_budget-ok :
      (what : What) (value : Value) (limit : ℕ) (v : Value)
      → (within_json_budget wire what value limit ≡ ok v)
        ↔ ((is_null value ≡ false) × (json_bytes value ≤ limit) × (v ≡ value))
  unfolding within_json_budget
  within_json_budget-ok what value limit v = ((λ h. ground arith), (λ (p, q, e). ground arith))

  json-ok :
      (what : What) (sent : Option W) (given v : Value) (limit : ℕ)
      → json_from wire what sent ≡ ok given
      → within_json_budget wire what given limit ≡ ok v
      → JsonFits limit sent v
  json-ok what sent given v limit a b =
      let (b1, b2, b3) = (within_json_budget-ok what given limit v).0 b in
      subst (λ t. JsonFits limit sent t) (sym b3) ((json_from-ok what sent given).0 a, b1, b2)

  kind-ok :
      (id : String) (kind : Option SentKind) (r : QuestionKind)
      → validated_kind id kind ≡ ok r
      → (k : SentKind) × (kind ≡ some k) × KindFits k × (r ≡ as_sent k)
  unfolding validated_kind
  kind-ok id none r h = cc
  kind-ok id (some k) r h = let (a, b) = (validated_kind-ok id k r).0 h in (k, refl, a, b)

  budget-ok :
      (state_bytes : ℕ) (q : Question)
      → (within_state_and_question_budget wire state_bytes q ≡ ok tt)
        ↔ (state_bytes + question_bytes wire q ≤ max_state_plus_question_bytes)
  unfolding within_state_and_question_budget
  budget-ok state_bytes q = ((λ h. ground arith), (λ h. ground arith))

  total-ok :
      (state_bytes : ℕ) (qs : List Question)
      → (within_request_budget wire state_bytes qs ≡ ok tt)
        ↔ (state_bytes + total_bytes wire qs ≤ max_request_bytes)
  unfolding within_request_budget
  total-ok state_bytes qs = ((λ h. ground arith), (λ h. ground arith))

  -- A question without the bound that it shares with the state.
  abbrev QuestionFits : SentQuestion W → Question → Type 0
  QuestionFits s q =
      (q.id ≡ s.id)
      × JsonFits max_instructions_bytes s.instructions q.instructions
      × ((kind : SentKind) × (s.kind ≡ some kind) × KindFits kind × (q.kind ≡ as_sent kind))

  question-fits :
      (s : SentQuestion W) (q : Question) → validated_question wire s ≡ ok q → QuestionFits s q
  unfolding validated_question
  question-fits s q h =
      let (given, a, h1) = >>=-eq-ok (json_from wire (instructions_of s.id) s.instructions) _ h in
      let (instructions, b, h2) =
        >>=-eq-ok (within_json_budget wire (instructions_of s.id) given max_instructions_bytes) _
          h1 in
      let (kind, c, h3) = >>=-eq-ok (validated_kind s.id s.kind) _ h2 in
      subst (QuestionFits s) (of_ok_eq h3) (
        refl,
        json-ok (instructions_of s.id) s.instructions given instructions max_instructions_bytes a b,
        kind-ok s.id s.kind kind c,
      )

  fits-question :
      (s : SentQuestion W) (q : Question) → QuestionFits s q → validated_question wire s ≡ ok q
  unfolding validated_question
  fits-question s q (i, (a, b, c), (k, e, f, g)) =
      rw ((json_from-ok (instructions_of s.id) s.instructions q.instructions).1 a) (
        rw
          ((within_json_budget-ok (instructions_of s.id) q.instructions max_instructions_bytes
              q.instructions).1
            (b, c, refl))
          (rw (ap (validated_kind s.id) e ∙ (validated_kind-ok s.id k q.kind).1 (f, g))
            (λ j. ok (record { id = sym i j; instructions = q.instructions; kind = q.kind }))))

  questions-fit :
      (n : ℕ) (asked : List String) (ss : List (SentQuestion W)) (qs : List Question)
      → validated_questions wire n asked ss ≡ ok qs
      → AllAsked n asked ss qs
  unfolding validated_questions
  questions-fit n asked [] [] h = tt
  questions-fit n asked [] (q ∷ qs) h = absurd (cc)
  questions-fit n asked (s ∷ ss) qs h =
      let (asked', a, h1) = >>=-eq-ok (validated_id s.id asked) _ h in
      let (question, b, h2) = >>=-eq-ok (validated_question wire s) _ h1 in
      let (u, c, h3) = >>=-eq-ok (within_state_and_question_budget wire n question) _ h2 in
      let (rest, d, h4) = >>=-eq-ok (validated_questions wire n asked' ss) _ h3 in
      let (a1, a2) = (validated_id-ok s.id asked asked').0 a in
      let (b1, b2, b3) = question-fits s question b in
      let d1 = questions-fit n asked' ss rest d in
      subst (AllAsked n asked (s ∷ ss)) (of_ok_eq h4)
        (a1, (b1, b2, b3, (budget-ok n question).0 c), subst (λ t. AllAsked n t ss rest) a2 d1)

  fit-questions :
      (n : ℕ) (asked : List String) (ss : List (SentQuestion W)) (qs : List Question)
      → AllAsked n asked ss qs
      → validated_questions wire n asked ss ≡ ok qs
  unfolding validated_questions
  fit-questions n asked [] [] h = refl
  fit-questions n asked [] (q ∷ qs) h = absurd h
  fit-questions n asked (s ∷ ss) [] h = absurd h
  fit-questions n asked (s ∷ ss) (q ∷ qs) (a, (b1, b2, b3, c), d) =
      rw ((validated_id-ok s.id asked (s.id ∷ asked)).1 (a, refl)) (
        rw (fits-question s q (b1, b2, b3))
          (rw ((budget-ok n q).1 c) (rw (fit-questions n (s.id ∷ asked) ss qs d) refl)))

  abbrev pub PartsFit : DecideRequest W → Decision → Type 0
  PartsFit r d =
      JsonFits max_state_bytes r.state d.state
      × AllAsked (json_bytes d.state) [] r.questions d.questions
      × (json_bytes d.state + total_bytes wire d.questions ≤ max_request_bytes)
      × (d.caller_stops_waiting_at ≡ none)

  abbrev pub Accepted : DecideRequest W → Decision → Type 0
  Accepted r d = (1 ≤ length r.questions) × (length r.questions ≤ max_questions) × PartsFit r d

  parts-fit : (r : DecideRequest W) (d : Decision) → validated_parts wire r ≡ ok d → PartsFit r d
  unfolding validated_parts
  parts-fit r d h =
      let (given, a, h1) = >>=-eq-ok (json_from wire the_state r.state) _ h in
      let (state, b, h2) =
        >>=-eq-ok (within_json_budget wire the_state given max_state_bytes) _ h1 in
      let (qs, c, h3) =
        >>=-eq-ok (validated_questions wire (json_bytes state) [] r.questions) _ h2 in
      let (u, e, h4) = >>=-eq-ok (within_request_budget wire (json_bytes state) qs) _ h3 in
      subst (PartsFit r) (of_ok_eq h4) (
        json-ok the_state r.state given state max_state_bytes a b,
        questions-fit (json_bytes state) [] r.questions qs c,
        (total-ok (json_bytes state) qs).0 e,
        refl,
      )

  fit-parts : (r : DecideRequest W) (d : Decision) → PartsFit r d → validated_parts wire r ≡ ok d
  unfolding validated_parts
  fit-parts r d ((a, a1, a2), b, c, e) = rw ((json_from-ok the_state r.state d.state).1 a) (
      rw ((within_json_budget-ok the_state d.state max_state_bytes d.state).1 (a1, a2, refl)) (
        rw (fit-questions (json_bytes d.state) [] r.questions d.questions b) (
          rw ((total-ok (json_bytes d.state) d.questions).1 c) (λ j. ok (record {
            state = d.state;
            questions = d.questions;
            caller_stops_waiting_at = sym e j;
          })))))

  -- A Decide request is accepted exactly when it has between 1 and 64 questions, its state can be read,
  -- is not null and has at most 49,152 bytes, the ids are not empty, have at most 64 bytes and are
  -- distinct, every instructions value can be read, is not null and has at most 8,192 bytes, every kind
  -- fits its limits, the state with any one question has at most 65,536 bytes and with all questions at
  -- most 131,072. The decision then holds the state and the questions as sent, in the order sent.
  pub validated_decision-ok :
      (r : DecideRequest W) (d : Decision) → (validated_decision wire r ≡ ok d) ↔ Accepted r d
  unfolding validated_decision
  validated_decision-ok r d = (sound, complete)
    where
      sound : validated_decision wire r ≡ ok d → Accepted r d
      sound h = elim (Bool-cases (ltb (length r.questions) 1)) [
        | inl e ↦ absurd (ground arith)
        | inr e ↦ elim (Bool-cases (ltb max_questions (length r.questions))) [
          | inl e' ↦ absurd (ground arith)
          | inr e' ↦ (
            at_most (length r.questions) 1 e,
            at_most max_questions (length r.questions) e',
            parts-fit r d (ground arith),
          )
        ]
      ]

      complete : Accepted r d → validated_decision wire r ≡ ok d
      complete (a, b, c) =
          let t : ltb (length r.questions) 1 ≡ false = ground arith in
          let t' : ltb max_questions (length r.questions) ≡ false = ground arith in
          rw (t, t') (fit-parts r d c)
