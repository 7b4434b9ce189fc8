-- ===== src/LlmRouter/Answers/Fits.antt =====
-- What an accepted reply of the decider holds
-- (services/llm-router/src/adapters/system_one/answers.rs).
use ai_engineering_boilerpla.Base.{
  ℕ, ◌-◌, ◌<◌, min, String, ◌≡◌, refl, sym, ap, subst, true, none, some, List, [], ◌∷◌, All, length,
  ◌==◌, Bool-cases, Option-cases, inl, inr, arith,
}
use ai_engineering_boilerpla.Base.Results.{ok, ◌>>=◌, >>=-eq-ok, of_ok_eq}
use ai_engineering_boilerpla.Json.{Json, Value, Fields, object, end, field, as_object, value_get}
use ai_engineering_boilerpla.LlmRouter.Decision.{Question, QuestionKind, noul, choice, score}
use ai_engineering_boilerpla.LlmRouter.Decisions.{Verdict}
use ai_engineering_boilerpla.LlmRouter.Answers.{
  Doubles, Given, noul_answer, choice_answer, score_answer, Answer, u32_max, type_name, offered,
  caller_legend, asked, unknown_key, present, or_null, probability, scored, confidence, given_value,
  chosen_option, named_probabilities, levelled_probabilities, read_kind, read_answer, read_answers,
  only_asked, read_verdict, text, left_unanswered, no_answers,
}
use ai_engineering_boilerpla.LlmRouter.Answers.Readings.{
  present-ok, is_object, probability-ok, confidence-ok, scored-ok, chosen-ok,
  named_probabilities-ok, levelled_probabilities-ok,
}

-- Every key of the answers is the id of a question.
abbrev pub AllAsked : List Question → Fields → Type 0
AllAsked questions end = Unit
AllAsked questions (field k v rest) = (asked questions k ≡ true) × AllAsked questions rest

unknown_key-none :
    (questions : List Question) (answers : Fields)
    → unknown_key questions answers ≡ none
    → AllAsked questions answers
unfolding unknown_key
unknown_key-none questions end h = tt
unknown_key-none questions (field k v rest) h = elim (Bool-cases (asked questions k)) [
  | inl t ↦ (t, unknown_key-none questions rest (ground (arith, t, h)))
  | inr t ↦ absurd (ground (arith, t, h))
]

module _ (J : Json) {F : Type 0} (D : Doubles F) where
  open D use {is_within}

  -- An answer that the question could have: a probability, an option that was offered, or a place on
  -- the caller's own scale, with probabilities of options and levels that exist.
  abbrev pub FitsKind : QuestionKind → Given F → Type 0
  FitsKind (noul t f) (noul_answer p) = is_within p 1 ≡ true
  FitsKind (choice options) (choice_answer chosen ps sure) =
      (offered options chosen ≡ true)
      × All (λ (e : String × F). (offered options e.0 ≡ true) × (is_within e.1 1 ≡ true)) ps
      × (is_within sure 1 ≡ true)
  FitsKind (score levels) (score_answer read legend ps sure) =
      (is_within read (min (length levels - 1) u32_max) ≡ true)
      × (legend ≡ caller_legend levels)
      × All (λ (e : ℕ × F). (e.0 < length levels) × (is_within e.1 1 ≡ true)) ps
      × (is_within sure 1 ≡ true)
  FitsKind kind given = ⊥

  -- One answer for each question, in order.
  abbrev pub AnswersAll : List Question → List (Answer F) → Type 0
  AnswersAll [] [] = Unit
  AnswersAll [] (a ∷ as') = ⊥
  AnswersAll (q ∷ qs) [] = ⊥
  AnswersAll (q ∷ qs) (a ∷ as') = (a.id ≡ q.id) × FitsKind q.kind a.answer × AnswersAll qs as'

  read_kind-FitsKind :
      (id : String) (kind : QuestionKind) (answer : Value) (given : Given F)
      → read_kind J D id kind answer ≡ ok given
      → FitsKind kind given
  unfolding read_kind
  read_kind-FitsKind id (noul t f) answer given h =
      let v = or_null (value_get J answer "noul") in
      let (p, e, g) = >>=-eq-ok (probability J D id "noul" v) _ {end = given} h in
      subst (FitsKind (noul t f)) (of_ok_eq {a = noul_answer p} g)
        (probability-ok J D id "noul" v p e)
  read_kind-FitsKind id (choice options) answer given h =
      let v = or_null (value_get J answer "choice") in
      let ws = given_value J D answer "probabilities" in
      let cv = given_value J D answer "confidence" in
      let (chosen, e, h1) = >>=-eq-ok (chosen_option J D id v options) _ {end = given} h in
      let (ps, f, h2) = >>=-eq-ok (named_probabilities J D id ws options) _ {end = given} h1 in
      let (sure, g, h3) = >>=-eq-ok (confidence J D id cv) _ {end = given} h2 in
      subst (FitsKind (choice options)) (of_ok_eq {a = choice_answer chosen ps sure} h3) (
        chosen-ok J D id v options chosen e,
        named_probabilities-ok J D id ws options ps f,
        confidence-ok J D id cv sure g,
      )
  read_kind-FitsKind id (score levels) answer given h =
      let v = or_null (value_get J answer "score") in
      let ws = given_value J D answer "probabilities" in
      let cv = given_value J D answer "confidence" in
      let n = length levels in
      let (read, e, h1) = >>=-eq-ok (scored J D id v n) _ {end = given} h in
      let (ps, f, h2) = >>=-eq-ok (levelled_probabilities J D id ws n) _ {end = given} h1 in
      let (sure, g, h3) = >>=-eq-ok (confidence J D id cv) _ {end = given} h2 in
      subst (FitsKind (score levels))
        (of_ok_eq {a = score_answer read (caller_legend levels) ps sure} h3)
        (
          scored-ok J D id v n read e,
          refl,
          levelled_probabilities-ok J D id ws n ps f,
          confidence-ok J D id cv sure g,
        )

  read_answer-FitsKind :
      (q : Question) (answer : Value) (a : Answer F)
      → read_answer J D q answer ≡ ok a
      → (a.id ≡ q.id) × FitsKind q.kind a.answer
  unfolding read_answer
  read_answer-FitsKind q answer a h =
      elim (Bool-cases (type_name q.kind == text (or_null (value_get J answer "type")))) [
        | inl t ↦
            let typed : (read_kind J D q.id q.kind answer >>= λ given.
            ok (record { id = q.id; answer = given }))
                ≡ ok a =
              ground (arith, t, h) in
            let (given, e, f) = >>=-eq-ok (read_kind J D q.id q.kind answer) _ {end = a} typed in
            let same : ◌≡◌ {A = Answer F} (record { id = q.id; answer = given }) a = of_ok_eq f in
            (
              ap (λ (x : Answer F). x.id) (sym same),
              subst (λ (x : Answer F). FitsKind q.kind x.answer) same
                  (read_kind-FitsKind q.id q.kind answer given e),
            )
        | inr t ↦ absurd (ground (arith, t, h))
      ]

  read_answers-AnswersAll :
      (answers : Fields) (questions : List Question) (given : List (Answer F))
      → read_answers J D answers questions ≡ ok given
      → AnswersAll questions given
  unfolding read_answers
  read_answers-AnswersAll answers [] given h = subst (AnswersAll []) (of_ok_eq {a = []} h) tt
  read_answers-AnswersAll answers (q ∷ qs) given h =
      let (v, e, h1) =
        >>=-eq-ok (present (left_unanswered q.id) (J.get answers q.id)) _ {end = given} h in
      let (a, f, h2) = >>=-eq-ok (read_answer J D q v) _ {end = given} h1 in
      let (later, g, h3) = >>=-eq-ok (read_answers J D answers qs) _ {end = given} h2 in
      let (same, fits) = read_answer-FitsKind q v a f in
      subst (AnswersAll (q ∷ qs)) (of_ok_eq {a = a ∷ later} h3)
        (same, fits, read_answers-AnswersAll answers qs later g)

  only_asked-ok :
      (questions : List Question) (answers known : Fields)
      → only_asked J D questions answers ≡ ok known
      → (answers ≡ known) × AllAsked questions answers
  unfolding only_asked
  only_asked-ok questions answers known h = elim (Option-cases (unknown_key questions answers)) [
    | inl n ↦ (ground (arith, n, h), unknown_key-none questions answers n)
    | inr (k, n) ↦ absurd (ground (arith, n, h))
  ]

  -- A verdict is accepted only if it has one answer for each question, in order, each one that its
  -- question could have, and the reply answered nothing that was not asked.
  pub read_verdict-ok :
      (body : Value) (questions : List Question) (sent : Value) (v : Verdict (Answer F))
      → read_verdict J D body questions sent ≡ ok v
      → AnswersAll questions v.answers
        × ((answers : Fields) × (value_get J body "answers" ≡ some (object answers))
            × AllAsked questions answers)
        × (v.sent ≡ sent)
        × (v.reply ≡ body)
  unfolding read_verdict
  read_verdict-ok body questions sent v h =
      let o = as_object (or_null (value_get J body "answers")) in
      let (answers, e, h1) = >>=-eq-ok (present no_answers o) _ {end = v} h in
      let (known, f, h2) = >>=-eq-ok (only_asked J D questions answers) _ {end = v} h1 in
      let (given, g, h3) = >>=-eq-ok (read_answers J D known questions) _ {end = v} h2 in
      let same = of_ok_eq h3 in
      (
        subst (AnswersAll questions) (ap (λ (x : Verdict (Answer F)). x.answers) same)
            (read_answers-AnswersAll known questions given g),
        (
          answers,
          is_object (value_get J body "answers") answers (present-ok no_answers o answers e),
          (only_asked-ok questions answers known f).1,
        ),
        sym (ap (λ (x : Verdict (Answer F)). x.sent) same),
        sym (ap (λ (x : Verdict (Answer F)). x.reply) same),
      )
