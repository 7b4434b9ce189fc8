-- ===== src/LlmRouter/Answers/Readings.antt =====
-- The parts of one answer, and that each is in range
-- (services/llm-router/src/adapters/system_one/answers.rs).
use ai_engineering_boilerpla.Base.{
  ℕ, ◌-◌, ◌<◌, min, String, ◌≡◌, refl, sym, ◌∙◌, ap, subst, Bool, true, false, Option, none, some,
  List, ◌∷◌, All, ltb, if◌then◌else◌, arith, of_some_eq,
}
use ai_engineering_boilerpla.Base.Results.{ok, err, >>=-eq-ok, of_ok_eq}
use ai_engineering_boilerpla.Json.{
  Json, Value, Fields, null, bool, number, string, array, object, end, field, as_str, as_object,
}
use ai_engineering_boilerpla.LlmRouter.Decision.{ChoiceOption}
use ai_engineering_boilerpla.LlmRouter.Answers.{
  AnswerFault, Doubles, u32_max, offered, present, or_null, number_of, probability, scored,
  confidence, chosen_option, entries_of, named_entries, named_probabilities, levelled_entries,
  levelled_probabilities, not_between_0_and_1, outside_the_scale, never_offered, no_probability_for,
  past_the_levels, not_a_level, not_readable,
}

pub present-ok :
    {A : Type 0} (fault : AnswerFault) (o : Option A) (a : A) → present fault o ≡ ok a → o ≡ some a
present-ok fault none a h = cc
present-ok fault (some b) a h = ap some (of_ok_eq h)

pub is_object :
    (o : Option Value) (m : Fields) → as_object (or_null o) ≡ some m → o ≡ some (object m)
is_object none m h = cc
is_object (some (object n)) m h = ap (λ (x : Fields). some (object x)) (of_some_eq h)
is_object (some null) m h = cc
is_object (some (bool b)) m h = cc
is_object (some (number n)) m h = cc
is_object (some (string s)) m h = cc
is_object (some (array xs)) m h = cc

-- A value that is let through only if it passes a test.
checked-ok :
    {A : Type 0} (b : Bool) (fault : AnswerFault) (a c : A)
    → (if b then ok a else err fault) ≡ ok c
    → (b ≡ true) × (a ≡ c)
checked-ok true fault a c h = (refl, of_ok_eq h)
checked-ok false fault a c h = cc

module _ (J : Json) {F : Type 0} (D : Doubles F) where
  open D use {is_within}

  pub probability-ok :
      (id name : String) (v : Value) (p : F)
      → probability J D id name v ≡ ok p
      → is_within p 1 ≡ true
  unfolding probability
  probability-ok id name v p h =
      let (read, e, f) = >>=-eq-ok (number_of J D id name v) _ {end = p} h in
      let (t, same) = checked-ok (is_within read 1) (not_between_0_and_1 id name) read p f in
      ap (λ (x : F). is_within x 1) (sym same) ∙ t

  pub confidence-ok :
      (id : String) (v : Option Value) (p : F) → confidence J D id v ≡ ok p → is_within p 1 ≡ true
  unfolding confidence
  confidence-ok id none p h = ap (λ (x : F). is_within x 1) (sym (of_ok_eq h)) ∙ D.zero_within 1
  confidence-ok id (some v) p h = probability-ok id "confidence" v p h

  pub scored-ok :
      (id : String) (v : Value) (levels : ℕ) (p : F)
      → scored J D id v levels ≡ ok p
      → is_within p (min (levels - 1) u32_max) ≡ true
  unfolding scored
  scored-ok id v levels p h =
      let (read, e, f) = >>=-eq-ok (number_of J D id "score" v) _ {end = p} h in
      let highest = min (levels - 1) u32_max in
      let (t, same) = checked-ok (is_within read highest) (outside_the_scale id levels) read p f in
      ap (λ (x : F). is_within x highest) (sym same) ∙ t

  pub chosen-ok :
      (id : String) (v : Value) (options : List ChoiceOption) (chosen : String)
      → chosen_option J D id v options ≡ ok chosen
      → offered options chosen ≡ true
  unfolding chosen_option
  chosen-ok id v options chosen h =
      let (c, e, f) =
        >>=-eq-ok (present (not_readable id "choice") (as_str v)) _ {end = chosen} h in
      let (t, same) = checked-ok (offered options c) (never_offered id c) c chosen f in
      ap (offered options) (sym same) ∙ t

  named-ok :
      (id : String) (options : List ChoiceOption) (entries : Fields) (ps : List (String × F))
      → named_entries J D id options entries ≡ ok ps
      → All (λ (e : String × F). (offered options e.0 ≡ true) × (is_within e.1 1 ≡ true)) ps
  unfolding named_entries
  named-ok id options end ps h =
      subst (All (λ (e : String × F). (offered options e.0 ≡ true) × (is_within e.1 1 ≡ true)))
        (of_ok_eq h) tt
  named-ok id options (field name weight rest) ps h =
      let (known, e, h1) =
        >>=-eq-ok (if offered options name then ok name else err (no_probability_for id name)) _
          {end = ps} h in
      let (p, f, h2) = >>=-eq-ok (probability J D id "probability" weight) _ {end = ps} h1 in
      let (later, g, h3) = >>=-eq-ok (named_entries J D id options rest) _ {end = ps} h2 in
      let (t, same) = checked-ok (offered options name) (no_probability_for id name) name known e in
      subst (All (λ (e' : String × F). (offered options e'.0 ≡ true) × (is_within e'.1 1 ≡ true)))
        (of_ok_eq {a = (known, p) ∷ later} h3)
        (
          (ap (offered options) (sym same) ∙ t, probability-ok id "probability" weight p f),
          named-ok id options rest later g,
        )

  levelled-ok :
      (id : String) (levels : ℕ) (entries : Fields) (ps : List (ℕ × F))
      → levelled_entries J D id levels entries ≡ ok ps
      → All (λ (e : ℕ × F). (e.0 < levels) × (is_within e.1 1 ≡ true)) ps
  unfolding levelled_entries
  levelled-ok id levels end ps h =
      subst (All (λ (e : ℕ × F). (e.0 < levels) × (is_within e.1 1 ≡ true))) (of_ok_eq h) tt
  levelled-ok id levels (field level weight rest) ps h =
      let (index, e, h1) =
        >>=-eq-ok (present (not_a_level id level) (D.parse_u32 level)) _ {end = ps} h in
      let (inside, f, h2) =
        >>=-eq-ok (if ltb index levels then ok index else err (past_the_levels id index levels)) _
          {end = ps} h1 in
      let (p, g, h3) = >>=-eq-ok (probability J D id "probability" weight) _ {end = ps} h2 in
      let (later, k, h4) = >>=-eq-ok (levelled_entries J D id levels rest) _ {end = ps} h3 in
      let (t, same) =
        checked-ok (ltb index levels) (past_the_levels id index levels) index inside f in
      subst (All (λ (e' : ℕ × F). (e'.0 < levels) × (is_within e'.1 1 ≡ true)))
        (of_ok_eq {a = (inside, p) ∷ later} h4)
        (
          (
            subst (λ (x : ℕ). x < levels) same (ground (arith, t)),
            probability-ok id "probability" weight p g,
          ),
          levelled-ok id levels rest later k,
        )

  pub named_probabilities-ok :
      (id : String) (v : Option Value) (options : List ChoiceOption) (ps : List (String × F))
      → named_probabilities J D id v options ≡ ok ps
      → All (λ (e : String × F). (offered options e.0 ≡ true) × (is_within e.1 1 ≡ true)) ps
  unfolding named_probabilities
  named_probabilities-ok id v options ps h =
      let (entries, e, f) = >>=-eq-ok (entries_of J D id "probabilities" v) _ {end = ps} h in
      named-ok id options entries ps f

  pub levelled_probabilities-ok :
      (id : String) (v : Option Value) (levels : ℕ) (ps : List (ℕ × F))
      → levelled_probabilities J D id v levels ≡ ok ps
      → All (λ (e : ℕ × F). (e.0 < levels) × (is_within e.1 1 ≡ true)) ps
  unfolding levelled_probabilities
  levelled_probabilities-ok id v levels ps h =
      let (entries, e, f) = >>=-eq-ok (entries_of J D id "probabilities" v) _ {end = ps} h in
      levelled-ok id levels entries ps f
