-- ===== src/LlmRouter/Budget/Kinds.antt =====
-- What `validated_kind` accepts, and that it hands on what was sent
-- (services/llm-router/src/budget.rs).
use Prim.Native.String.{len}
use ai_engineering_boilerpla.Base.{
  ℕ, ◌+◌, ◌≤◌, String, ◌≡◌, ◌↔◌, refl, ap, sym, ◌∙◌, false, inl, inr, Option, none, some, List, [],
  ◌∷◌, ◌==◌, ltb, length, All, Bool-cases, arith,
}
use mathlib.Core.Path.{ap₂, subst}
use ai_engineering_boilerpla.Base.Results.{ok, ◌>>=◌, >>=-eq-ok, of_ok_eq}
use ai_engineering_boilerpla.LlmRouter.Decision.{ChoiceOption, SentKind, QuestionKind}
use ai_engineering_boilerpla.LlmRouter.Budget.{
  max_choice_options, max_score_levels, min_score_levels, max_option_name_bytes,
  max_option_description_bytes, max_level_bytes, Part, level, option_name, when_true, when_false,
  bounded, criterion, bounded_levels, validated_levels, contains, described, new_name, named_option,
  offered_options, validated_options, validated_kind,
}

abbrev pub ShortText : ℕ → Option String → Type 0
ShortText limit none = Unit
ShortText limit (some text) = len text ≤ limit

-- Options with names that are there, short, new and not in `seen`, and short descriptions.
abbrev pub FreshOptions : List String → List ChoiceOption → Type 0
FreshOptions seen [] = Unit
FreshOptions seen (o ∷ os) =
    ((o.name == "") ≡ false)
    × (len o.name ≤ max_option_name_bytes)
    × (contains o.name seen ≡ false)
    × ShortText max_option_description_bytes o.description
    × FreshOptions (o.name ∷ seen) os

abbrev pub KindFits : SentKind → Type 0
KindFits (SentKind.noul t f) = ShortText max_level_bytes t × ShortText max_level_bytes f
KindFits (SentKind.choice options) =
    (1 ≤ length options) × (length options ≤ max_choice_options) × FreshOptions [] options
KindFits (SentKind.score levels) =
    (min_score_levels ≤ length levels)
    × (length levels ≤ max_score_levels)
    × All (λ l. len l ≤ max_level_bytes) levels

-- The kind that is asked is the kind that was sent.
abbrev pub as_sent : SentKind → QuestionKind
as_sent (SentKind.noul t f) = QuestionKind.noul t f
as_sent (SentKind.choice options) = QuestionKind.choice options
as_sent (SentKind.score levels) = QuestionKind.score levels

bounded-ok :
    (id : String) (what : Part) (text : String) (limit : ℕ) (r : String)
    → (bounded id what text limit ≡ ok r) ↔ ((len text ≤ limit) × (r ≡ text))
unfolding bounded
bounded-ok id what text limit r = ((λ h. ground arith), (λ (p, q). ground arith))

criterion-ok :
    (id : String) (what : Part) (text : Option String) (r : Option String)
    → (criterion id what text ≡ ok r) ↔ (ShortText max_level_bytes text × (r ≡ text))
unfolding criterion
criterion-ok id what none r = ((λ h. (tt, sym (of_ok_eq h))), (λ (p, q). ground arith))
criterion-ok id what (some t) r = ((λ h. ground arith), (λ (p, q). ground arith))

described-ok :
    (id name : String) (text : Option String) (r : Option String)
    → (described id name text ≡ ok r) ↔ (ShortText max_option_description_bytes text × (r ≡ text))
unfolding described
described-ok id name none r = ((λ h. (tt, sym (of_ok_eq h))), (λ (p, q). ground arith))
described-ok id name (some t) r = ((λ h. ground arith), (λ (p, q). ground arith))

levels-fit :
    (id : String) (index : ℕ) (ls : List String) {r : List String}
    → bounded_levels id index ls ≡ ok r
    → All (λ l. len l ≤ max_level_bytes) ls × (r ≡ ls)
unfolding bounded_levels
levels-fit id index [] h = (tt, sym (of_ok_eq h))
levels-fit id index (l ∷ ls) h =
    let (text, a, h1) = >>=-eq-ok (bounded id (level index) l max_level_bytes) _ h in
    let (rest, b, h2) = >>=-eq-ok (bounded_levels id (index + 1) ls) _ h1 in
    let (short, same) = (bounded-ok id (level index) l max_level_bytes text).0 a in
    let (fits, same') = levels-fit id (index + 1) ls b in
    ((short, fits), sym (of_ok_eq h2) ∙ ap₂ ◌∷◌ same same')

fit-levels :
    (id : String) (index : ℕ) (ls : List String)
    → All (λ l. len l ≤ max_level_bytes) ls
    → bounded_levels id index ls ≡ ok ls
unfolding bounded_levels
fit-levels id index [] h = refl
fit-levels id index (l ∷ ls) (short, fits) =
    rw ((bounded-ok id (level index) l max_level_bytes l).1 (short, refl))
      (rw (fit-levels id (index + 1) ls fits) refl)

named_option-ok :
    (id name : String) (r : String)
    → (named_option id name ≡ ok r) ↔ (((name == "") ≡ false) × (r ≡ name))
named_option-ok id name r = ((λ h. ground arith), (λ (p, q). ground arith))

new_name-ok :
    (id : String) (seen : List String) (name : String) (r : List String)
    → (new_name id seen name ≡ ok r) ↔ ((contains name seen ≡ false) × (r ≡ name ∷ seen))
new_name-ok id seen name r = ((λ h. ground arith), (λ (p, q). ground arith))

options-fit :
    (id : String) (index : ℕ) (seen : List String) (os : List ChoiceOption) {r : List ChoiceOption}
    → offered_options id index seen os ≡ ok r
    → FreshOptions seen os × (r ≡ os)
unfolding offered_options
options-fit id index seen [] h = (tt, sym (of_ok_eq h))
options-fit id index seen (o ∷ os) h =
    let (given, a, h1) = >>=-eq-ok (named_option id o.name) _ h in
    let (name, b, h2) =
      >>=-eq-ok (bounded id (option_name index) given max_option_name_bytes) _ h1 in
    let (seen', c, h3) = >>=-eq-ok (new_name id seen name) _ h2 in
    let (description, d, h4) = >>=-eq-ok (described id name o.description) _ h3 in
    let (rest, e, h5) = >>=-eq-ok (offered_options id (index + 1) seen' os) _ h4 in
    let (a1, a2) = (named_option-ok id o.name given).0 a in
    let (b1, b2) = (bounded-ok id (option_name index) given max_option_name_bytes name).0 b in
    let n : name ≡ o.name = b2 ∙ a2 in
    let (c1, c2) = (new_name-ok id seen name seen').0 c in
    let (d1, d2) = (described-ok id name o.description description).0 d in
    let (e1, e2) = options-fit id (index + 1) seen' os e in
    (
      (
        a1,
        subst (λ t. len t ≤ max_option_name_bytes) a2 b1,
        subst (λ t. contains t seen ≡ false) n c1,
        d1,
        subst (λ t. FreshOptions t os) (c2 ∙ ap (λ t. t ∷ seen) n) e1,
      ),
      sym (of_ok_eq h5) ∙ ap₂ ◌∷◌ (λ i. record { name = n i; description = d2 i }) e2,
    )

fit-options :
    (id : String) (index : ℕ) (seen : List String) (os : List ChoiceOption)
    → FreshOptions seen os
    → offered_options id index seen os ≡ ok os
unfolding offered_options
fit-options id index seen [] h = refl
fit-options id index seen (o ∷ os) (a, b, c, d, e) =
    rw ((named_option-ok id o.name o.name).1 (a, refl)) (
      rw ((bounded-ok id (option_name index) o.name max_option_name_bytes o.name).1 (b, refl)) (
        rw ((new_name-ok id seen o.name (o.name ∷ seen)).1 (c, refl)) (
          rw ((described-ok id o.name o.description o.description).1 (d, refl))
            (rw (fit-options id (index + 1) (o.name ∷ seen) os e) refl))))

pub at_most : (a b : ℕ) → ltb a b ≡ false → b ≤ a
at_most a b h = ground arith

validated_options-ok :
    (id : String) (os : List ChoiceOption) (r : QuestionKind)
    → (validated_options id os ≡ ok r)
      ↔ (KindFits (SentKind.choice os) × (r ≡ QuestionKind.choice os))
unfolding validated_options
validated_options-ok id [] r = ((λ h. cc), (λ (p, e). absurd (omega arith)))
validated_options-ok id (o ∷ os) r = (sound, complete)
  where
    sound :
        validated_options id (o ∷ os) ≡ ok r
        → KindFits (SentKind.choice (o ∷ os)) × (r ≡ QuestionKind.choice (o ∷ os))
    sound h = elim (Bool-cases (ltb max_choice_options (length (o ∷ os)))) [
      | inl e ↦ absurd (ground arith)
      | inr e ↦
          let h0 : (do offered ← offered_options id 0 [] (o ∷ os); ok (QuestionKind.choice offered))
              ≡ ok r =
            ground arith in
          let (offered, a, h1) = >>=-eq-ok (offered_options id 0 [] (o ∷ os)) _ h0 in
          let (b, c) = options-fit id 0 [] (o ∷ os) a in
          (
            (omega arith, at_most max_choice_options (length (o ∷ os)) e, b),
            sym (of_ok_eq h1) ∙ ap QuestionKind.choice c,
          )
    ]

    complete :
        KindFits (SentKind.choice (o ∷ os)) × (r ≡ QuestionKind.choice (o ∷ os))
        → validated_options id (o ∷ os) ≡ ok r
    complete ((a, b, c), e) =
        let t : ltb max_choice_options (length (o ∷ os)) ≡ false = ground arith in
        rw t (rw (fit-options id 0 [] (o ∷ os) c) (ap ok (sym e)))

validated_levels-ok :
    (id : String) (ls : List String) (r : QuestionKind)
    → (validated_levels id ls ≡ ok r) ↔ (KindFits (SentKind.score ls) × (r ≡ QuestionKind.score ls))
unfolding validated_levels
validated_levels-ok id ls r = (sound, complete)
  where
    sound :
        validated_levels id ls ≡ ok r → KindFits (SentKind.score ls) × (r ≡ QuestionKind.score ls)
    sound h = elim (Bool-cases (ltb (length ls) min_score_levels)) [
      | inl e ↦ absurd (ground arith)
      | inr e ↦ elim (Bool-cases (ltb max_score_levels (length ls))) [
        | inl e' ↦ absurd (ground arith)
        | inr e' ↦
            let h0 : (do named ← bounded_levels id 0 ls; ok (QuestionKind.score named)) ≡ ok r =
              ground arith in
            let (named, a, h1) = >>=-eq-ok (bounded_levels id 0 ls) _ h0 in
            let (b, c) = levels-fit id 0 ls a in
            (
              (at_most (length ls) min_score_levels e, at_most max_score_levels (length ls) e', b),
              sym (of_ok_eq h1) ∙ ap QuestionKind.score c,
            )
      ]
    ]

    complete :
        KindFits (SentKind.score ls) × (r ≡ QuestionKind.score ls) → validated_levels id ls ≡ ok r
    complete ((a, b, c), e) =
        let t : ltb (length ls) min_score_levels ≡ false = ground arith in
        let t' : ltb max_score_levels (length ls) ≡ false = ground arith in
        rw (t, t') (rw (fit-levels id 0 ls c) (ap ok (sym e)))

-- A kind is accepted exactly when every text and every count in it is within its limit and its
-- options have distinct names that are not empty, and what is asked then is what was sent.
pub validated_kind-ok :
    (id : String) (kind : SentKind) (r : QuestionKind)
    → (validated_kind id (some kind) ≡ ok r) ↔ (KindFits kind × (r ≡ as_sent kind))
unfolding validated_kind
validated_kind-ok id (SentKind.noul t f) r = (sound, complete)
  where
    sound :
        validated_kind id (some (SentKind.noul t f)) ≡ ok r
        → KindFits (SentKind.noul t f) × (r ≡ as_sent (SentKind.noul t f))
    sound h =
        let (t', a, h1) = >>=-eq-ok (criterion id when_true t) _ h in
        let (f', b, h2) = >>=-eq-ok (criterion id when_false f) _ h1 in
        let (a1, a2) = (criterion-ok id when_true t t').0 a in
        let (b1, b2) = (criterion-ok id when_false f f').0 b in
        ((a1, b1), sym (of_ok_eq h2) ∙ ap₂ QuestionKind.noul a2 b2)

    complete :
        KindFits (SentKind.noul t f) × (r ≡ as_sent (SentKind.noul t f))
        → validated_kind id (some (SentKind.noul t f)) ≡ ok r
    complete ((p, q), e) =
        rw ((criterion-ok id when_true t t).1 (p, refl))
          (rw ((criterion-ok id when_false f f).1 (q, refl)) (ap ok (sym e)))
validated_kind-ok id (SentKind.choice os) r = validated_options-ok id os r
validated_kind-ok id (SentKind.score ls) r = validated_levels-ok id ls r
