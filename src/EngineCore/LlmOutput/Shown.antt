-- ===== src/EngineCore/LlmOutput/Shown.antt =====
-- Which tool records a prompt shows (engine-core/src/llm_output.rs).
use ai_engineering_boilerpla.Base.{
  ℕ, ◌-◌, ◌≡◌, refl, max, ◌==◌, Bool, true, false, inl, inr, List, [], ◌∷◌, ◌++◌, length, arith,
  Bool-cases, ◌↔◌, eq_iff, ap, ◌∙◌,
}
use ai_engineering_boilerpla.EngineCore.LlmOutput.{
  ToolRecord, made_in_the_same_step_as, join_chunk, chunk_by, last_length, first_shown,
  rendered_tool_results,
}

module _ {ℓ} {A : Type ℓ} (p : A → A → Bool) where
  -- Each element is related to the one before it.
  abbrev pub Linked : List A → Type 0
  Linked [] = Unit
  Linked (a ∷ []) = Unit
  Linked (a ∷ b ∷ rs) = (p a b ≡ true) × Linked (b ∷ rs)

  chunk-Linked : (a : A) (xs : List A) → Linked (a ∷ xs) → chunk_by p (a ∷ xs) ≡ (a ∷ xs) ∷ []
  unfolding chunk_by
  chunk-Linked a [] h = refl
  chunk-Linked a (b ∷ xs) (e, h) = rw (chunk-Linked b xs h) (rw e)

  last-Linked :
      (a : A) (xs : List A) → Linked (a ∷ xs) → last_length (chunk_by p (a ∷ xs)) ≡ length (a ∷ xs)
  unfolding last_length
  last-Linked a xs h = rw (chunk-Linked a xs h)

  -- At least two chunks, the last of length `n`.
  abbrev EndsIn : List (List A) → ℕ → Type ℓ
  EndsIn cs n =
      (c d : List A) × (ds : List (List A)) × (cs ≡ c ∷ d ∷ ds) × (last_length (d ∷ ds) ≡ n)

  join-EndsIn : (x : A) (cs : List (List A)) (n : ℕ) → EndsIn cs n → EndsIn (join_chunk p x cs) n
  unfolding join_chunk last_length
  join-EndsIn x cs n ([], d, ds, e, h) = (x ∷ [], [], d ∷ ds, rw e, h)
  join-EndsIn x cs n (y ∷ ys, d, ds, e, h) = elim (Bool-cases (p x y)) [
    | inl t ↦ (x ∷ y ∷ ys, d, ds, rw e (rw t), h)
    | inr t ↦ (x ∷ [], y ∷ ys, d ∷ ds, rw e (rw t), h)
  ]

  chunk-EndsIn :
      (front : List A) (b a : A) (rest : List A)
      → p b a ≡ false
      → Linked (a ∷ rest)
      → EndsIn (chunk_by p (front ++ b ∷ a ∷ rest)) (length (a ∷ rest))
  unfolding chunk_by
  chunk-EndsIn [] b a rest e h =
      (b ∷ [], a ∷ rest, [], rw (chunk-Linked a rest h) (rw e refl), unfold last_length in refl)
  chunk-EndsIn (x ∷ front) b a rest e h = join-EndsIn x _ _ (chunk-EndsIn front b a rest e h)

  last-EndsIn : (cs : List (List A)) (n : ℕ) → EndsIn cs n → last_length cs ≡ n
  unfolding last_length
  last-EndsIn cs n (c, d, ds, e, h) = rw e h

-- Two records of one step: they were fetched at the same time, and it is known when.
abbrev pub SameStep : ToolRecord → ToolRecord → Type 0
SameStep a b = ¬ (a.fetched_at ≡ "") × (a.fetched_at ≡ b.fetched_at)

-- Each record is of the same step as the one before it.
abbrev pub IsOneStep : List ToolRecord → Type 0
IsOneStep [] = Unit
IsOneStep (a ∷ []) = Unit
IsOneStep (a ∷ b ∷ rs) = SameStep a b × IsOneStep (b ∷ rs)

-- The last record of a list is of another step than this one.
abbrev pub EndsBefore : List ToolRecord → ToolRecord → Type 0
EndsBefore [] a = Unit
EndsBefore (b ∷ []) a = ¬ SameStep b a
EndsBefore (b ∷ c ∷ bs) a = EndsBefore (c ∷ bs) a

made_in_the_same_step_as_iff :
    (a b : ToolRecord) → (made_in_the_same_step_as a b ≡ true) ↔ SameStep a b
unfolding made_in_the_same_step_as
made_in_the_same_step_as_iff a b =
    let (unknown, empty) = eq_iff a.fetched_at "" in
    let (same, equal) = eq_iff a.fetched_at b.fetched_at in
    (
      (λ h. ((λ e. let x = empty e in ground (arith, x, h)), same (ground (arith, h)))),
      (λ (known, e).
          let x = equal e in
          elim (Bool-cases (a.fetched_at == "")) [
            | inl t ↦ absurd (known (unknown t))
            | inr f ↦ ground (arith, x, f)
          ]),
    )

IsOneStep-Linked : (rs : List ToolRecord) → IsOneStep rs → Linked made_in_the_same_step_as rs
IsOneStep-Linked [] h = tt
IsOneStep-Linked (a ∷ []) h = tt
IsOneStep-Linked (a ∷ b ∷ rs) (s, h) =
    ((made_in_the_same_step_as_iff a b).1 s, IsOneStep-Linked (b ∷ rs) h)

-- The last step of a history, and what came before it.
abbrev pub LastStep : List ToolRecord → List ToolRecord → ToolRecord → List ToolRecord → Type 0
LastStep records before a rest =
    (records ≡ before ++ a ∷ rest) × IsOneStep (a ∷ rest) × EndsBefore before a

put_before :
    (r : ToolRecord) (records before : List ToolRecord) (a : ToolRecord) (rest : List ToolRecord)
    → LastStep records before a rest
    → (before' : List ToolRecord) × (a' : ToolRecord) × (rest' : List ToolRecord) × LastStep
        (r ∷ records)
        before'
        a'
        rest'
put_before r records (b ∷ bs) a rest (e, h, k) = (r ∷ b ∷ bs, a, rest, (ap (λ rs. r ∷ rs) e, h, k))
put_before r records [] a rest (e, h, k) = elim (Bool-cases (made_in_the_same_step_as r a)) [
  | inl t ↦
      let same = (made_in_the_same_step_as_iff r a).0 t in
      ([], r, a ∷ rest, (ap (λ rs. r ∷ rs) e, (same, h), tt))
  | inr f ↦
      let other : ¬ SameStep r a = λ s. let t = (made_in_the_same_step_as_iff r a).1 s in cc in
      (r ∷ [], a, rest, (ap (λ rs. r ∷ rs) e, h, other))
]

LastStep-of :
    (r : ToolRecord) (rs : List ToolRecord)
    → (before : List ToolRecord) × (a : ToolRecord) × (rest : List ToolRecord) × LastStep
        (r ∷ rs)
        before
        a
        rest
LastStep-of r [] = ([], r, [], (refl, tt, tt))
LastStep-of r (s ∷ rs) =
    let (before, a, rest, h) = LastStep-of s rs in put_before r (s ∷ rs) before a rest h

chunks-EndsIn :
    (b : ToolRecord) (bs : List ToolRecord) (a : ToolRecord) (rest : List ToolRecord)
    → IsOneStep (a ∷ rest)
    → EndsBefore (b ∷ bs) a
    → EndsIn made_in_the_same_step_as
        (chunk_by made_in_the_same_step_as ((b ∷ bs) ++ a ∷ rest))
        (length (a ∷ rest))
unfolding chunk_by
chunks-EndsIn b [] a rest h k = elim (Bool-cases (made_in_the_same_step_as b a)) [
  | inl t ↦ absurd (k ((made_in_the_same_step_as_iff b a).0 t))
  | inr f ↦ chunk-EndsIn made_in_the_same_step_as [] b a rest f (IsOneStep-Linked (a ∷ rest) h)
]
chunks-EndsIn b (c ∷ bs) a rest h k =
    join-EndsIn made_in_the_same_step_as b _ _ (chunks-EndsIn c bs a rest h k)

last_chunk :
    (before : List ToolRecord) (a : ToolRecord) (rest : List ToolRecord)
    → IsOneStep (a ∷ rest)
    → EndsBefore before a
    → last_length (chunk_by made_in_the_same_step_as (before ++ a ∷ rest)) ≡ length (a ∷ rest)
last_chunk [] a rest h k =
    last-Linked made_in_the_same_step_as a rest (IsOneStep-Linked (a ∷ rest) h)
last_chunk (b ∷ bs) a rest h k =
    last-EndsIn made_in_the_same_step_as _ _ (chunks-EndsIn b bs a rest h k)

-- Every history that is not empty ends in the records of one step, all fetched at one known time
-- but for a single record, and exactly those are shown, or the last four where that is more.
pub first_shown_exact :
    (r : ToolRecord) (rs : List ToolRecord)
    → (before : List ToolRecord) × (a : ToolRecord) × (rest : List ToolRecord) × LastStep
        (r ∷ rs)
        before
        a
        rest
      × (first_shown (r ∷ rs) ≡ length (r ∷ rs) - max 4 (length (a ∷ rest)))
unfolding first_shown
first_shown_exact r rs =
    let (before, a, rest, (e, h, k)) = LastStep-of r rs in
    (
      before,
      a,
      rest,
      (e, h, k),
      ap
            (λ (records : List ToolRecord).
              length (r ∷ rs)
              - max rendered_tool_results (last_length (chunk_by made_in_the_same_step_as records)))
            e
          ∙ ap (λ (n : ℕ). length (r ∷ rs) - max rendered_tool_results n)
              (last_chunk before a rest h k),
    )
