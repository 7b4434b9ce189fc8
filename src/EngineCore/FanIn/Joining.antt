-- ===== src/EngineCore/FanIn/Joining.antt =====
-- When a barrier joins: exactly when each branch has reported a result that is not null, so a
-- branch whose result is null holds it for ever (engine-core/src/step.rs).
use ai_engineering_boilerpla.Base.{
  ℕ, zero, suc, ◌<◌, ◌≡◌, ◌≢◌, sym, refl, ◌∙◌, true, false, some, List, ◌↔◌, arith, All, of_some_eq,
  if◌then◌else◌, Bool-cases, inl, inr,
}
use ai_engineering_boilerpla.Json.{
  Value, Items, null, bool, number, string, array, object, nil, cons, is_null,
}
use ai_engineering_boilerpla.EngineCore.FanIn.{nulls, count, none_null}
use ai_engineering_boilerpla.EngineCore.FanIn.Results.{
  result_at, reported, member, count-reported, result_at-reported, count-nulls,
}

null_at-none_null : (rs : Items) (j : ℕ) → result_at rs j ≡ some null → none_null rs ≡ false
unfolding result_at none_null
null_at-none_null nil j h = cc
null_at-none_null (cons v rs) zero h = rw (of_some_eq h)
null_at-none_null (cons v rs) (suc j) h = rw (null_at-none_null rs j h) (ground arith)

none_null_of :
    (rs : Items) → ((j : ℕ) → j < count rs → result_at rs j ≢ some null) → none_null rs ≡ true
unfolding result_at none_null count
none_null_of nil h = refl
none_null_of (cons v rs) h =
    rw (none_null_of rs (λ j lt. h (suc j) (omega arith)), not_null v (h 0 (omega arith)))
  where
    not_null : (v : Value) → some v ≢ some null → is_null v ≡ false
    not_null null n = absurd (n refl)
    not_null (bool b) n = refl
    not_null (number s) n = refl
    not_null (string s) n = refl
    not_null (array xs) n = refl
    not_null (object m) n = refl

result_at-nulls : (n j : ℕ) → j < n → result_at (nulls n) j ≡ some null
unfolding result_at nulls
result_at-nulls zero j h = absurd (omega arith)
result_at-nulls (suc n) zero h = refl
result_at-nulls (suc n) (suc j) h = result_at-nulls n j (omega arith)

-- After the reports of the branches `is`, a barrier for `n` branches is complete exactly when
-- every branch has reported, with a result that is not null.
pub none_null-reported :
    (f : ℕ → Value) (n : ℕ) (is : List ℕ)
    → All (λ i. i < n) is
    → (none_null (reported f is (nulls n)) ≡ true)
      ↔ ((j : ℕ) → j < n → (member j is ≡ true) × (f j ≢ null))
none_null-reported f n is h = (complete, joined)
  where
    at_place :
        (j : ℕ)
        → j < n
        → result_at (reported f is (nulls n)) j ≡ (if member j is then some (f j) else some null)
    at_place j lt =
        result_at-reported f is (nulls n) n j (count-nulls n) h lt ∙ rw (result_at-nulls n j lt)

    stuck :
        (j : ℕ)
        → j < n
        → result_at (reported f is (nulls n)) j ≢ some null
        → (member j is ≡ true) × (f j ≢ null)
    stuck j lt k = elim (Bool-cases (member j is)) [
      | inl e ↦ (e, λ z. k (at_place j lt ∙ rw (e, z)))
      | inr e ↦ absurd (k (at_place j lt ∙ rw e))
    ]

    complete :
        none_null (reported f is (nulls n)) ≡ true
        → (j : ℕ) → j < n
        → (member j is ≡ true) × (f j ≢ null)
    complete e j lt = stuck j lt (λ z. cc (null_at-none_null _ j z))

    joined :
        ((j : ℕ) → j < n → (member j is ≡ true) × (f j ≢ null))
        → none_null (reported f is (nulls n)) ≡ true
    joined k = none_null_of _ λ j lt z.
        let lt' : j < n = omega (arith, count-reported f is (nulls n) n (count-nulls n) h) in
        let (m, v) = k j lt' in v (of_some_eq (sym (rw m at (at_place j lt')) ∙ z))
