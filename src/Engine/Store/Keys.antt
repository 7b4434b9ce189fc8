-- ===== src/Engine/Store/Keys.antt =====
-- The unique key of the checkpoints table (services/engine/src/store.rs).
use ai_engineering_boilerpla.Base.{
  ℕ, ◌≡◌, ◌↔◌, refl, sym, ◌∙◌, ap, Bool, true, false, List, [], ◌∷◌, ◌==◌, eq_iff, any, All,
  Bool-cases, inl, inr, arith,
}
use ai_engineering_boilerpla.Base.Integers.{ℤ, pos, negsuc}
use ai_engineering_boilerpla.Engine.Rows.{CheckpointRow}
use ai_engineering_boilerpla.Engine.Store.{same_step, same_key}

same_step_iff : (m : ℕ) (z : ℤ) → (same_step (pos m) z ≡ true) ↔ (z ≡ pos m)
same_step_iff m (pos n) =
    ((λ h. let e : n ≡ m = ground (arith, h) in ap pos e), (λ e. ground (arith, e)))
same_step_iff m (negsuc n) = ((λ h. cc), (λ e. cc))

-- A row with the execution and the step of another.
abbrev pub HasKey : CheckpointRow → CheckpointRow → Type 0
HasKey c q = (q.execution_id ≡ c.execution_id) × (q.step ≡ c.step)

same_key_iff :
    (c : CheckpointRow) (m : ℕ)
    → c.step ≡ pos m
    → (q : CheckpointRow) → (same_key c q ≡ true) ↔ HasKey c q
same_key_iff c m e q = (keyed, equal)
  where
    keyed : same_key c q ≡ true → HasKey c q
    keyed h =
        let a : (c.execution_id == q.execution_id) ≡ true = ground (arith, h) in
        let b : same_step c.step q.step ≡ true = ground (arith, h) in
        (
          sym ((eq_iff c.execution_id q.execution_id).0 a),
          (same_step_iff m q.step).0 (ap (λ z. same_step z q.step) (sym e) ∙ b) ∙ sym e,
        )

    equal : HasKey c q → same_key c q ≡ true
    equal (a, b) =
        let k = (eq_iff c.execution_id q.execution_id).1 (sym a) in
        let l : same_step c.step q.step ≡ true =
          ap (λ z. same_step z q.step) e ∙ (same_step_iff m q.step).1 (b ∙ e) in
        ground (arith, k, l)

module _ {A : Type 0} (p : A → Bool) (P : A → Type 0) where
  any_none_iff :
      ((a : A) → (p a ≡ true) ↔ P a) → (xs : List A) → (any p xs ≡ false) ↔ All (λ a. ¬ P a) xs
  any_none_iff h [] = ((λ e. tt), (λ e. refl))
  any_none_iff h (x ∷ xs) =
      let rest = any_none_iff h xs in
      elim (Bool-cases (p x)) [
        | inl t ↦ ((λ e. absurd (ground (arith, t, e))), (λ (n, k). absurd (n ((h x).0 t))))
        | inr f ↦ (
          (λ e. ((λ q. let t = (h x).1 q in cc), rest.0 (ground (arith, f, e)))),
          (λ (n, k). let e = rest.1 k in ground (arith, f, e)),
        )
      ]

pub same_key-none :
    (c : CheckpointRow) (m : ℕ)
    → c.step ≡ pos m
    → (qs : List CheckpointRow) → (any (λ q. same_key c q) qs ≡ false) ↔ All (λ q. ¬ HasKey c q) qs
same_key-none c m e qs = any_none_iff (λ q. same_key c q) (HasKey c) (same_key_iff c m e) qs
