-- ===== src/Base/Tables/Counts.antt =====
-- How many rows the queries on tables count, and what they find.
use ai_engineering_boilerpla.Base.{
  ℕ, ◌+◌, ◌≤◌, ◌≡◌, refl, ap, ◌∙◌, subst, Bool, true, false, some, List, [], ◌∷◌, ◌++◌, All, Any,
  here, there, of_some_eq, arith, inl, inr, Bool-cases, Option-cases, ltb,
}
use ai_engineering_boilerpla.Base.Tables.{count_where, update_where, delete_where, first_by}

module _ {A : Type 0} where
  pub count_where-append :
      (p : A → Bool) (xs ys : List A)
      → count_where p (xs ++ ys) ≡ count_where p xs + count_where p ys
  unfolding count_where
  count_where-append p [] ys = omega arith
  count_where-append p (x ∷ xs) ys = omega (arith, count_where-append p xs ys)

  pub count_where-delete_where :
      (p q : A → Bool) (xs : List A) → count_where p (delete_where q xs) ≤ count_where p xs
  unfolding count_where delete_where
  count_where-delete_where p q [] = omega arith
  count_where-delete_where p q (x ∷ xs) = elim (Bool-cases (q x)) [
    | inl e ↦ rw e (omega (arith, count_where-delete_where p q xs))
    | inr e ↦ rw e (omega (arith, count_where-delete_where p q xs))
  ]

  -- An update adds at most the rows that it changes and that satisfy `r`.
  pub count_where-update_where :
      (p q r : A → Bool) (f : A → A) (xs : List A)
      → ((a : A) → q a ≡ true → p (f a) ≡ true → r a ≡ true)
      → count_where p (update_where q f xs) ≤ count_where p xs + count_where r xs
  unfolding count_where update_where
  count_where-update_where p q r f [] h = omega arith
  count_where-update_where p q r f (x ∷ xs) h =
      let rest = count_where-update_where p q r f xs h in
      elim (Bool-cases (q x)) [
        | inl e ↦ elim (Bool-cases (p (f x))) [
          | inl g ↦ rw e (ground (arith, rest, g, h x e g))
          | inr g ↦ rw e (ground (arith, rest, g))
        ]
        | inr e ↦ rw e (ground (arith, rest))
      ]

  pub count_where-kept :
      (p q : A → Bool) (f : A → A) (xs : List A)
      → ((a : A) → p (f a) ≡ p a)
      → count_where p (update_where q f xs) ≡ count_where p xs
  unfolding count_where update_where
  count_where-kept p q f [] h = refl
  count_where-kept p q f (x ∷ xs) h =
      let rest = count_where-kept p q f xs h in
      elim (Bool-cases (q x)) [
        | inl e ↦ rw e (ground (arith, rest, h x))
        | inr e ↦ rw e (ground (arith, rest))
      ]

  pub count_where-fewer :
      (p q : A → Bool) (f : A → A) (xs : List A)
      → ((a : A) → p (f a) ≡ true → p a ≡ true)
      → count_where p (update_where q f xs) ≤ count_where p xs
  unfolding count_where update_where
  count_where-fewer p q f [] h = omega arith
  count_where-fewer p q f (x ∷ xs) h =
      let rest = count_where-fewer p q f xs h in
      elim (Bool-cases (q x)) [
        | inl e ↦ elim (Bool-cases (p (f x))) [
          | inl g ↦ rw e (ground (arith, rest, g, h x g))
          | inr g ↦ rw e (ground (arith, rest, g))
        ]
        | inr e ↦ rw e (ground (arith, rest))
      ]

  -- Rows of two kinds that exclude each other, among those of a third.
  pub count_where-apart :
      (r s q : A → Bool) (xs : List A)
      → ((a : A) → r a ≡ true → (q a ≡ true) × (s a ≡ false))
      → ((a : A) → s a ≡ true → q a ≡ true)
      → count_where r xs + count_where s xs ≤ count_where q xs
  unfolding count_where
  count_where-apart r s q [] h k = omega arith
  count_where-apart r s q (x ∷ xs) h k =
      let rest = count_where-apart r s q xs h k in
      elim (Bool-cases (r x)) [
        | inl e ↦ ground (arith, rest, e, h x e)
        | inr e ↦ elim (Bool-cases (s x)) [
          | inl g ↦ ground (arith, rest, e, g, k x g)
          | inr g ↦ ground (arith, rest, e, g)
        ]
      ]

  pub count_where-none :
      (p : A → Bool) (xs : List A) → All (λ a. p a ≡ false) xs → count_where p xs ≡ 0
  unfolding count_where
  count_where-none p [] h = refl
  count_where-none p (x ∷ xs) (a, b) = ground (arith, a, count_where-none p xs b)

  pub count_where-Any :
      (p : A → Bool) (a : A) (xs : List A) → Any (λ b. b ≡ a) xs → p a ≡ true → 1 ≤ count_where p xs
  unfolding count_where
  count_where-Any p a [] m e = elim m [ ]
  count_where-Any p a (x ∷ xs) (here q) e = let g : p x ≡ true = ap p q ∙ e in ground (arith, g)
  count_where-Any p a (x ∷ xs) (there m) e = ground (arith, count_where-Any p a xs m e)

  -- What a query finds satisfies it and stands in the table.
  pub first_by-found :
      (p : A → Bool) (key : A → ℕ) (rows : List A) (s : A)
      → first_by p key rows ≡ some s
      → (p s ≡ true) × Any (λ b. b ≡ s) rows
  unfolding first_by
  first_by-found p key [] s e = cc
  first_by-found p key (r ∷ rs) s e = elim (Bool-cases (p r)) [
    | inr f ↦ let (a, b) = first_by-found p key rs s (ground (arith, f, e)) in (a, there b)
    | inl t ↦ elim (Option-cases (first_by p key rs)) [
      | inl g ↦
          let same : r ≡ s = of_some_eq (ground (arith, t, g, e)) in
          (subst (λ a. p a ≡ true) same t, here same)
      | inr (q, g) ↦
          let (a, b) = first_by-found p key rs q g in
          elim (Bool-cases (ltb (key q) (key r))) [
            | inl l ↦
                let same : q ≡ s = of_some_eq (ground (arith, t, g, e, l)) in
                (
                  subst (λ a. p a ≡ true) same a,
                  subst (λ c. Any (λ b. b ≡ c) (r ∷ rs)) same (there b),
                )
            | inr l ↦
                let same : r ≡ s = of_some_eq (ground (arith, t, g, e, l)) in
                (subst (λ a. p a ≡ true) same t, here same)
          ]
    ]
  ]
