-- ===== src/Base/Tables/Laws.antt =====
-- What the queries on tables keep.
use ai_engineering_boilerpla.Base.{
  ◌≡◌, subst, Bool, true, false, some, List, [], ◌∷◌, All, Any, here, there, if◌then◌else◌, find,
  of_some_eq, arith, inl, inr, Bool-cases,
}
use ai_engineering_boilerpla.Base.Tables.{update_where, delete_where}

module _ {A : Type 0} (P : A → Type 0) where
  pub All-update_where :
      (p : A → Bool) (f : A → A) (xs : List A)
      → ((a : A) → P a → P (f a))
      → All P xs
      → All P (update_where p f xs)
  unfolding update_where
  All-update_where p f [] k h = tt
  All-update_where p f (x ∷ xs) k (a, b) = (
    elim (p x) as (λ t. P (if t then f x else x)) [ true ↦ k x a | false ↦ a ],
    All-update_where p f xs k b,
  )

  pub All-delete_where : (p : A → Bool) (xs : List A) → All P xs → All P (delete_where p xs)
  unfolding delete_where
  All-delete_where p [] h = tt
  All-delete_where p (x ∷ xs) (a, b) =
      elim (p x) as (λ t. All P (if t then delete_where p xs else x ∷ delete_where p xs)) [
        | true ↦ All-delete_where p xs b
        | false ↦ (a, All-delete_where p xs b)
      ]

  pub All-Any : (a : A) (xs : List A) → Any (λ b. b ≡ a) xs → All P xs → P a
  All-Any a [] m h = elim m [ ]
  All-Any a (x ∷ xs) (here e) (h, k) = subst P e h
  All-Any a (x ∷ xs) (there m) (h, k) = All-Any a xs m k

  pub All-find : (p : A → Bool) (a : A) (xs : List A) → find p xs ≡ some a → All P xs → P a
  All-find p a [] e h = cc
  All-find p a (x ∷ xs) e (h, k) = elim (Bool-cases (p x)) [
    | inl t ↦ subst P (ground (arith, of_some_eq {a = x} {b = a})) h
    | inr t ↦ All-find p a xs (ground arith) k
  ]
