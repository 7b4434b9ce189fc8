-- ===== src/Base/Results.antt =====
-- `Result<A, E>`, and the chain of steps that stops at the first error.
use mathlib.Core.Path.{◌≡◌, refl, ap}

module _ {ℓ} where
  pub data Result (E A : Type ℓ) : Type ℓ where
    err : E → Result E A
    ok : A → Result E A

  module _ {E : Type ℓ} where
    -- The operator `?`.
    infixl 5 ◌>>=◌
    abbrev pub ◌>>=◌ : {A B : Type ℓ} → Result E A → (A → Result E B) → Result E B
    err failure >>= next = err failure
    ok value >>= next = next value

    infixl 5 ◌>>◌
    abbrev pub ◌>>◌ : {A B : Type ℓ} → Result E A → Result E B → Result E B
    first >> second = first >>= λ ignored. second

    pub >>=-eq-ok :
        {A B : Type ℓ} (first : Result E A) (next : A → Result E B) {end : B}
        → (first >>= next) ≡ ok end
        → (value : A) × (first ≡ ok value) × (next value ≡ ok end)
    >>=-eq-ok (err failure) next finished = cc
    >>=-eq-ok (ok value) next finished = (value, refl, finished)

    value_or : {A : Type ℓ} → A → Result E A → A
    value_or other (err failure) = other
    value_or other (ok value) = value

    pub of_ok_eq : {A : Type ℓ} {a b : A} → ◌≡◌ {A = Result E A} (ok a) (ok b) → a ≡ b
    unfolding value_or
    of_ok_eq {a = a} same = ap (value_or a) same
