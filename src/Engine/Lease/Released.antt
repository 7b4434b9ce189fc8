-- ===== src/Engine/Lease/Released.antt =====
-- What a release does to the rows of the table (services/engine/src/lease.rs).
use ai_engineering_boilerpla.Base.{
  ◌<◌, ◌≡◌, ◌↔◌, ◌⊎◌, refl, sym, ◌∙◌, ap, String, Bool, true, Option, none, some, List, [], ◌∷◌,
  ◌&&◌, ◌==◌, eq_iff, Any, here, there, inl, inr, Bool-cases, arith, of_some_eq,
}
use ai_engineering_boilerpla.Base.Tables.{update_where, count_where}
use ai_engineering_boilerpla.Json.{Value}
use ai_engineering_boilerpla.EngineCore.Graph.{Instant}
use ai_engineering_boilerpla.EngineCore.Execution.{ExecutionId}
use ai_engineering_boilerpla.Engine.Rows.{RowStatus, ExecutionRow}
use ai_engineering_boilerpla.Engine.Lease.{is_owner, release_lease}

-- The row of the execution, held by the owner, or by nobody where there is no owner.
abbrev pub IsHeld : ExecutionId → Option String → ExecutionRow → Type 0
IsHeld id owner r = (r.id ≡ id) × (r.lease_owner ≡ owner)

is_owner_iff : (a b : Option String) → (is_owner a b ≡ true) ↔ (b ≡ a)
is_owner_iff none none = ((λ h. refl), (λ e. refl))
is_owner_iff none (some b) = ((λ h. cc), (λ e. cc))
is_owner_iff (some a) none = ((λ h. cc), (λ e. cc))
is_owner_iff (some a) (some b) =
    ((λ h. ap some (sym ((eq_iff a b).0 h))), (λ e. (eq_iff a b).1 (sym (of_some_eq e))))

IsHeld-iff :
    (id : ExecutionId) (owner : Option String) (r : ExecutionRow)
    → ((r.id == id && is_owner owner r.lease_owner) ≡ true) ↔ IsHeld id owner r
IsHeld-iff id owner r = (held, holds)
  where
    held : (r.id == id && is_owner owner r.lease_owner) ≡ true → IsHeld id owner r
    held h = (
      (eq_iff r.id id).0 (ground (arith, h)),
      (is_owner_iff owner r.lease_owner).0 (ground (arith, h)),
    )

    holds : IsHeld id owner r → (r.id == id && is_owner owner r.lease_owner) ≡ true
    holds (e, f) =
        let a = (eq_iff r.id id).1 e in
        let b = (is_owner_iff owner r.lease_owner).1 f in ground (arith, a, b)

module _ {A : Type 0} (p : A → Bool) (P : A → Type 0) where
  one_more :
      ((a : A) → (p a ≡ true) ↔ P a)
      → (x : A) (xs : List A) → (0 < count_where p xs) ↔ Any P xs
      → (0 < count_where p (x ∷ xs)) ↔ Any P (x ∷ xs)
  unfolding count_where
  one_more h x xs k = (counted, positive)
    where
      counted : 0 < count_where p (x ∷ xs) → Any P (x ∷ xs)
      counted n = elim (Bool-cases (p x)) [
        | inl t ↦ here ((h x).0 t)
        | inr f ↦ there (k.0 (ground (arith, f, n)))
      ]

      positive : Any P (x ∷ xs) → 0 < count_where p (x ∷ xs)
      positive (here q) = let t = (h x).1 q in ground (arith, t)
      positive (there m) = let n = k.1 m in ground (arith, n)

  counted_iff : ((a : A) → (p a ≡ true) ↔ P a) → (xs : List A) → (0 < count_where p xs) ↔ Any P xs
  unfolding count_where
  counted_iff h [] = ((λ n. absurd (ground (arith, n))), (λ m. elim m [ ]))
  counted_iff h (x ∷ xs) = one_more h x xs (counted_iff h xs)

module _ (id : ExecutionId) (owner : Option String) (status : RowStatus) (wait : Option Value)
    (nodes : Value) (now : Instant) where
  -- A row that is held loses its lease and has the new status, wait and position; every other row
  -- stays as it is.
  abbrev pub RowReleased : ExecutionRow → ExecutionRow → Type 0
  RowReleased r r' =
      (IsHeld id owner r
        × (r' ≡ record r {
          status = status;
          wait_kind = wait;
          current_nodes = nodes;
          lease_owner = none;
          lease_until = none;
          updated_at = now;
        }))
      ⊎ (¬ IsHeld id owner r × (r' ≡ r))

  abbrev pub Released : List ExecutionRow → List ExecutionRow → Type 0
  Released [] [] = Unit
  Released [] (s ∷ ss) = ⊥
  Released (r ∷ rs) [] = ⊥
  Released (r ∷ rs) (s ∷ ss) = RowReleased r s × Released rs ss

  pub release_lease-IsHeld :
      (rows : List ExecutionRow)
      → (0 < (release_lease id owner status wait nodes now rows).0) ↔ Any (IsHeld id owner) rows
  unfolding release_lease
  release_lease-IsHeld rows = counted_iff _ (IsHeld id owner) (IsHeld-iff id owner) rows

  pub release_lease-Released :
      (rows : List ExecutionRow)
      → Released rows (release_lease id owner status wait nodes now rows).1
  unfolding release_lease update_where
  release_lease-Released [] = tt
  release_lease-Released (r ∷ rs) = elim (Bool-cases (r.id == id && is_owner owner r.lease_owner)) [
    | inl t ↦ (inl ((IsHeld-iff id owner r).0 t, rw t refl), release_lease-Released rs)
    | inr f ↦ (
      inr ((λ h. let t = (IsHeld-iff id owner r).1 h in cc), rw f refl),
      release_lease-Released rs,
    )
  ]

  pub Released-release_lease :
      (rows rows' : List ExecutionRow)
      → Released rows rows'
      → rows' ≡ (release_lease id owner status wait nodes now rows).1
  unfolding release_lease update_where
  Released-release_lease [] [] h = refl
  Released-release_lease [] (s ∷ ss) h = elim h [ ]
  Released-release_lease (r ∷ rs) [] h = elim h [ ]
  Released-release_lease (r ∷ rs) (s ∷ ss) (inl (held, e), h) =
      let t = (IsHeld-iff id owner r).1 held in
      rw t (
        ap (λ xs. s ∷ xs) (Released-release_lease rs ss h)
        ∙ ap (λ x. x ∷ (release_lease id owner status wait nodes now rs).1) e)
  Released-release_lease (r ∷ rs) (s ∷ ss) (inr (free, e), h) =
      elim (Bool-cases (r.id == id && is_owner owner r.lease_owner)) [
        | inl t ↦ absurd (free ((IsHeld-iff id owner r).0 t))
        | inr f ↦ rw f (
            ap (λ xs. s ∷ xs) (Released-release_lease rs ss h)
            ∙ ap (λ x. x ∷ (release_lease id owner status wait nodes now rs).1) e)
      ]
