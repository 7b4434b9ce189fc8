-- ===== src/Engine/Lease/Exclusive.antt =====
-- Who may claim an execution, and when (services/engine/src/lease.rs).
use mathlib.Core.Bool.{true≢false}
use ai_engineering_boilerpla.Base.{
  ℕ, ◌+◌, ◌≤◌, ◌≡◌, ◌↔◌, inl, inr, refl, ap, sym, ◌∙◌, subst, Bool, false, not, ◌&&◌, Option, none,
  some, List, [], ◌∷◌, All, arith, ◌==◌, eq_iff, Bool-cases, Option-cases, of_some_pair_eq, String,
  any,
}
use ai_engineering_boilerpla.Base.Tables.{update_where, first_by}
use ai_engineering_boilerpla.EngineCore.Graph.{Instant}
use ai_engineering_boilerpla.EngineCore.Execution.{ExecutionId}
use ai_engineering_boilerpla.Engine.Rows.{ExecutionRow}
use ai_engineering_boilerpla.Engine.Wire.{Columns}
use ai_engineering_boilerpla.Engine.Lease.{claimable, leased_to, claim_one_ready}

module _ (C : Columns) where
  claim-row :
      (locked : ExecutionId → Bool) (owner : String) (lease_for : ℕ) (now : Instant)
      (rows : List ExecutionRow) (id : ExecutionId) (rows' : List ExecutionRow)
      → claim_one_ready C locked owner lease_for now rows ≡ some (id, rows')
      → rows' ≡ update_where (λ r. r.id == id) (leased_to C owner (now + lease_for) now) rows
  unfolding claim_one_ready
  claim-row locked owner lease_for now rows id rows' e =
      elim (Option-cases (
        first_by (λ row. claimable C now row && not (locked row.id)) (λ row. row.updated_at)
          rows)) [
            | inl g ↦ absurd (ground (arith, g))
            | inr (row, g) ↦
                let k : ◌≡◌ {A = Option (ExecutionId × List ExecutionRow)}
                    (some (
                      row.id,
                      update_where (λ r. r.id == row.id) (leased_to C owner (now + lease_for) now)
                          rows,
                    ))
                    (some (id, rows')) =
                  ground (arith, g, e) in
                let (a, b) = of_some_pair_eq k in
                sym b
                ∙ ap
                    (λ i.
                      update_where (λ r. r.id == i) (leased_to C owner (now + lease_for) now) rows)
                    a
          ]

  leased-not_claimable :
      (owner : String) (until now later : Instant) (id : ExecutionId) (rows : List ExecutionRow)
      → later ≤ until
      → All
          (λ r. r.id ≡ id → claimable C later r ≡ false)
          (update_where (λ r. r.id == id) (leased_to C owner until now) rows)
  unfolding update_where claimable leased_to
  leased-not_claimable owner until now later id [] h = tt
  leased-not_claimable owner until now later id (r ∷ rs) h = (
    elim (Bool-cases (r.id == id)) [
      | inl t ↦ rw t (λ q. ground (arith, h))
      | inr t ↦ rw t (λ q. absurd (true≢false (sym ((eq_iff r.id id).1 q) ∙ t)))
    ],
    leased-not_claimable owner until now later id rs h,
  )

  -- As long as its row stays as a claim left it, no one can claim an execution again before its
  -- lease has run out.
  pub claim_exclusive :
      (locked : ExecutionId → Bool) (owner : String) (lease_for : ℕ) (now later : Instant)
      (rows : List ExecutionRow) (id : ExecutionId) (rows' : List ExecutionRow)
      → claim_one_ready C locked owner lease_for now rows ≡ some (id, rows')
      → later ≤ now + lease_for
      → All (λ r. r.id ≡ id → claimable C later r ≡ false) rows'
  claim_exclusive locked owner lease_for now later rows id rows' e h =
      subst (All (λ r. r.id ≡ id → claimable C later r ≡ false))
        (sym (claim-row locked owner lease_for now rows id rows' e))
        (leased-not_claimable owner (now + lease_for) now later id rows h)

  first_by-none :
      (p : ExecutionRow → Bool) (key : ExecutionRow → ℕ) (rows : List ExecutionRow)
      → (first_by p key rows ≡ none) ↔ (any p rows ≡ false)
  unfolding first_by
  first_by-none p key [] = ((λ e. refl), (λ e. refl))
  first_by-none p key (r ∷ rs) = elim (Bool-cases (p r)) [
    | inl t ↦ rw t ((λ e. cc), (λ e. cc))
    | inr t ↦ rw t (first_by-none p key rs)
  ]

  -- Nothing is claimed exactly when no execution that is not locked is ready, has a lease that ran
  -- out, or waits for a timer that has elapsed.
  pub claim_none :
      (locked : ExecutionId → Bool) (owner : String) (lease_for : ℕ) (now : Instant)
      (rows : List ExecutionRow)
      → (claim_one_ready C locked owner lease_for now rows ≡ none)
        ↔ (any (λ r. claimable C now r && not (locked r.id)) rows ≡ false)
  unfolding claim_one_ready
  claim_none locked owner lease_for now rows =
      let p : ExecutionRow → Bool = λ r. claimable C now r && not (locked r.id) in
      let (a, b) = first_by-none p (λ r. r.updated_at) rows in
      elim (Option-cases (first_by p (λ r. r.updated_at) rows)) [
        | inl e ↦ rw (e, claim_one_ready) ((λ f. a e), (λ f. refl))
        | inr (r, e) ↦ rw (e, claim_one_ready) ((λ f. cc), (λ f. absurd (ground (arith, b f, e))))
      ]
