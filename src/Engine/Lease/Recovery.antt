-- ===== src/Engine/Lease/Recovery.antt =====
-- What a new engine process does with the executions of the one before it
-- (services/engine/src/lease.rs).
use ai_engineering_boilerpla.Base.{
  ◌≤◌, ◌<◌, ◌≡◌, true, ◌&&◌, List, [], ◌∷◌, All, is_some, Bool-cases, Option-cases, inl, inr, arith,
}
use ai_engineering_boilerpla.Base.Tables.{update_where}
use ai_engineering_boilerpla.EngineCore.Graph.{Instant}
use ai_engineering_boilerpla.Engine.Rows.{ExecutionRow}
use ai_engineering_boilerpla.Engine.Wire.{Columns}
use ai_engineering_boilerpla.Engine.Lease.{is_running, is_after, claimable, expire_abandoned_leases}

module _ (C : Columns) where
  -- After the recovery, every running execution that has a lease can be claimed at any later time.
  pub expire_abandoned_leases-claimable :
      (now later : Instant) (rows : List ExecutionRow)
      → now < later
      → All
          (λ r.
            is_running r.status ≡ true → is_some r.lease_until ≡ true → claimable C later r ≡ true)
          (expire_abandoned_leases now rows).1
  unfolding expire_abandoned_leases update_where claimable
  expire_abandoned_leases-claimable now later [] l = tt
  expire_abandoned_leases-claimable now later (r ∷ rs) l = (
    elim (Bool-cases (is_running r.status && is_after r.lease_until now)) [
      | inl e ↦ rw e (λ a b. ground (arith, a, l))
      | inr e ↦ rw e (λ a b. elim (Option-cases r.lease_until) [
        | inl g ↦ absurd (ground (arith, g, b))
        | inr (t, g) ↦ let past : t ≤ now = ground (arith, e, a, g) in ground (arith, a, g, past, l)
      ])
    ],
    expire_abandoned_leases-claimable now later rs l,
  )
