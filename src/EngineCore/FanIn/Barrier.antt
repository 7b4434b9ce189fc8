-- ===== src/EngineCore/FanIn/Barrier.antt =====
-- The barriers kept in the state: what opening one and reporting to it does to its own results
-- and to the other barriers (engine-core/src/step.rs).
use ai_engineering_boilerpla.Base.{
  ℕ, ◌<◌, ◌≡◌, ◌≢◌, refl, ap, ◌∙◌, true, Option, some, List, [], ◌∷◌, arith, All, ◌>>=◌,
  >>=-eq-some, eq_iff, eq_refl, ◌==◌, if◌then◌else◌,
}
use ai_engineering_boilerpla.Json.{Json, Value, Items, Fields, object}
use ai_engineering_boilerpla.EngineCore.Graph.{NodeId}
use ai_engineering_boilerpla.EngineCore.FanIn.{
  nulls, put, fan_in_table, results_of, with_results, store_table, record_result,
}
use ai_engineering_boilerpla.EngineCore.FanIn.Results.{
  reported, in_order, member, reported_in_order,
}

module _ (J : Json) where
  open J use {get, insert, get-insert}

  -- The results collected so far for the FanIn `id`.
  unfoldable pub barrier_of : Fields → NodeId → Option Items
  unfolding fan_in_table results_of
  barrier_of m id = do table ← fan_in_table J m; slot ← get table id; results_of J slot

  pub fan_in_table-store_table :
      (m table : Fields) → fan_in_table J (store_table J m table) ≡ some table
  unfolding fan_in_table
  fan_in_table-store_table m table = simp get-insert

  pub results_of-with_results :
      (slot : Value) {rs : Items} (rs' : Items)
      → results_of J slot ≡ some rs
      → results_of J (with_results J slot rs') ≡ some rs'
  unfolding results_of with_results
  results_of-with_results (object s) rs' h = simp get-insert
  results_of-with_results _ rs' h = cc

  -- The table with a new slot for `id`.
  barrier_of-insert :
      (m table : Fields) (id k : NodeId) (slot : Value)
      → barrier_of (store_table J m (insert table id slot)) k
        ≡ (if id == k then results_of J slot else (get table k >>= results_of J))
  unfolding barrier_of
  barrier_of-insert m table id k slot =
      rw (fan_in_table-store_table m (insert table id slot), get-insert table id k slot)
        (ground arith)

  -- A report to an open barrier puts the result in the branch's place, and no other barrier
  -- changes.
  pub record_result-barrier :
      (m : Fields) (id : NodeId) (rs : Items) (i : ℕ) (v : Value)
      → barrier_of m id ≡ some rs
      → (m' : Fields) × (record_result J m id i v ≡ some (m', put rs i v))
        × (barrier_of m' id ≡ some (put rs i v))
        × ((k : NodeId) → id ≢ k → barrier_of m' k ≡ barrier_of m k)
  unfolding barrier_of record_result
  record_result-barrier m id rs i v h =
      let (table, a, h1) = >>=-eq-some (fan_in_table J m) _ h in
      let (slot, b, c) = >>=-eq-some (get table id) _ h1 in
      (
        store_table J m (insert table id (with_results J slot (put rs i v))),
        rw (a, record_result) (rw b (rw c refl)),
        barrier_of-insert m table id id _
            ∙ rw (eq_refl id) (results_of-with_results slot (put rs i v) c),
        λ k n. barrier_of-insert m table id k _ ∙ rw a (ground (arith, eq_iff id k)),
      )

  -- The reports of several branches, one after the other.
  pub record_all : Fields → NodeId → (ℕ → Value) → List ℕ → Option Fields
  record_all m id f [] = some m
  record_all m id f (i ∷ is) = record_result J m id i (f i) >>= (λ (m', rs). record_all m' id f is)

  record_all-reported :
      (m : Fields) (id : NodeId) (rs : Items) (f : ℕ → Value) (is : List ℕ)
      → barrier_of m id ≡ some rs
      → (m' : Fields) × (record_all m id f is ≡ some m')
        × (barrier_of m' id ≡ some (reported f is rs))
        × ((k : NodeId) → id ≢ k → barrier_of m' k ≡ barrier_of m k)
  unfolding record_all reported
  record_all-reported m id rs f [] h = (m, refl, h, λ k n. refl)
  record_all-reported m id rs f (i ∷ is) h =
      let (m1, a, b, c) = record_result-barrier m id rs i (f i) h in
      let (m2, a', b', c') = record_all-reported m1 id (put rs i (f i)) f is b in
      (m2, rw a a', b', λ k n. c' k n ∙ c k n)

  -- A barrier opened for `n` branches collects their results in the order of the branches, in
  -- whatever order and however often they report, once each has reported; no report panics, and
  -- the barriers of other nodes stay as they are.
  pub record_all-in_order :
      (m : Fields) (id : NodeId) (n : ℕ) (f : ℕ → Value) (is : List ℕ)
      → barrier_of m id ≡ some (nulls n)
      → All (λ i. i < n) is
      → ((j : ℕ) → j < n → member j is ≡ true)
      → (m' : Fields) × (record_all m id f is ≡ some m')
        × (barrier_of m' id ≡ some (in_order f 0 n))
        × ((k : NodeId) → id ≢ k → barrier_of m' k ≡ barrier_of m k)
  record_all-in_order m id n f is h below every =
      let (m', a, b, c) = record_all-reported m id (nulls n) f is h in
      (m', a, b ∙ ap some (reported_in_order f n is below every), c)
