-- ===== src/EngineCore/FanIn/Safe.antt =====
-- States in which the fan-out machinery does not panic, and that it keeps them
-- (engine-core/src/step.rs).
use ai_engineering_boilerpla.Base.{
  ℕ, String, ◌≡◌, refl, ◌∙◌, subst, true, false, Bool, Option, some, List, [], ◌∷◌, ◌++◌,
  of_some_eq, ◌==◌, get_or, if◌then◌else◌, Bool-cases, Option-cases, inl, inr, ok,
}
use ai_engineering_boilerpla.Json.{Json, Value, Items, Fields, object, nil, to_list}
use ai_engineering_boilerpla.EngineCore.State.{Reducer, reduce}
use ai_engineering_boilerpla.EngineCore.State.Entries.{get-reduce}
use ai_engineering_boilerpla.EngineCore.Graph.{NodeId, Graph, Node, fan_in}
use ai_engineering_boilerpla.EngineCore.Execution.{ActiveNode, plain, Execution}
use ai_engineering_boilerpla.EngineCore.FanIn.{
  NodeOutput, fan_in_table_key, nulls, put, barrier, fan_in_table, results_of, with_results,
  store_table, open_barrier, fan_in_consuming, open_fan_in_barrier, record_result, fold_results,
  settled, none_null, record_fan_in_branch,
}
use ai_engineering_boilerpla.EngineCore.FanIn.Barrier.{
  fan_in_table-store_table, results_of-with_results,
}

module _ (J : Json) where
  open J use {get, insert, get-insert, get-end}

  -- The table of barriers is an object, and each of its slots holds an array of results.
  pub record TableOk (m : Fields) : Type 0 where
    pub table : Fields
    pub is_table : fan_in_table J m ≡ some table
    pub slots :
        (id : NodeId) (slot : Value)
        → get table id ≡ some slot
        → (rs : Items) × (results_of J slot ≡ some rs)

  -- An execution's state: an object with such a table, or with none.
  abbrev pub StateOk : Value → Type 0
  StateOk state = (m : Fields) × (state ≡ object m) × TableOk m

  same_table-TableOk :
      (m m' : Fields) → get m' fan_in_table_key ≡ get m fan_in_table_key → TableOk m → TableOk m'
  same_table-TableOk m m' e h = record { table = h.table; is_table = same; slots = h.slots }
    where
      same : fan_in_table J m' ≡ some h.table
      same = unfold fan_in_table in rw e (unfold fan_in_table in h.is_table)

  pub reduce-TableOk :
      (m : Fields) (key : String) (r : Reducer) (v : Value)
      → (key == fan_in_table_key) ≡ false
      → TableOk m
      → TableOk (reduce J m key r v)
  reduce-TableOk m key r v n h =
      same_table-TableOk m _ (get-reduce J m key fan_in_table_key r v ∙ rw n) h

  results_of-barrier : (rs : Items) → results_of J (barrier J rs) ≡ some rs
  unfolding results_of barrier
  results_of-barrier rs = simp get-insert

  insert_slot-TableOk :
      (m table : Fields) (id : NodeId) (slot : Value) (rs : Items)
      → results_of J slot ≡ some rs
      → ((k : NodeId) (s : Value)
          → get table k ≡ some s
          → (rs : Items) × (results_of J s ≡ some rs))
      → TableOk (store_table J m (insert table id slot))
  insert_slot-TableOk m table id slot rs h slots = record {
    table = insert table id slot;
    is_table = fan_in_table-store_table J m (insert table id slot);
    slots = λ k s e. elim (Bool-cases (id == k)) [
      | inl same ↦ (
        rs,
        subst (λ t. results_of J t ≡ some rs)
            (of_some_eq (rw (get-insert table id k slot, same) at e)) h,
      )
      | inr other ↦ slots k s (rw (get-insert table id k slot, other) at e)
    ];
  }

  record_in_slot :
      (m : Fields) (id : NodeId) (i : ℕ) (v : Value) (slot : Value) (rs : Items) (h : TableOk m)
      → get_or (barrier J nil) (get h.table id) ≡ slot
      → results_of J slot ≡ some rs
      → (m' : Fields) × (rs' : Items) × (record_result J m id i v ≡ some (m', rs')) × TableOk m'
  unfolding record_result
  record_in_slot m id i v slot rs h e c = (
    store_table J m (insert h.table id (with_results J slot (put rs i v))),
    put rs i v,
    rw (h.is_table, record_result) (rw e (rw c refl)),
    insert_slot-TableOk m h.table id _ (put rs i v) (results_of-with_results J slot (put rs i v) c)
        h.slots,
  )

  record_result-TableOk :
      (m : Fields) (id : NodeId) (i : ℕ) (v : Value)
      → TableOk m
      → (m' : Fields) × (rs : Items) × (record_result J m id i v ≡ some (m', rs)) × TableOk m'
  record_result-TableOk m id i v h = elim (Option-cases (get h.table id)) [
    | inl e ↦ record_in_slot m id i v (barrier J nil) nil h (rw e) (results_of-barrier nil)
    | inr (slot, e) ↦ let (rs, c) = h.slots id slot e in record_in_slot m id i v slot rs h (rw e) c
  ]

  fold_results-TableOk :
      (m : Fields) (key : String) (r : Reducer) (vs : List Value)
      → (key == fan_in_table_key) ≡ false
      → TableOk m
      → TableOk (fold_results J m key r vs)
  unfolding fold_results
  fold_results-TableOk m key r [] n h = h
  fold_results-TableOk m key r (v ∷ vs) n h =
      fold_results-TableOk (reduce J m key r v) key r vs n (reduce-TableOk m key r v n h)

  settled-StateOk :
      (x : Execution) (m : Fields) (rs : Items) (b : Bool) (id : NodeId) (key : String)
      (r : Reducer)
      → (key == fan_in_table_key) ≡ false
      → TableOk m
      → StateOk (settled J x m rs b id key r).state
  unfolding settled
  settled-StateOk x m rs true id key r n h =
      (fold_results J m key r (to_list rs), refl, fold_results-TableOk m key r (to_list rs) n h)
  settled-StateOk x m rs false id key r n h = (m, refl, h)

  open_barrier_ok :
      (x : Execution) (n : Option Node) (spawned : ℕ)
      → StateOk x.state
      → (y : Execution) × (open_barrier J x n spawned ≡ some y) × StateOk y.state
  unfolding open_barrier
  open_barrier_ok x (some (fan_in id key r)) spawned (m, e, h) =
      let m' = store_table J m (insert h.table id (barrier J (nulls spawned))) in
      let kept =
        insert_slot-TableOk m h.table id _ (nulls spawned) (results_of-barrier (nulls spawned))
          h.slots in
      (record x { state = object m' }, rw e (rw h.is_table refl), (m', refl, kept))
  open_barrier_ok x _ spawned h = (x, refl, h)

  pub open_fan_in_barrier_ok :
      (g : Graph) (x : Execution) (target : NodeId) (n : ℕ)
      → StateOk x.state
      → (y : Execution) × (open_fan_in_barrier J g x target n ≡ some y) × StateOk y.state
  unfolding open_fan_in_barrier
  open_fan_in_barrier_ok g x target n h = open_barrier_ok x (fan_in_consuming g target) n h

  pub record_fan_in_branch_ok :
      (x : Execution) (o : NodeOutput) (id : NodeId) (key : String) (r : Reducer)
      (next : List ActiveNode) (index : ℕ) (v : Value)
      → (key == fan_in_table_key) ≡ false
      → o.node.branch ≡ some index
      → o.result ≡ ok v
      → StateOk x.state
      → (y : Execution) × (next' : List ActiveNode) × (record_fan_in_branch J x o
            (fan_in id key r)
            next
          ≡ some (y, next'))
        × StateOk y.state
  unfolding record_fan_in_branch
  record_fan_in_branch_ok x o id key r next index v n b c (m, e, h) =
      let (m', rs, a, h') = record_result-TableOk m id index v h in
      (
        settled J x m' rs (none_null rs) id key r,
        (if none_null rs then next ++ plain id ∷ [] else next),
        rw (b, record_fan_in_branch) (rw c (rw e (rw a refl))),
        settled-StateOk x m' rs (none_null rs) id key r n h',
      )
