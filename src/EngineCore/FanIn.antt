-- ===== src/EngineCore/FanIn.antt =====
-- engine-core/src/step.rs: fan-out branches and the barrier that joins them, kept in the state
-- under `__fan_in`. `none` is a panic of an `expect`.
pub mod Frame
pub mod Results
pub mod Joining
pub mod Barrier
pub mod Safe
pub mod Consumer
use ai_engineering_boilerpla.Base.{
  ℕ, zero, suc, min, String, Bool, true, false, not, ◌&&◌, Option, none, some, List, [], ◌∷◌, ◌++◌,
  ◌>>=◌, get_or, find_map, if◌then◌else◌, Result, ok, err,
}
use ai_engineering_boilerpla.Json.{
  Json, Value, Items, Fields, null, array, object, nil, cons, end, to_list, as_object, as_array,
  is_null,
}
use ai_engineering_boilerpla.EngineCore.State.{Reducer, reduce}
use ai_engineering_boilerpla.EngineCore.Graph.{NodeId, Graph, Node, fan_in, node, edges_from}
use ai_engineering_boilerpla.EngineCore.Execution.{ActiveNode, plain, Execution}

abbrev pub fan_in_table_key : String
fan_in_table_key = "__fan_in"

abbrev pub u32_max : ℕ
u32_max = 0xffff_ffff

pub record NodeOutput : Type 0 where
  pub node : ActiveNode
  pub result : Result String Value

abbrev pub is_err : Result String Value → Bool
is_err (ok v) = false
is_err (err e) = true

-- `.filter(|candidate| matches!(candidate, Node::FanIn { .. }))`
abbrev pub only_fan_in : Option Node → Option Node
only_fan_in (some (fan_in id key reducer)) = some (fan_in id key reducer)
only_fan_in _ = none

unfoldable pub fan_in_consuming : Graph → NodeId → Option Node
unfolding node edges_from
fan_in_consuming g id = only_fan_in (find_map (λ e. node g e.target) (edges_from g id))

-- The branches `index .. index + count` of a FanOut's target.
unfoldable pub branches : NodeId → ℕ → ℕ → List ActiveNode
branches target index zero = []
branches target index (suc count) =
    record { node = target; branch = some (min index u32_max) } ∷ branches target (suc index) count

unfoldable pub nulls : ℕ → Items
nulls zero = nil
nulls (suc n) = cons null (nulls n)

unfoldable pub count : Items → ℕ
count nil = 0
count (cons x xs) = suc (count xs)

-- `results.resize(index + 1, Null)` where the index is past the end, then `results[index] = v`.
unfoldable pub put : Items → ℕ → Value → Items
put nil zero v = cons v nil
put nil (suc i) v = cons null (put nil i v)
put (cons x xs) zero v = cons v xs
put (cons x xs) (suc i) v = cons x (put xs i v)

unfoldable pub none_null : Items → Bool
none_null nil = true
none_null (cons x xs) = not (is_null x) && none_null xs

module _ (J : Json) where
  open J use {get, insert, pointer}

  -- `json!({"results": results})`
  unfoldable pub barrier : Items → Value
  barrier results = object (insert end "results" (array results))

  -- The table of barriers: `entry(FAN_IN_TABLE).or_insert_with(|| json!({})).as_object_mut()`.
  unfoldable pub fan_in_table : Fields → Option Fields
  fan_in_table m = as_object (get_or (object end) (get m fan_in_table_key))

  -- `slot["results"].as_array_mut()`
  unfoldable pub results_of : Value → Option Items
  results_of slot = do s ← as_object slot; v ← get s "results"; as_array v

  unfoldable pub with_results : Value → Items → Value
  with_results (object s) results = object (insert s "results" (array results))
  with_results slot results = slot

  abbrev pub store_table : Fields → Fields → Fields
  store_table m table = insert m fan_in_table_key (object table)

  unfoldable pub open_barrier : Execution → Option Node → ℕ → Option Execution
  unfolding barrier nulls fan_in_table
  open_barrier x (some (fan_in id key reducer)) spawned = do
    m ← as_object x.state
    table ← fan_in_table m
    some (record x { state = object (store_table m (insert table id (barrier (nulls spawned)))) })
  open_barrier x _ spawned = some x

  unfoldable pub open_fan_in_barrier : Graph → Execution → NodeId → ℕ → Option Execution
  unfolding open_barrier fan_in_consuming
  open_fan_in_barrier g x branch_target spawned =
      open_barrier x (fan_in_consuming g branch_target) spawned

  -- The loop that folds the results with `apply_reducer`.
  unfoldable pub fold_results : Fields → String → Reducer → List Value → Fields
  unfolding reduce
  fold_results m key reducer [] = m
  fold_results m key reducer (v ∷ vs) = fold_results (reduce J m key reducer v) key reducer vs

  -- The barrier of `id` after the result of one branch.
  unfoldable pub record_result : Fields → NodeId → ℕ → Value → Option (Fields × Items)
  unfolding barrier fan_in_table results_of with_results put
  record_result m id index v = do
    table ← fan_in_table m
    let slot = get_or (barrier nil) (get table id)
    results ← results_of slot
    let results' = put results index v
    some (store_table m (insert table id (with_results slot results')), results')

  abbrev pub result_ok : Result String Value → Option Value
  result_ok (ok v) = some v
  result_ok (err e) = none

  -- With all results in they are folded into the state, and the FanIn is activated.
  unfoldable pub settled : Execution → Fields → Items → Bool → NodeId → String → Reducer → Execution
  unfolding fold_results to_list
  settled x m results true id key reducer = record x {
    state = object (fold_results m key reducer (to_list results));
  }
  settled x m results false id key reducer = record x { state = object m }

  unfoldable pub record_fan_in_branch :
      Execution → NodeOutput → Node → List ActiveNode → Option (Execution × List ActiveNode)
  unfolding record_result settled none_null
  record_fan_in_branch x output (fan_in id key reducer) next = do
    index ← output.node.branch
    v ← result_ok output.result
    m ← as_object x.state
    (m', results) ← record_result m id index v
    some (
      settled x m' results (none_null results) id key reducer,
      if none_null results then next ++ plain id ∷ [] else next,
    )
  record_fan_in_branch x output _ next = none
