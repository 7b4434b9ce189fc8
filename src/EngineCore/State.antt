-- ===== src/EngineCore/State.antt =====
-- engine-core/src/state.rs: how a node's output enters the execution state.
pub mod Entries
use ai_engineering_boilerpla.Base.{String, Option, none, some, List, [], ◌∷◌, get_or}
use ai_engineering_boilerpla.Json.{
  Json, Value, Items, Fields, null, array, object, nil, cons, end, to_list,
}

-- graph.rs, `enum Reducer`
pub data Reducer : Type 0 where
  replace append append_each merge : Reducer

-- Vec::push
unfoldable pub push : Items → Value → Items
push nil v = cons v nil
push (cons x xs) v = cons x (push xs v)

-- The match on the entry in the branch `Append`.
unfoldable pub append_to : Value → Value → Value
unfolding push
append_to (array items) v = array (push items v)
append_to other v = array (cons other (cons v nil))

-- What `AppendEach` appends one by one.
unfoldable pub items_of : Value → List Value
unfolding to_list
items_of (array items) = to_list items
items_of one = one ∷ []

module _ (J : Json) where
  open J use {get, insert, extend}

  unfoldable pub append_entry : Fields → String → Value → Fields
  unfolding append_to
  append_entry m key v = insert m key (append_to (get_or (array nil) (get m key)) v)

  unfoldable pub append_all : Fields → String → List Value → Fields
  append_all m key [] = m
  append_all m key (v ∷ vs) = append_all (append_entry m key v) key vs

  -- The `if let` of the branch `Merge`.
  unfoldable pub merge_into : Value → Value → Value
  merge_into (object existing) (object incoming) = object (extend existing incoming)
  merge_into entry value = entry

  unfoldable pub reduce : Fields → String → Reducer → Value → Fields
  unfolding append_entry append_all merge_into items_of
  reduce m key replace v = insert m key v
  reduce m key append v = append_entry m key v
  reduce m key append_each v = append_all m key (items_of v)
  reduce m key merge v = insert m key (merge_into (get_or (object end) (get m key)) v)

  -- `none` is the panic on a state that is no object.
  unfoldable pub apply_reducer : Value → String → Reducer → Value → Option Value
  unfolding reduce
  apply_reducer (object m) key reducer v = some (object (reduce m key reducer v))
  apply_reducer _ key reducer v = none
