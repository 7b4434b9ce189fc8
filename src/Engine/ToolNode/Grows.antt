-- ===== src/Engine/ToolNode/Grows.antt =====
-- The records that a tool node stores, as the next one reads them
-- (services/engine/src/executors/tool.rs, engine-core/src/state.rs).
use mathlib.Core.List.{append-nil}
use ai_engineering_boilerpla.Base.{
  String, ◌≡◌, refl, sym, ◌∙◌, ap, ◌⊎◌, inl, inr, Option, none, some, List, [], ◌∷◌, ◌++◌, map,
  ◌>>=◌, eq_refl,
}
use ai_engineering_boilerpla.Json.{
  Json, Value, Items, Fields, array, object, as_array, to_list, of_list,
}
use ai_engineering_boilerpla.EngineCore.LlmOutput.{
  Serde, ToolRecord, all_under, read_or_legacy, listed, tool_result_state_key,
}
use ai_engineering_boilerpla.EngineCore.State.{append_each, reduce, items_of}
use ai_engineering_boilerpla.EngineCore.State.Entries.{
  get-reduce, reduced, grown, collected, list_value, to_list-of_list,
}

-- The entry under a key is absent or a list.
abbrev pub IsList : Option Value → Type 0
IsList entry = (entry ≡ none) ⊎ ((items : Items) × (entry ≡ some (array items)))

map-append {ℓ} :
    {A B : Type ℓ} (f : A → B) (xs ys : List A) → map f (xs ++ ys) ≡ map f xs ++ map f ys
map-append f [] ys = refl
map-append f (x ∷ xs) ys = ap (λ t. f x ∷ t) (map-append f xs ys)

module _ (J : Json) (S : Serde) where
  read-written : (r : ToolRecord) → read_or_legacy J S (S.write_record r) ≡ r
  unfolding read_or_legacy
  read-written r = rw (S.read-write r) refl

  all_read-written : (rs : List ToolRecord) → map (read_or_legacy J S) (map S.write_record rs) ≡ rs
  all_read-written [] = refl
  all_read-written (r ∷ rs) = rw (read-written r) (ap (λ t. r ∷ t) (all_read-written rs))

  read_all : List Value → List ToolRecord
  read_all vs = map (read_or_legacy J S) vs

  listed-grown :
      (entry : Option Value) (vs : List Value)
      → IsList entry
      → listed J S (grown entry vs >>= as_array) ≡ listed J S (entry >>= as_array) ++ read_all vs
  unfolding grown read_all list_value collected items_of
  listed-grown entry [] h = sym (append-nil _)
  listed-grown entry (v ∷ vs) (inl e) = rw e (ap read_all (to_list-of_list (v ∷ vs)))
  listed-grown entry (v ∷ vs) (inr (items, e)) = rw e (
      ap read_all (to_list-of_list (to_list items ++ (v ∷ vs)))
      ∙ map-append (read_or_legacy J S) (to_list items) (v ∷ vs))

  -- Where the entry is a list or absent, the records that are read after a node's result was
  -- appended are those that were there and then those of the node, in order.
  pub all_under-reduce :
      (m : Fields) (key : String) (rs : List ToolRecord)
      → IsList (J.get m key)
      → all_under J S
          (object (reduce J m key append_each (array (of_list (map S.write_record rs)))))
          key
        ≡ all_under J S (object m) key ++ rs
  unfolding all_under reduced items_of
  all_under-reduce m key rs h =
      rw
        (
          get-reduce J m key key append_each (array (of_list (map S.write_record rs))),
          eq_refl key,
          to_list-of_list (map S.write_record rs),
        )
        (listed-grown (J.get m key) (map S.write_record rs) h
          ∙ ap (λ t. listed J S (J.get m key >>= as_array) ++ t)
              (unfold read_all in all_read-written rs))

  grown-IsList : (entry : Option Value) (vs : List Value) → IsList entry → IsList (grown entry vs)
  unfolding grown list_value
  grown-IsList entry [] h = h
  grown-IsList entry (v ∷ vs) h = inr (_, refl)

  -- The object after the result `rs` of a tool node.
  unfoldable pub stored : Fields → List ToolRecord → Fields
  unfolding reduce of_list
  stored m rs =
      reduce J m tool_result_state_key append_each (array (of_list (map S.write_record rs)))

  pub stored-IsList :
      (m : Fields) (rs : List ToolRecord)
      → IsList (J.get m tool_result_state_key)
      → IsList (J.get (stored m rs) tool_result_state_key)
  unfolding stored reduced items_of
  stored-IsList m rs h =
      rw
        (get-reduce J m tool_result_state_key tool_result_state_key append_each
          (array (of_list (map S.write_record rs))))
        (grown-IsList (J.get m tool_result_state_key) _ h)
