-- ===== src/EngineCore/State/Entries.antt =====
-- What each reducer leaves under its key and under every other key, against an independent
-- description of an entry as the list of what was collected in it (engine-core/src/state.rs).
use ai_engineering_boilerpla.Base.{
  String, ◌≡◌, refl, ◌∙◌, ap, Option, none, some, List, [], ◌∷◌, ◌++◌, arith, ◌==◌, eq_iff, eq_refl,
  if◌then◌else◌, get_or,
}
use mathlib.Core.List.{append_assoc}
use ai_engineering_boilerpla.Json.{
  Json, Value, Items, Fields, null, bool, number, string, array, object, nil, cons, end, to_list,
  of_list,
}
use ai_engineering_boilerpla.EngineCore.State.{
  Reducer, replace, append, append_each, merge, push, append_to, items_of, append_entry, append_all,
  merge_into, reduce,
}

-- The values that an entry has collected.
unfoldable pub collected : Option Value → List Value
unfolding items_of
collected none = []
collected (some v) = items_of v

unfoldable pub list_value : List Value → Value
unfolding of_list
list_value vs = array (of_list vs)

-- The object that an entry holds; anything else holds no field.
abbrev pub fields_of : Value → Fields
fields_of (object m) = m
fields_of _ = end

-- A list of new values collected on top of an entry; with none the entry stays as it is.
unfoldable pub grown : Option Value → List Value → Option Value
unfolding collected list_value
grown old [] = old
grown old (v ∷ vs) = some (list_value (collected old ++ v ∷ vs))

push-of_list : (xs : Items) (v : Value) → push xs v ≡ of_list (to_list xs ++ v ∷ [])
unfolding push of_list to_list
push-of_list nil v = refl
push-of_list (cons x xs) v = ap (cons x) (push-of_list xs v)

pub to_list-of_list : (vs : List Value) → to_list (of_list vs) ≡ vs
unfolding of_list to_list
to_list-of_list [] = refl
to_list-of_list (v ∷ vs) = ap (λ t. v ∷ t) (to_list-of_list vs)

append_to-collected :
    (old : Option Value) (v : Value)
    → append_to (get_or (array nil) old) v ≡ list_value (collected old ++ v ∷ [])
unfolding append_to collected list_value
append_to-collected none v = refl
append_to-collected (some null) v = refl
append_to-collected (some (bool b)) v = refl
append_to-collected (some (number n)) v = refl
append_to-collected (some (string s)) v = refl
append_to-collected (some (array xs)) v = ap array (push-of_list xs v)
append_to-collected (some (object m)) v = refl

collected-list_value : (vs : List Value) → collected (some (list_value vs)) ≡ vs
unfolding collected list_value
collected-list_value vs = to_list-of_list vs

grown-grown :
    (old : Option Value) (v : Value) (vs : List Value)
    → grown (some (list_value (collected old ++ v ∷ []))) vs ≡ grown old (v ∷ vs)
unfolding grown
grown-grown old v [] = refl
grown-grown old v (w ∷ ws) =
    rw (collected-list_value (collected old ++ v ∷ []))
      (ap (λ t. some (list_value t)) (append_assoc (collected old) (v ∷ []) (w ∷ ws)))

module _ (J : Json) where
  open J use {get, insert, extend, get-insert, get-extend, get-end}

  get-append_entry :
      (m : Fields) (key k : String) (v : Value)
      → get (append_entry J m key v) k
        ≡ (if key == k then some (list_value (collected (get m key) ++ v ∷ [])) else get m k)
  unfolding append_entry
  get-append_entry m key k v =
      rw (get-insert m key k _, append_to-collected (get m key) v, append_entry)

  get-append_all :
      (m : Fields) (key k : String) (vs : List Value)
      → get (append_all J m key vs) k ≡ (if key == k then grown (get m key) vs else get m k)
  unfolding append_all grown
  get-append_all m key k [] = ground (arith, eq_iff key k)
  get-append_all m key k (v ∷ vs) =
      get-append_all (append_entry J m key v) key k vs
      ∙ rw
          (
            get-append_entry m key key v,
            get-append_entry m key k v,
            eq_refl key,
            grown-grown (get m key) v vs,
          )
          (unfold grown in ground arith)

  -- The entry after a reducer, described on the entry alone.
  unfoldable pub reduced : Reducer → Option Value → Value → Option Value
  unfolding grown items_of merge_into
  reduced replace old v = some v
  reduced append old v = grown old (v ∷ [])
  reduced append_each old v = grown old (items_of v)
  reduced merge old v = some (merge_into J (get_or (object end) old) v)

  -- Under its own key each collecting reducer adds exactly the values it is given, in order, to
  -- what was there (`replace` starts afresh), whatever was there; every other key is untouched,
  -- by `merge` too.
  pub get-reduce :
      (m : Fields) (key k : String) (r : Reducer) (v : Value)
      → get (reduce J m key r v) k ≡ (if key == k then reduced r (get m key) v else get m k)
  unfolding reduce reduced
  get-reduce m key k replace v = get-insert m key k v
  get-reduce m key k append v = get-append_entry m key k v
  get-reduce m key k append_each v = get-append_all m key k (items_of v)
  get-reduce m key k merge v = get-insert m key k _

  -- Merging an object into an object: the new value where the incoming object has the field, the
  -- old one elsewhere.
  pub get-merge_into :
      (existing incoming : Fields) (k : String)
      → get (fields_of (merge_into J (object existing) (object incoming))) k
        ≡ elim (get incoming k) [ some v ↦ some v | none ↦ get existing k ]
  unfolding merge_into
  get-merge_into existing incoming k = get-extend existing incoming k
