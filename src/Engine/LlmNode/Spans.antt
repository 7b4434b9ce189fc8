-- ===== src/Engine/LlmNode/Spans.antt =====
-- services/engine/src/executors/llm.rs: the runs of words of a message that may be a value, and the
-- argument of a tool that can be decided. common/src/tool_schema.rs: the annotations of a schema.
pub mod Offered
use Prim.Native.String.{◌++◌}
use ai_engineering_boilerpla.Base.{
  ℕ, zero, suc, String, Bool, true, false, not, ◌&&◌, ◌||◌, Option, none, some, List, [], ◌∷◌,
  ◌>>=◌, length, any, keep, chain, map, get_or, ltb, leb, ◌==◌, if◌then◌else◌, find_map,
}
use ai_engineering_boilerpla.Base.Results.{Result, ok, err}
use ai_engineering_boilerpla.Json.{
  Json, Value, Items, bool, string, array, nil, cons, as_str, as_array, to_list, value_get,
}
use ai_engineering_boilerpla.Engine.ToolNode.{Client}
use ai_engineering_boilerpla.Engine.LlmNode.Ask.{byte_len}

abbrev pub max_span_words : ℕ
max_span_words = 3

abbrev pub max_span_options : ℕ
max_span_options = 200

abbrev pub max_option_name_bytes : ℕ
max_option_name_bytes = 64

abbrev pub no_value_option : String
no_value_option = "none"

abbrev pub accepts_free_text_key : String
accepts_free_text_key = "x-accepts-free-text"

abbrev pub value_in_message_key : String
value_in_message_key = "x-value-in-message"

-- What the standard library does with a text.
pub record Words : Type 0 where
  pub split_whitespace : String → List String
  -- `trim_matches(|c| !c.is_alphanumeric())`
  pub trimmed_to_alphanumeric : String → String
  pub eq_ignore_ascii_case : String → String → Bool
  pub trim : String → String
  pub contains_line_feed : String → Bool

abbrev pub is_nonempty : String → Bool
is_nonempty s = not (s == "")

unfoldable pub take_words : ℕ → List String → List String
take_words zero ws = []
take_words (suc n) [] = []
take_words (suc n) (w ∷ ws) = w ∷ take_words n ws

-- `slice::windows`
unfoldable pub windows : ℕ → List String → List (List String)
unfolding take_words
windows size [] = []
windows size (w ∷ ws) =
    let rest = windows size ws in
    if leb size (length (w ∷ ws)) then take_words size (w ∷ ws) ∷ rest else []

-- `join(" ")`
unfoldable pub joined_by_space : List String → String
joined_by_space [] = ""
joined_by_space (w ∷ []) = w
joined_by_space (w ∷ v ∷ vs) = w ++ " " ++ joined_by_space (v ∷ vs)

module _ (T : Words) where
  -- The condition under which a candidate is passed over.
  unfoldable pub passed_over : List String → String → Bool
  unfolding byte_len
  passed_over found candidate =
      T.eq_ignore_ascii_case candidate no_value_option
      || ltb max_option_name_bytes (byte_len candidate)
      || any (λ f. f == candidate) found

  unfoldable pub with_span : List String → String → List String
  unfolding passed_over
  with_span found candidate =
      if leb max_span_options (length found)
      then found
      else if passed_over found candidate
      then found
      else chain found (candidate ∷ [])

  unfoldable pub with_spans : List String → List (List String) → List String
  unfolding with_span joined_by_space
  with_spans found [] = found
  with_spans found (run ∷ runs) = with_spans (with_span found (joined_by_space run)) runs

  unfoldable pub words_of : String → List String
  words_of message = keep is_nonempty (map T.trimmed_to_alphanumeric (T.split_whitespace message))

  -- The loop over the sizes 1 to `max_span_words`.
  unfoldable pub spans : String → List String
  unfolding words_of with_spans windows
  spans message =
      let words = words_of message in
      with_spans (with_spans (with_spans [] (windows 1 words)) (windows 2 words))
        (windows max_span_words words)

abbrev pub as_bool : Value → Option Bool
as_bool (bool b) = some b
as_bool v = none

abbrev pub parsed_or_not : Result String Value → Option Value
parsed_or_not (ok v) = some v
parsed_or_not (err e) = none

-- `let [only] = required.as_slice()`
abbrev pub the_only : Items → Option Value
the_only (cons v nil) = some v
the_only items = none

abbrev pub nonempty_or_not : {A : Type 0} → List A → Option (List A)
nonempty_or_not [] = none
nonempty_or_not (a ∷ as') = some (a ∷ as')

-- What `filter_map(..).collect()` keeps.
unfoldable pub filter_map {ℓ} : {A B : Type ℓ} → (A → Option B) → List A → List B
filter_map f [] = []
filter_map f (a ∷ as') =
    let rest = filter_map f as' in elim (f a) [ some b ↦ b ∷ rest | none ↦ rest ]

pub data Options : Type 0 where
  closed : List (String × Option String) → Options
  from_message : Options

module _ (J : Json) (C : Client) where
  unfoldable pub flagged : Value → String → Bool
  flagged property key = get_or false (value_get J property key >>= as_bool)

  unfoldable pub is_text : Value → Bool
  is_text property = elim (value_get J property "type" >>= as_str) [
    | some t ↦ t == "string"
    | none ↦ false
  ]

  unfoldable pub const_of : Value → Option (String × Option String)
  const_of variant = do
    value ← value_get J variant "const" >>= as_str
    some (value, value_get J variant "description" >>= as_str)

  unfoldable pub plain_of : Value → Option (String × Option String)
  plain_of value = do text ← as_str value; some (text, none)

  unfoldable pub closed_list : Value → Option (List (String × Option String))
  unfolding filter_map const_of plain_of to_list
  closed_list property = elim (value_get J property "oneOf" >>= as_array) [
    | some variants ↦ nonempty_or_not (filter_map const_of (to_list variants))
    | none ↦ do
      values ← value_get J property "enum" >>= as_array
      nonempty_or_not (filter_map plain_of (to_list values))
  ]

  -- The name of the one required argument, and its schema.
  unfoldable pub required_property : String → Option (String × Value)
  required_property input_schema_json = do
    schema ← parsed_or_not (C.from_text input_schema_json)
    required ← value_get J schema "required" >>= as_array
    name ← the_only required >>= as_str
    property ← value_get J schema "properties" >>= λ ps. value_get J ps name
    some (name, property)

  unfoldable pub options_of : Value → Option Options
  unfolding closed_list flagged
  options_of property = elim (closed_list property) [
    | some listed ↦ some (closed listed)
    | none ↦ if flagged property value_in_message_key then some from_message else none
  ]

  unfoldable pub decidable_field : String → Option (String × String × Options)
  unfolding required_property is_text options_of
  decidable_field input_schema_json = required_property input_schema_json >>= λ (name, property).
      if is_text property
      then (options_of property >>= λ options.
          some (name, get_or name (value_get J property "description" >>= as_str), options))
      else none

  unfoldable pub decidable_argument : String → Option (String × String)
  unfolding decidable_field
  decidable_argument input_schema_json =
      decidable_field input_schema_json >>= λ (name, description, options). some (name, description)

  unfoldable pub single_required_free_text_field : String → Option String
  unfolding required_property is_text flagged
  single_required_free_text_field input_schema_json =
      required_property input_schema_json >>= λ (name, property).
      if is_text property && flagged property accepts_free_text_key then some name else none
