-- ===== src/Tests/Rules.antt =====
-- The theorems on reducers, graphs, budgets and tool records at concrete inputs.
use ai_engineering_boilerpla.Base.{
  ◌-◌, max, String, ◌≡◌, ◌↔◌, refl, none, some, List, [], ◌∷◌, ok, false, length, if◌then◌else◌,
  ◌==◌,
}
use ai_engineering_boilerpla.Json.{Value, null, number, array, object, nil, cons, end, field}
use ai_engineering_boilerpla.EngineCore.State.{append_each, reduce, merge_into}
use ai_engineering_boilerpla.EngineCore.State.Entries.{
  get-reduce, reduced, get-merge_into, fields_of,
}
use ai_engineering_boilerpla.EngineCore.Graph.{Node, node, edges_from, validate}
use ai_engineering_boilerpla.EngineCore.Graph.Validity.{IsSound, validate_iff}
use ai_engineering_boilerpla.EngineCore.LlmOutput.{ToolRecord, first_shown}
use ai_engineering_boilerpla.EngineCore.LlmOutput.Shown.{LastStep, first_shown_exact}
use ai_engineering_boilerpla.EngineCore.FanIn.Consumer.{first_edge_hides_barrier}
use ai_engineering_boilerpla.EngineCore.Loop.{fan_handled_output}
use ai_engineering_boilerpla.Tests.JsonModel.{json, serde, lookup}
use ai_engineering_boilerpla.Tests.Graphs.{fan_graph, hidden_graph, items, start, branch_of, edge}

abbrev seen : Value
seen = array (cons (number "3") (cons (number "4") nil))

get-reduce_example : lookup (reduce json items "items" append_each seen) "items" ≡ (
    if "items" == "items"
    then reduced json append_each (lookup items "items") seen
    else lookup items "items")
get-reduce_example = get-reduce json items "items" "items" append_each seen

get-merge_into_example :
    lookup (fields_of (merge_into json (object items) (object (field "b" null end)))) "items"
    ≡ elim (lookup (field "b" null end) "items") [ some v ↦ some v | none ↦ lookup items "items" ]
get-merge_into_example = get-merge_into json items (field "b" null end) "items"

validate_iff_example : (validate fan_graph ≡ ok tt) ↔ IsSound fan_graph
validate_iff_example = validate_iff fan_graph

hidden_graph_valid : validate hidden_graph ≡ ok tt
unfolding validate
hidden_graph_valid = refl

fan_graph_valid : validate fan_graph ≡ ok tt
unfolding validate
fan_graph_valid = refl

first_edge_hides_barrier_example :
    fan_handled_output json serde hidden_graph start (branch_of 0 (ok (number "5"))) []
    ≡ some (record { handled = false; execution = start; next = [] })
first_edge_hides_barrier_example =
    first_edge_hides_barrier json serde hidden_graph start (branch_of 0 (ok (number "5"))) [] "work"
      "tool" (object end) (edge "work" "done") (edge "work" "join" ∷ []) (Node.end "done")
      (unfold node in refl) (unfold edges_from in refl) (unfold node in refl) refl

abbrev made_at : String → ToolRecord
made_at time = record { name = "search"; args = null; result = null; fetched_at = time }

abbrev last_step : List ToolRecord
last_step = made_at "2" ∷ made_at "2" ∷ []

abbrev earlier : List ToolRecord
earlier = made_at "1" ∷ made_at "1" ∷ last_step

first_shown_exact_example :
    (before : List ToolRecord) × (a : ToolRecord) × (rest : List ToolRecord) × LastStep
      (made_at "0" ∷ earlier)
      before
      a
      rest
    × (first_shown (made_at "0" ∷ earlier)
        ≡ length (made_at "0" ∷ earlier) - max 4 (length (a ∷ rest)))
first_shown_exact_example = first_shown_exact (made_at "0") earlier
