-- ===== src/Tests/Graphs.antt =====
-- The graphs and executions that the tests run on.
use ai_engineering_boilerpla.Base.{ℕ, String, none, some, List, [], ◌∷◌, Result, ok}
use ai_engineering_boilerpla.Json.{
  Value, Fields, null, number, array, object, nil, cons, end, field,
}
use ai_engineering_boilerpla.EngineCore.State.{append}
use ai_engineering_boilerpla.EngineCore.Graph.{Graph, Node, Edge, task, fan_out, fan_in, always}
use ai_engineering_boilerpla.EngineCore.Execution.{ActiveNode, plain, Execution, ready, Stamps}
use ai_engineering_boilerpla.EngineCore.FanIn.{NodeOutput}

abbrev pub edge : String → String → Edge
edge source target = record { source = source; target = target; condition = always }

abbrev pub graph_of : List Node → List Edge → Graph
graph_of nodes edges = record {
  id = "fan";
  version = 1;
  user_id = none;
  nodes = nodes;
  edges = edges;
  entry = "split";
  answer_pointer = some "/all";
}

abbrev pub fan_nodes : List Node
fan_nodes =
    fan_out "split" "/items" "item" "work"
    ∷ task "work" "tool" (object end)
    ∷ fan_in "join" "all" append
    ∷ Node.end "done"
    ∷ []

-- Two branches of `work`, joined.
abbrev pub fan_graph : Graph
fan_graph = graph_of fan_nodes (edge "work" "join" ∷ edge "join" "done" ∷ [])

-- The same, but that an edge to the end stands before the one to the FanIn.
abbrev pub hidden_graph : Graph
hidden_graph =
    graph_of fan_nodes (edge "work" "done" ∷ edge "work" "join" ∷ edge "join" "done" ∷ [])

abbrev pub stamps : Stamps
stamps = record { new_v4 = λ n. "0"; now = λ n. n }

abbrev pub items : Fields
items = field "items" (array (cons (number "1") (cons (number "2") nil))) end

abbrev pub execution_at : List ActiveNode → Value → ℕ → Execution
execution_at nodes state tool_calls = record {
  id = "x";
  graph_id = "fan";
  graph_version = 1;
  user_id = none;
  status = ready;
  current_nodes = nodes;
  state = state;
  iteration = 0;
  max_iterations = 10;
  deadline = none;
  budget = record {
    tokens_remaining = 100;
    tool_calls_remaining = tool_calls;
    wall_time_remaining = 1;
  };
}

abbrev pub start : Execution
start = execution_at (plain "split" ∷ []) (object items) 9

abbrev pub split_output : NodeOutput
split_output = record { node = plain "split"; result = ok null }

abbrev pub branch_of : ℕ → Result String Value → NodeOutput
branch_of n result = record { node = record { node = "work"; branch = some n }; result = result }
