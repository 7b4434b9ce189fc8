-- ===== src/EngineCore/Graph.antt =====
-- engine-core/src/graph.rs and ids.rs: a graph as data, the conditions on its edges, and the check
-- of a graph that is registered.
pub mod Validity
pub mod Lookup
use ai_engineering_boilerpla.Base.{
  ℕ, String, Bool, true, false, not, ◌&&◌, ◌||◌, Option, none, some, List, [], ◌∷◌, ◌++◌, ◌>>=◌,
  ◌==◌, eqb, if◌then◌else◌, any, find, keep, is_some, length, map, Result, ok, err,
}
use ai_engineering_boilerpla.Json.{
  Json, Value, Items, Fields, null, bool, number, string, array, object, nil, cons,
}
use ai_engineering_boilerpla.EngineCore.State.{Reducer}

-- ids.rs: newtypes over String and Uuid.
abbrev pub NodeId : Type 0
NodeId = String

abbrev pub GraphId : Type 0
GraphId = String

abbrev pub UserId : Type 0
UserId = String

-- An instant as microseconds.
abbrev pub Instant : Type 0
Instant = ℕ

pub data WaitKind : Type 0 where
  approval : String → WaitKind
  external_event : String → WaitKind
  user_input : WaitKind
  timer : Instant → WaitKind

-- `Vec<Condition>` is the second type of the block.
mutual
  pub data Condition : Type 0 where
    always : Condition
    truthy : String → Condition
    eq : String → Value → Condition
    exists : String → Condition
    negation : Condition → Condition
    conjunction : Conditions → Condition
    disjunction : Conditions → Condition

  pub data Conditions : Type 0 where
    none_left : Conditions
    and_then : Condition → Conditions → Conditions

pub record Edge : Type 0 where
  pub source : NodeId
  pub target : NodeId
  pub condition : Condition

pub data Node : Type 0 where
  -- id, kind, config
  task : NodeId → String → Value → Node
  -- id, source, item_var, target
  fan_out : NodeId → String → String → NodeId → Node
  -- id, key, reducer
  fan_in : NodeId → String → Reducer → Node
  -- id, graph_id, version, input, output_key
  subgraph : NodeId → GraphId → Option ℕ → String → String → Node
  wait : NodeId → WaitKind → Node
  end : NodeId → Node

unfoldable pub node_id : Node → NodeId
node_id (task id kind config) = id
node_id (fan_out id source item_var target) = id
node_id (fan_in id key reducer) = id
node_id (subgraph id graph_id version input output_key) = id
node_id (wait id on) = id
node_id (end id) = id

abbrev pub is_fan_in : Option Node → Bool
is_fan_in (some (fan_in id key reducer)) = true
is_fan_in _ = false

pub record Graph : Type 0 where
  pub id : GraphId
  pub version : ℕ
  pub user_id : Option UserId
  pub nodes : List Node
  pub edges : List Edge
  pub entry : NodeId
  pub answer_pointer : Option String

unfoldable pub node : Graph → NodeId → Option Node
unfolding node_id
node g id = find (λ n. node_id n == id) g.nodes

unfoldable pub edges_from : Graph → NodeId → List Edge
edges_from g start = keep (λ e. e.source == start) g.edges

-- The messages of `validate`, by what they name.
pub data Problem : Type 0 where
  entry_not_declared : NodeId → Problem
  from_unknown : NodeId → Problem
  to_unknown : NodeId → Problem
  fan_ins_found : NodeId → ℕ → Problem

unfoldable pub known : Graph → NodeId → Bool
unfolding node_id
known g id = any (λ n. node_id n == id) g.nodes

unfoldable pub edge_problems : Graph → List Edge → List Problem
unfolding known
edge_problems g [] = []
edge_problems g (e ∷ es) =
    (if known g e.source then [] else from_unknown e.source ∷ [])
    ++ ((if known g e.target then [] else to_unknown e.target ∷ []) ++ edge_problems g es)

unfoldable pub fan_in_edges : Graph → NodeId → ℕ
unfolding edges_from node
fan_in_edges g target = length (keep (λ e. is_fan_in (node g e.target)) (edges_from g target))

unfoldable pub fan_out_problem : Graph → Node → List Problem
unfolding fan_in_edges
fan_out_problem g (fan_out id source item_var target) =
    if eqb (fan_in_edges g target) 1 then [] else fan_ins_found target (fan_in_edges g target) ∷ []
fan_out_problem g _ = []

unfoldable pub fan_out_problems : Graph → List Node → List Problem
unfolding fan_out_problem
fan_out_problems g [] = []
fan_out_problems g (n ∷ ns) = fan_out_problem g n ++ fan_out_problems g ns

abbrev pub verdict : List Problem → Result (List Problem) Unit
verdict [] = ok tt
verdict (p ∷ ps) = err (p ∷ ps)

unfoldable pub validate : Graph → Result (List Problem) Unit
unfolding known edge_problems fan_out_problems
validate g = verdict (
    (if known g g.entry then [] else entry_not_declared g.entry ∷ [])
    ++ (edge_problems g g.edges ++ fan_out_problems g g.nodes))

module _ (J : Json) where
  open J use {pointer, value_eq, is_nonzero, is_empty}

  unfoldable pub answer : Graph → Value → Option Value
  answer g state = do p ← g.answer_pointer; pointer state p

  unfoldable pub is_truthy : Value → Bool
  is_truthy null = false
  is_truthy (bool b) = b
  is_truthy (number n) = is_nonzero n
  is_truthy (string s) = not (s == "")
  is_truthy (array nil) = false
  is_truthy (array (cons x xs)) = true
  is_truthy (object m) = not (is_empty m)

  abbrev pub is_some_and : Option Value → (Value → Bool) → Bool
  is_some_and none p = false
  is_some_and (some v) p = p v

  unfoldable mutual
    pub evaluate_condition : Condition → Value → Bool
    evaluate_condition always state = true
    evaluate_condition (truthy p) state = is_some_and (pointer state p) is_truthy
    evaluate_condition (eq p expected) state =
        is_some_and (pointer state p) (λ v. value_eq v expected)
    evaluate_condition (exists p) state = is_some (pointer state p)
    evaluate_condition (negation inner) state = not (evaluate_condition inner state)
    evaluate_condition (conjunction parts) state = every parts state
    evaluate_condition (disjunction parts) state = some_of parts state

    pub every : Conditions → Value → Bool
    every none_left state = true
    every (and_then c cs) state = evaluate_condition c state && every cs state

    pub some_of : Conditions → Value → Bool
    some_of none_left state = false
    some_of (and_then c cs) state = evaluate_condition c state || some_of cs state
