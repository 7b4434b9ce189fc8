-- ===== src/Tests/EngineModel.antt =====
-- A concrete form of the engine's JSON columns, which meets the round trips that the model relies on.
use ai_engineering_boilerpla.Base.{
  ℕ, zero, suc, String, ◌≡◌, refl, ap, Option, none, some, List, [], ◌∷◌,
}
use ai_engineering_boilerpla.Base.Results.{Result, ok, err, ◌>>=◌}
use ai_engineering_boilerpla.Json.{Value, Items, null, string, array, object, nil, cons, end, field}
use ai_engineering_boilerpla.EngineCore.Budget.{Budget, serialize, deserialize}
use ai_engineering_boilerpla.EngineCore.Graph.{
  Instant, WaitKind, approval, external_event, user_input, timer,
}
use ai_engineering_boilerpla.EngineCore.Execution.{ActiveNode}
use ai_engineering_boilerpla.Engine.Wire.{Columns}
use ai_engineering_boilerpla.Tests.Graphs.{fan_graph}

unfoldable pub nat : ℕ → Value
nat zero = null
nat (suc n) = array (cons (nat n) nil)

unfoldable pub nat_of : Value → ℕ
nat_of (array (cons v nil)) = suc (nat_of v)
nat_of v = 0

nat_of-nat : (n : ℕ) → nat_of (nat n) ≡ n
unfolding nat_of nat
nat_of-nat zero = refl
nat_of-nat (suc n) = ap (λ k. suc k) (nat_of-nat n)

unfoldable pub node_value : ActiveNode → Value
unfolding nat
node_value a = elim a.branch [
  | none ↦ array (cons (string a.node) nil)
  | some n ↦ array (cons (string a.node) (cons (nat n) nil))
]

unfoldable pub node_of : Value → Result String ActiveNode
unfolding nat_of
node_of (array (cons (string s) nil)) = ok (record { node = s; branch = none })
node_of (array (cons (string s) (cons v nil))) = ok (record { node = s; branch = some (nat_of v) })
node_of v = err "no node"

node_of-node_value : (a : ActiveNode) → node_of (node_value a) ≡ ok a
unfolding node_of node_value
node_of-node_value a = by_branch a.branch
  where
    by_branch :
        (b : Option ℕ)
        → node_of (node_value (record { node = a.node; branch = b }))
          ≡ ok (record { node = a.node; branch = b })
    by_branch none = refl
    by_branch (some n) = λ i. ok (record { node = a.node; branch = some (nat_of-nat n i) })

unfoldable pub node_items : List ActiveNode → Items
unfolding node_value
node_items [] = nil
node_items (a ∷ as') = cons (node_value a) (node_items as')

unfoldable pub nodes_in : Items → Result String (List ActiveNode)
unfolding node_of
nodes_in nil = ok []
nodes_in (cons v vs) = do a ← node_of v; rest ← nodes_in vs; ok (a ∷ rest)

unfoldable pub nodes_of : Value → Result String (List ActiveNode)
unfolding nodes_in
nodes_of (array vs) = nodes_in vs
nodes_of v = err "no nodes"

unfoldable pub nodes_value : List ActiveNode → Value
unfolding node_items
nodes_value ns = array (node_items ns)

nodes_in-node_items : (ns : List ActiveNode) → nodes_in (node_items ns) ≡ ok ns
unfolding nodes_in node_items
nodes_in-node_items [] = refl
nodes_in-node_items (a ∷ as') = rw (node_of-node_value a) (rw (nodes_in-node_items as') refl)

pub nodes_of-nodes_value : (ns : List ActiveNode) → nodes_of (nodes_value ns) ≡ ok ns
unfolding nodes_of nodes_value
nodes_of-nodes_value ns = nodes_in-node_items ns

unfoldable pub wait_value : WaitKind → Value
unfolding nat
wait_value (approval risk) = string risk
wait_value (external_event key) = object (field key null end)
wait_value user_input = null
wait_value (timer t) = array (cons (nat t) nil)

unfoldable pub wait_of : Value → Result String WaitKind
unfolding nat_of
wait_of (string risk) = ok (approval risk)
wait_of (object (field key v end)) = ok (external_event key)
wait_of null = ok user_input
wait_of (array (cons v nil)) = ok (timer (nat_of v))
wait_of v = err "no wait"

pub wait_of-wait_value : (w : WaitKind) → wait_of (wait_value w) ≡ ok w
unfolding wait_of wait_value
wait_of-wait_value (approval risk) = refl
wait_of-wait_value (external_event key) = refl
wait_of-wait_value user_input = refl
wait_of-wait_value (timer t) = ap (λ n. ok (timer n)) (nat_of-nat t)

unfoldable pub until : Value → Option Instant
unfolding nat_of
until (array (cons v nil)) = some (nat_of v)
until v = none

pub until-wait_value : (t : Instant) → until (wait_value (timer t)) ≡ some t
unfolding until wait_value
until-wait_value t = ap some (nat_of-nat t)

unfoldable pub budget_value : Budget → Value
unfolding nat serialize
budget_value b = array (
    cons (nat b.tokens_remaining)
      (cons (nat b.tool_calls_remaining) (cons (nat (serialize b.wall_time_remaining)) nil)))

unfoldable pub budget_of : Value → Result String Budget
unfolding nat_of deserialize
budget_of (array (cons a (cons b (cons c nil)))) = ok (record {
  tokens_remaining = nat_of a;
  tool_calls_remaining = nat_of b;
  wall_time_remaining = deserialize (nat_of c);
})
budget_of v = err "no budget"

pub budget_of-budget_value :
    (b : Budget)
    → budget_of (budget_value b)
      ≡ ok (record b { wall_time_remaining = deserialize (serialize b.wall_time_remaining) })
unfolding budget_of budget_value
budget_of-budget_value b = λ i. ok (record {
  tokens_remaining = nat_of-nat b.tokens_remaining i;
  tool_calls_remaining = nat_of-nat b.tool_calls_remaining i;
  wall_time_remaining = deserialize (nat_of-nat (serialize b.wall_time_remaining) i);
})

instance abbrev pub columns : Columns
columns = record {
  nodes_to_value = nodes_value;
  nodes_from_value = nodes_of;
  wait_to_value = wait_value;
  wait_from_value = wait_of;
  budget_to_value = budget_value;
  budget_from_value = budget_of;
  graph_to_value = λ g. null;
  graph_from_value = λ v. ok fan_graph;
  payload_to_value = λ p. null;
  timer_until = until;
  nodes-round_trip = nodes_of-nodes_value;
  wait-round_trip = wait_of-wait_value;
  budget-round_trip = budget_of-budget_value;
  timer_until-timer = until-wait_value;
}
