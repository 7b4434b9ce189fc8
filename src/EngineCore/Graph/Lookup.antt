-- ===== src/EngineCore/Graph/Lookup.antt =====
-- What every node of a graph satisfies, the node that it looks up satisfies
-- (engine-core/src/graph.rs).
use ai_engineering_boilerpla.Base.{
  ◌≡◌, Bool, inl, inr, some, List, [], ◌∷◌, All, find, of_some_eq, subst, Bool-cases,
}
use ai_engineering_boilerpla.EngineCore.Graph.{NodeId, Node, Graph, node}

find-All :
    (P : Node → Type 0) (p : Node → Bool) (ns : List Node) (n : Node)
    → All P ns
    → find p ns ≡ some n
    → P n
find-All P p [] n a h = cc
find-All P p (m ∷ ns) n (a, as') h = elim (Bool-cases (p m)) [
  | inl e ↦ subst P (of_some_eq (rw e at h)) a
  | inr e ↦ find-All P p ns n as' (rw e at h)
]

pub node-All :
    (P : Node → Type 0) (g : Graph) (id : NodeId) (n : Node)
    → All P g.nodes
    → node g id ≡ some n
    → P n
unfolding node
node-All P g id n a h = find-All P _ g.nodes n a h
