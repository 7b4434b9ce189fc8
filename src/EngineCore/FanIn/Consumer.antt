-- ===== src/EngineCore/FanIn/Consumer.antt =====
-- Which barrier a branch reports to: only the first edge out of its node that leads to a declared
-- node is looked at (engine-core/src/step.rs, against `validate` of graph.rs).
use ai_engineering_boilerpla.Base.{
  String, ◌≡◌, refl, ◌∙◌, true, false, none, some, List, [], ◌∷◌, ok, Option-cases, inl, inr, keep,
  Bool-cases,
}
use ai_engineering_boilerpla.Json.{Json, Value}
use ai_engineering_boilerpla.EngineCore.Graph.{
  NodeId, Graph, Node, Edge, task, fan_out, fan_in, node, edges_from, is_fan_in, validate,
}
use ai_engineering_boilerpla.EngineCore.Graph.Validity.{validate_iff, LeadsToOneFanIn}
use ai_engineering_boilerpla.EngineCore.Graph.Lookup.{node-All}
use ai_engineering_boilerpla.EngineCore.LlmOutput.{Serde}
use ai_engineering_boilerpla.EngineCore.Execution.{ActiveNode, Execution}
use ai_engineering_boilerpla.EngineCore.FanIn.{NodeOutput, only_fan_in, fan_in_consuming}
use ai_engineering_boilerpla.EngineCore.Loop.{fan_handled, fan_handled_output}

first_edge_decides :
    (g : Graph) (id : NodeId) (e : Edge) (es : List Edge) (n : Node)
    → edges_from g id ≡ e ∷ es
    → node g e.target ≡ some n
    → fan_in_consuming g id ≡ only_fan_in (some n)
unfolding fan_in_consuming
first_edge_decides g id e es n h k = rw (h, fan_in_consuming) (rw (k, only_fan_in) refl)

is_fan_in-only_fan_in : (n : Node) → is_fan_in (some n) ≡ false → only_fan_in (some n) ≡ none
is_fan_in-only_fan_in (fan_in id key r) h = cc
is_fan_in-only_fan_in _ h = refl

only_exit_is_fan_in :
    (g : Graph) (e f : Edge)
    → keep (λ d. is_fan_in (node g d.target)) (e ∷ []) ≡ f ∷ []
    → (n : Node) × (node g e.target ≡ some n) × (is_fan_in (some n) ≡ true)
only_exit_is_fan_in g e f h = elim (Option-cases (node g e.target)) [
  | inl k ↦ absurd (nil_ne (rw (k, is_fan_in) at h))
  | inr (n, k) ↦ (
    n,
    k,
    elim (Bool-cases (is_fan_in (some n))) [ inl t ↦ t | inr t ↦ absurd (nil_ne (rw (k, t) at h)) ],
  )
]
  where
    nil_ne : ([] ≡ f ∷ []) → ⊥
    nil_ne z = cc

-- In a graph that `validate` accepts, the target of a FanOut with one way out reports to the FanIn
-- there.
pub single_exit :
    (g : Graph) (id id' target : NodeId) (source item_var : String) (e : Edge)
    → validate g ≡ ok tt
    → node g id ≡ some (fan_out id' source item_var target)
    → edges_from g target ≡ e ∷ []
    → is_fan_in (fan_in_consuming g target) ≡ true
single_exit g id id' target source item_var e v h k =
    let (f, j) = node-All (LeadsToOneFanIn g) g id _ ((validate_iff g).0 v).fan_outs_joined h in
    let (n, a, b) = only_exit_is_fan_in g e f (rw k at j) in
    rw (first_edge_decides g target e [] n k a) (is_fan_in-kept n b)
  where
    is_fan_in-kept :
        (n : Node) → is_fan_in (some n) ≡ true → is_fan_in (only_fan_in (some n)) ≡ true
    is_fan_in-kept (fan_in i key r) t = refl
    is_fan_in-kept _ t = t

-- Where the first edge out of a task leads to a declared node that is no FanIn, no output of the
-- task is collected: `fan_handled_output` passes it by, whatever edges follow, and so also where
-- a later edge leads to the one FanIn that `validate` asks for.
pub first_edge_hides_barrier :
    (J : Json) (S : Serde) (g : Graph) (x : Execution) (o : NodeOutput) (next : List ActiveNode)
    (id kind : String) (config : Value) (e : Edge) (es : List Edge) (n : Node)
    → node g o.node.node ≡ some (task id kind config)
    → edges_from g o.node.node ≡ e ∷ es
    → node g e.target ≡ some n
    → is_fan_in (some n) ≡ false
    → fan_handled_output J S g x o next
      ≡ some (record { handled = false; execution = x; next = next })
unfolding fan_handled_output
first_edge_hides_barrier J S g x o next id kind config e es n t h k f =
    rw (t, fan_handled)
      (rw (first_edge_decides g o.node.node e es n h k ∙ is_fan_in-only_fan_in n f) refl)
