-- ===== src/EngineCore/Graph/Validity.antt =====
-- What a graph that passes `validate` guarantees, in terms of `node` and `edges_from`
-- (engine-core/src/graph.rs).
use ai_engineering_boilerpla.Base.{
  ◌≡◌, ◌↔◌, refl, Bool, true, false, inl, inr, some, List, [], ◌∷◌, ◌++◌, arith, All, any, find,
  keep, length, ok, if◌then◌else◌, Bool-cases,
}
use ai_engineering_boilerpla.EngineCore.Graph.{
  NodeId, Node, Graph, Edge, Problem, task, fan_out, fan_in, subgraph, wait, end, node, edges_from,
  is_fan_in, known, edge_problems, fan_out_problem, fan_out_problems, verdict, validate,
}

-- A node that the graph can look up.
abbrev pub Declared : Graph → NodeId → Type 0
Declared g id = (n : Node) × (node g id ≡ some n)

-- The edges out of `target` that lead to a FanIn.
abbrev pub fan_in_exits : Graph → NodeId → List Edge
fan_in_exits g target = keep (λ e. is_fan_in (node g e.target)) (edges_from g target)

abbrev pub LeadsToOneFanIn : Graph → Node → Type 0
LeadsToOneFanIn g (fan_out id source item_var target) =
    (e : Edge) × (fan_in_exits g target ≡ e ∷ [])
LeadsToOneFanIn g _ = Unit

pub record IsSound (g : Graph) : Type 0 where
  pub entry_declared : Declared g g.entry
  pub edges_declared : All (λ e. Declared g e.source × Declared g e.target) g.edges
  pub fan_outs_joined : All (LeadsToOneFanIn g) g.nodes

find_of_any :
    (p : Node → Bool) (ns : List Node) → any p ns ≡ true → (n : Node) × (find p ns ≡ some n)
find_of_any p [] h = cc
find_of_any p (n ∷ ns) h = elim (Bool-cases (p n)) [
  | inl e ↦ (n, rw e)
  | inr e ↦ rw e (find_of_any p ns (rw e at h))
]

any_of_find : (p : Node → Bool) (ns : List Node) (n : Node) → find p ns ≡ some n → any p ns ≡ true
any_of_find p [] n h = cc
any_of_find p (m ∷ ns) n h = elim (Bool-cases (p m)) [
  | inl e ↦ rw e
  | inr e ↦ rw e (any_of_find p ns n (rw e at h))
]

known-Declared : (g : Graph) (id : NodeId) → known g id ≡ true → Declared g id
unfolding known node
known-Declared g id h = find_of_any _ g.nodes h

Declared-known : (g : Graph) (id : NodeId) → Declared g id → known g id ≡ true
unfolding known node
Declared-known g id (n, h) = any_of_find _ g.nodes n h

-- A test that reports one problem when it fails.
reported {ℓ} : {A : Type ℓ} (b : Bool) (x : A) → (if b then [] else x ∷ []) ≡ [] → b ≡ true
reported true x h = refl
reported false x h = cc

append-eq_nil {ℓ} : {A : Type ℓ} (xs ys : List A) → xs ++ ys ≡ [] → (xs ≡ []) × (ys ≡ [])
append-eq_nil [] ys h = (refl, h)
append-eq_nil (x ∷ xs) ys h = cc

edges-Declared :
    (g : Graph) (es : List Edge)
    → edge_problems g es ≡ []
    → All (λ e. Declared g e.source × Declared g e.target) es
unfolding edge_problems
edges-Declared g [] h = tt
edges-Declared g (e ∷ es) h =
    let (p, q) = append-eq_nil _ _ h in
    let (r, s) = append-eq_nil _ _ q in
    (
      (known-Declared g e.source (reported _ _ p), known-Declared g e.target (reported _ _ r)),
      edges-Declared g es s,
    )

Declared-edges :
    (g : Graph) (es : List Edge)
    → All (λ e. Declared g e.source × Declared g e.target) es
    → edge_problems g es ≡ []
unfolding edge_problems
Declared-edges g [] h = refl
Declared-edges g (e ∷ es) ((p, q), rest) =
    rw (Declared-known g e.source p, Declared-known g e.target q) (Declared-edges g es rest)

one_of_length {ℓ} : {A : Type ℓ} (xs : List A) → length xs ≡ 1 → (x : A) × (xs ≡ x ∷ [])
one_of_length [] h = absurd (omega arith)
one_of_length (x ∷ []) h = (x, refl)
one_of_length (x ∷ y ∷ xs) h = absurd (omega arith)

joined-of_no_problem : (g : Graph) (n : Node) → fan_out_problem g n ≡ [] → LeadsToOneFanIn g n
unfolding fan_out_problem
joined-of_no_problem g (task id kind config) h = tt
joined-of_no_problem g (fan_out id source item_var target) h = one_of_length _ (ground arith)
joined-of_no_problem g (fan_in id key reducer) h = tt
joined-of_no_problem g (subgraph id graph_id version input output_key) h = tt
joined-of_no_problem g (wait id on) h = tt
joined-of_no_problem g (end id) h = tt

no_problem-of_joined : (g : Graph) (n : Node) → LeadsToOneFanIn g n → fan_out_problem g n ≡ []
unfolding fan_out_problem
no_problem-of_joined g (task id kind config) h = refl
no_problem-of_joined g (fan_out id source item_var target) (e, h) = rw h
no_problem-of_joined g (fan_in id key reducer) h = refl
no_problem-of_joined g (subgraph id graph_id version input output_key) h = refl
no_problem-of_joined g (wait id on) h = refl
no_problem-of_joined g (end id) h = refl

fan_outs-joined :
    (g : Graph) (ns : List Node) → fan_out_problems g ns ≡ [] → All (LeadsToOneFanIn g) ns
unfolding fan_out_problems
fan_outs-joined g [] h = tt
fan_outs-joined g (n ∷ ns) h =
    let (p, q) = append-eq_nil _ _ h in (joined-of_no_problem g n p, fan_outs-joined g ns q)

joined-fan_outs :
    (g : Graph) (ns : List Node) → All (LeadsToOneFanIn g) ns → fan_out_problems g ns ≡ []
unfolding fan_out_problems
joined-fan_outs g [] h = refl
joined-fan_outs g (n ∷ ns) (p, rest) = rw (no_problem-of_joined g n p) (joined-fan_outs g ns rest)

verdict-ok : (ps : List Problem) → verdict ps ≡ ok tt → ps ≡ []
verdict-ok [] h = refl
verdict-ok (p ∷ ps) h = cc

-- `validate` accepts a graph exactly when its entry and both ends of every edge are nodes that
-- the graph finds, and the target of every FanOut has exactly one edge that leads to a FanIn.
pub validate_iff : (g : Graph) → (validate g ≡ ok tt) ↔ IsSound g
unfolding validate
validate_iff g = (sound, complete)
  where
    sound : validate g ≡ ok tt → IsSound g
    sound h =
        let (p, q) = append-eq_nil _ _ (verdict-ok _ h) in
        let (r, s) = append-eq_nil _ _ q in
        record {
          entry_declared = known-Declared g g.entry (reported _ _ p);
          edges_declared = edges-Declared g g.edges r;
          fan_outs_joined = fan_outs-joined g g.nodes s;
        }

    complete : IsSound g → validate g ≡ ok tt
    complete v = rw (
      Declared-known g g.entry v.entry_declared,
      Declared-edges g g.edges v.edges_declared,
      joined-fan_outs g g.nodes v.fan_outs_joined,
    )
