-- ===== src/EngineCore/Execution/Kept.antt =====
-- What the loop of a super-step leaves alone in an execution: everything but its state and its
-- budget, and a budget only shrinks (engine-core/src/step.rs).
use ai_engineering_boilerpla.Base.{ℕ, ◌≡◌, refl, ◌∙◌, List}
use ai_engineering_boilerpla.Json.{Value}
use ai_engineering_boilerpla.EngineCore.Budget.{Budget}
use ai_engineering_boilerpla.EngineCore.Budget.Laws.{Within, Within-refl, Within-trans}
use ai_engineering_boilerpla.EngineCore.Execution.{ActiveNode, Status, Execution}

pub record SameRun (x y : Execution) : Type 0 where
  pub id : y.id ≡ x.id
  pub graph_id : y.graph_id ≡ x.graph_id
  pub graph_version : y.graph_version ≡ x.graph_version
  pub user_id : y.user_id ≡ x.user_id
  pub max_iterations : y.max_iterations ≡ x.max_iterations
  pub deadline : y.deadline ≡ x.deadline
  pub budget : Within x.budget y.budget

pub record Kept (x y : Execution) : Type 0 where
  pub run : SameRun x y
  pub status : y.status ≡ x.status
  pub current_nodes : y.current_nodes ≡ x.current_nodes
  pub iteration : y.iteration ≡ x.iteration

pub SameRun-trans : (x y z : Execution) → SameRun x y → SameRun y z → SameRun x z
SameRun-trans x y z p q = record {
  id = q.id ∙ p.id;
  graph_id = q.graph_id ∙ p.graph_id;
  graph_version = q.graph_version ∙ p.graph_version;
  user_id = q.user_id ∙ p.user_id;
  max_iterations = q.max_iterations ∙ p.max_iterations;
  deadline = q.deadline ∙ p.deadline;
  budget = Within-trans x.budget y.budget z.budget p.budget q.budget;
}

pub Kept-trans : (x y z : Execution) → Kept x y → Kept y z → Kept x z
Kept-trans x y z p q = record {
  run = SameRun-trans x y z p.run q.run;
  status = q.status ∙ p.status;
  current_nodes = q.current_nodes ∙ p.current_nodes;
  iteration = q.iteration ∙ p.iteration;
}

pub Kept-budget :
    (x : Execution) (b : Budget) → Within x.budget b → Kept x (record x { budget = b })
Kept-budget x b w = record {
  run = record {
    id = refl;
    graph_id = refl;
    graph_version = refl;
    user_id = refl;
    max_iterations = refl;
    deadline = refl;
    budget = w;
  };
  status = refl;
  current_nodes = refl;
  iteration = refl;
}

pub Kept-refl : (x : Execution) → Kept x x
Kept-refl x = Kept-budget x x.budget (Within-refl x.budget)

-- Only the state differs.
pub Kept-state : (x : Execution) (v : Value) → Kept x (record x { state = v })
Kept-state x v = record {
  run = record {
    id = refl;
    graph_id = refl;
    graph_version = refl;
    user_id = refl;
    max_iterations = refl;
    deadline = refl;
    budget = Within-refl x.budget;
  };
  status = refl;
  current_nodes = refl;
  iteration = refl;
}

-- Only the status, the position and the count of iterations differ.
pub SameRun-moved :
    (x : Execution) (s : Status) (nodes : List ActiveNode) (n : ℕ)
    → SameRun x (record x { status = s; current_nodes = nodes; iteration = n })
SameRun-moved x s nodes n = record {
  id = refl;
  graph_id = refl;
  graph_version = refl;
  user_id = refl;
  max_iterations = refl;
  deadline = refl;
  budget = Within-refl x.budget;
}
