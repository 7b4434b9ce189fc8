-- ===== src/EngineCore/Builder/BuiltIn.antt =====
-- What the built-in graphs guarantee (engine-core/src/builder.rs).
use ai_engineering_boilerpla.Base.{
  String, ◌≡◌, refl, Option, none, some, false, ◌==◌, [], ◌∷◌, if◌then◌else◌, ok, arith,
}
use ai_engineering_boilerpla.Json.{Json, Value, Fields, string, object}
use ai_engineering_boilerpla.EngineCore.State.{Reducer, replace, append_each}
use ai_engineering_boilerpla.EngineCore.Graph.{
  NodeId, task, Graph, validate, node, edges_from, evaluate_condition, truthy,
}
use ai_engineering_boilerpla.EngineCore.LlmOutput.{Serde, llm_tool_call_pointer}
use ai_engineering_boilerpla.EngineCore.Execution.{Execution, plain}
use ai_engineering_boilerpla.EngineCore.Output.{state_key, reducer_of}
use ai_engineering_boilerpla.EngineCore.Loop.{fired}
use ai_engineering_boilerpla.EngineCore.Loop.Applied.{GraphOk, is_reserved}
use ai_engineering_boilerpla.EngineCore.Builder.{node_config, simple_graph, rag_graph, agent_graph}

module _ (J : Json) (S : Serde) where
  open J use {get-insert}

  -- Each built-in graph is built, passes `validate`, and leaves the table of barriers alone, so
  -- that `step` is total on it, whatever slug the knowledge search has.
  abbrev pub IsUsable : Option Graph → Type 0
  IsUsable none = ⊥
  IsUsable (some g) = (validate g ≡ ok tt) × GraphOk J S g

  config_free :
      (m : Fields) (key : String)
      → J.get m "state_key" ≡ some (string key)
      → (key == "__fan_in") ≡ false
      → is_reserved (state_key J S (object m)) ≡ false
  unfolding state_key
  config_free m key h n = rw h n

  node_config-free :
      (key : String) (r : Reducer)
      → (key == "__fan_in") ≡ false
      → is_reserved (state_key J S (object (node_config J S key r))) ≡ false
  node_config-free key r n = config_free _ key (simp get-insert) n

  pub built_in-IsUsable :
      (slug : String)
      → IsUsable (simple_graph J S) × IsUsable (rag_graph J S slug) × IsUsable (agent_graph J S)
  unfolding simple_graph rag_graph agent_graph validate
  built_in-IsUsable slug = (
    (refl, (node_config-free "llm" replace refl, (tt, tt))),
    (
      refl,
      (
        config_free _ "kb_results" (simp get-insert) refl,
        (node_config-free "llm" replace refl, (tt, tt)),
      ),
    ),
    (
      refl,
      (
        config_free _ "llm" (simp get-insert) refl,
        (node_config-free "tool_result" append_each refl, (tt, tt)),
      ),
    ),
  )

  config_reducer :
      (m : Fields) (r : Reducer)
      → J.get m "reducer" ≡ some (S.write_reducer r)
      → reducer_of J S (object m) ≡ some r
  unfolding reducer_of
  config_reducer m r h = rw (h, reducer_of) (S.read-write_reducer r)

  -- The node `id` of `g` is a task whose output enters the state under `key` by `reducer`.
  abbrev pub Writes : Graph → NodeId → String → Reducer → Type 0
  Writes g id key reducer =
      (kind : String) × (config : Value) × (node g id ≡ some (task id kind config))
      × (state_key J S config ≡ some key)
      × (reducer_of J S config ≡ some reducer)

  -- In the agent graph the model's reply replaces the one before, the results of tools are
  -- collected one by one, and in every state exactly one edge leaves an llm node that has
  -- returned: to the tool if the reply holds a tool call, to the end if not.
  abbrev pub IsAgentLoop : Option Graph → Type 0
  IsAgentLoop none = ⊥
  IsAgentLoop (some g) =
      Writes g "llm" "llm" replace
      × Writes g "tool" "tool_result" append_each
      × ((x : Execution)
          → fired J S x (edges_from g "llm") ≡ (
              if evaluate_condition J (truthy llm_tool_call_pointer) x.state
              then plain "tool" ∷ []
              else plain "end" ∷ []))
      × ((x : Execution) → fired J S x (edges_from g "tool") ≡ plain "llm" ∷ [])

  pub agent_graph-IsAgentLoop : IsAgentLoop (agent_graph J S)
  unfolding agent_graph fired edges_from evaluate_condition node state_key
  agent_graph-IsAgentLoop = (
    ("llm", _, refl, simp get-insert, config_reducer _ replace (simp get-insert)),
    ("tool", _, refl, simp get-insert, config_reducer _ append_each (simp get-insert)),
    (λ x. ground arith),
    (λ x. refl),
  )
