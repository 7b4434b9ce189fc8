-- ===== src/EngineCore/Builder.antt =====
-- engine-core/src/builder.rs: assembling graphs, and the three built-in ones.
pub mod BuiltIn
use ai_engineering_boilerpla.Base.{ℕ, String, Option, none, some, List, [], ◌∷◌, ◌++◌, ◌>>=◌, true}
use ai_engineering_boilerpla.Json.{Json, Value, Fields, string, bool, object, end}
use ai_engineering_boilerpla.EngineCore.State.{Reducer, replace, append_each}
use ai_engineering_boilerpla.EngineCore.Graph.{
  NodeId, Graph, Node, task, wait, Edge, WaitKind, Condition, always, truthy, negation,
}
use ai_engineering_boilerpla.EngineCore.LlmOutput.{
  Serde, llm_state_key, tool_result_state_key, llm_tool_call_pointer, llm_reply_pointer,
}

pub record GraphBuilder : Type 0 where
  pub nodes : List Node
  pub edges : List Edge
  pub first : Option NodeId
  pub pointer : Option String

unfoldable pub new_builder : GraphBuilder
new_builder = record { nodes = []; edges = []; first = none; pointer = none }

unfoldable pub entry : String → GraphBuilder → GraphBuilder
entry id b = record b { first = some id }

unfoldable pub add_task : String → String → Value → GraphBuilder → GraphBuilder
add_task id kind config b = record b { nodes = b.nodes ++ task id kind config ∷ [] }

unfoldable pub add_wait : String → WaitKind → GraphBuilder → GraphBuilder
add_wait id on b = record b { nodes = b.nodes ++ wait id on ∷ [] }

unfoldable pub add_end : String → GraphBuilder → GraphBuilder
add_end id b = record b { nodes = b.nodes ++ Node.end id ∷ [] }

unfoldable pub answer_at : String → GraphBuilder → GraphBuilder
answer_at pointer b = record b { pointer = some pointer }

unfoldable pub add_edge : String → String → Condition → GraphBuilder → GraphBuilder
add_edge source target condition b = record b {
  edges = b.edges ++ record { source = source; target = target; condition = condition } ∷ [];
}

-- `none` is the panic of a builder without an entry.
unfoldable pub build : String → ℕ → GraphBuilder → Option Graph
build id version b = do
  start ← b.first
  some (record {
    id = id;
    version = version;
    user_id = none;
    nodes = b.nodes;
    edges = b.edges;
    entry = start;
    answer_pointer = b.pointer;
  })

-- `json!` builds an object field by field.
module _ (J : Json) (S : Serde) where
  abbrev pub node_config : String → Reducer → Fields
  node_config key reducer =
      J.insert (J.insert end "state_key" (string key)) "reducer" (S.write_reducer reducer)

  unfoldable pub simple_graph : Option Graph
  unfolding new_builder entry add_task add_end add_edge answer_at build llm_reply_pointer
  simple_graph = build "simple" 1 (
      answer_at llm_reply_pointer (
        add_edge "llm" "end" always (
          add_end "end" (
            add_task "llm" "llm" (object (node_config llm_state_key replace))
              (entry "llm" new_builder)))))

  unfoldable pub rag_graph : String → Option Graph
  unfolding new_builder entry add_task add_end add_edge answer_at build llm_reply_pointer
  rag_graph knowledge_search_tool_slug = build "rag" 1 (
      answer_at llm_reply_pointer (
        add_edge "llm" "end" always (
          add_edge "retrieve" "llm" always (
            add_end "end" (
              add_task "llm" "llm" (object (node_config llm_state_key replace)) (
                add_task "retrieve" "tool"
                  (object (
                    J.insert (node_config "kb_results" replace) "tool_slug"
                      (string knowledge_search_tool_slug)))
                  (entry "retrieve" new_builder)))))))

  unfoldable pub agent_graph : Option Graph
  unfolding new_builder entry add_task add_end add_edge answer_at build llm_reply_pointer
      llm_tool_call_pointer
  agent_graph = build "agent" 1 (
      answer_at llm_reply_pointer (
        add_edge "tool" "llm" always (
          add_edge "llm" "end" (negation (truthy llm_tool_call_pointer)) (
            add_edge "llm" "tool" (truthy llm_tool_call_pointer) (
              add_end "end" (
                add_task "tool" "tool" (object (node_config tool_result_state_key append_each)) (
                  add_task "llm" "llm"
                    (object
                      (J.insert (node_config llm_state_key replace) "tool_calling" (bool true)))
                    (entry "llm" new_builder))))))))
