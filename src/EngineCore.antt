-- ===== src/EngineCore.antt =====
-- engine-core: the pure graph-execution logic. `State` is state.rs, `Graph` is graph.rs and ids.rs,
-- `Budget` is budget.rs, `LlmOutput` is llm_output.rs, `Execution` is execution.rs, event.rs and
-- checkpoint.rs, `Builder` is
-- builder.rs, `FanIn`, `Output`, `Loop` and `Step` are step.rs.
pub mod Budget
pub mod State
pub mod Graph
pub mod LlmOutput
pub mod Execution
pub mod FanIn
pub mod Output
pub mod Loop
pub mod Step
pub mod Builder
