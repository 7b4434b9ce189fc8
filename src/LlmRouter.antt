-- ===== src/LlmRouter.antt =====
-- services/llm-router: calls of language models. `Decision` is decision.rs and the messages of the
-- contract, `Budget` and `Request` are budget.rs, `Provider`, `Routing` and `Decisions` the calls.
pub mod Decision
pub mod Budget
pub mod Request
pub mod Provider
pub mod Routing
pub mod Decisions
pub mod Answers
