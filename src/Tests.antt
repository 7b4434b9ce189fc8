-- ===== src/Tests.antt =====
-- Tests of the models and the theorems at concrete inputs.
mod JsonModel
mod Graphs
mod Engine
mod Rules
mod Router
mod Routing
mod Race
mod EngineModel
mod Workers
mod Calls
mod Chunk
mod Topics
mod ClientModel
mod Answers
mod ToolNode
mod LlmNode
mod Daemons
