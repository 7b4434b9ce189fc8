-- ===== src/Engine.antt =====
-- services/engine: runs executions of graphs, with every fact in a database. `Rows` are the tables,
-- `Wire` the conversions, `Lease` and `Store` the transactions, `Tick` the event loop, `Control` and
-- `Service` the calls, `Schedule` the cron daemon, `ToolNode` and `LlmNode` what nodes do, `Workers`
-- the interleavings.
pub mod Rows
pub mod Wire
pub mod Lease
pub mod Store
pub mod Nodes
pub mod Tick
pub mod Control
pub mod Graphs
pub mod Service
pub mod Sweep
pub mod Answers
pub mod Workers
pub mod Schedule
pub mod ToolNode
pub mod LlmNode
