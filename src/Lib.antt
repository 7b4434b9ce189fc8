-- ===== src/Lib.antt =====
-- Verification of the AI engineering boilerplate, a set of services that crawl sites, keep a
-- knowledge base, route calls of language models and run agents as graphs.
--
-- The program's parts and the files that model them:
--
-- EngineCore.antt and below: the crate engine-core, the pure logic by which services/engine runs
-- a graph of nodes. `step` is handed an execution and the outputs of its active nodes and hands
-- back the new execution and its events; the service keeps the database and runs the nodes.
--   EngineCore/Budget.antt     engine-core/src/budget.rs: `charge`, `exhausted`, the JSON form
--   EngineCore/State.antt      engine-core/src/state.rs: `apply_reducer`
--   EngineCore/Graph.antt      engine-core/src/graph.rs and ids.rs: nodes, edges, conditions,
--                              `validate`
--   EngineCore/LlmOutput.antt  engine-core/src/llm_output.rs: tool records, `first_shown`
--   EngineCore/Execution.antt  engine-core/src/execution.rs, event.rs, checkpoint.rs
--   EngineCore/FanIn.antt      engine-core/src/step.rs: branches and the barrier that joins them
--   EngineCore/Output.antt     engine-core/src/step.rs: `apply_output`
--   EngineCore/Loop.antt       engine-core/src/step.rs: the loop over the outputs
--   EngineCore/Step.antt       engine-core/src/step.rs: the rest of `step`, `park_next`,
--                              `interrupt`
--   EngineCore/Builder.antt    engine-core/src/builder.rs: `GraphBuilder`, the built-in graphs
--
-- LlmRouter.antt and below: services/llm-router, which calls language models for the others.
--   LlmRouter/Decision.antt    services/llm-router/src/decision.rs and the request messages
--   LlmRouter/Budget.antt      services/llm-router/src/budget.rs: the limits and the checks of
--                              one question's kind
--   LlmRouter/Request.antt     services/llm-router/src/budget.rs: `validated_decision`,
--                              `published`
--   LlmRouter/Provider.antt    services/llm-router/src/provider.rs and tiers.rs: the data of a call
--   LlmRouter/Routing.antt     services/llm-router/src/router.rs: `complete`
--   LlmRouter/Decisions.antt   services/llm-router/src/decisions.rs: `decide`, `describe_models`
--   LlmRouter/Answers.antt     services/llm-router/src/adapters/system_one/answers.rs:
--                              `read_verdict`; numbers are of a type with the comparisons that
--                              the code makes, and a map of probabilities is a list
--
-- Tool.antt and below: services/tool, the tools that agents call.
--   Tool/Race.antt             services/tool/src/race.rs: `race`, with the order in which the
--                              operations end as a parameter
--
-- Engine.antt and below: services/engine, which runs executions of graphs and keeps every fact in a
-- database. A table is a list of rows; a query or a transaction is one function on the database and
-- so one access, of which an error leaves nothing. Calls that make several accesses take the
-- database that each of them meets. Rows that another transaction has locked are a parameter of a
-- claim. Where two rows tie in an order the first one is taken. A version or a step below 0 counts
-- as 0 in an order.
--   Engine/Rows.antt           services/engine/src/entity and execution_event.rs: the tables
--   Engine/Wire.antt           services/engine/src/wire.rs: columns of statuses and checkpoints
--   Engine/Lease.antt          services/engine/src/lease.rs: claims, releases, recovery
--   Engine/Store.antt          services/engine/src/store.rs: `latest`, `commit_step`
--   Engine/Nodes.antt          services/engine/src/tick.rs: `run_active_nodes`, `branch_state`
--   Engine/Tick.antt           services/engine/src/tick.rs: `run_one` and its accesses
--   Engine/Control.antt        services/engine/src/control.rs, owned.rs, error.rs: interrupt,
--                              resume, cancel, with what they read by service.rs
--   Engine/Graphs.antt         services/engine/src/service.rs: versions of graphs
--   Engine/Service.antt        services/engine/src/service.rs: `start_continuing` and what an
--                              execution carries over from an earlier one
--   Engine/Sweep.antt          services/engine/src/sweep.rs: `sweep_terminal`
--   Engine/Schedule.antt       services/engine/src/scheduler.rs, schedule_service.rs
--   Engine/ToolNode.antt       services/engine/src/executors/tool.rs: `execute` and the records it
--                              leaves; common/src/execution_input.rs
--   Engine/LlmNode.antt        services/engine/src/executors/llm.rs: its requests, and the services
--                              as functions of the state of the world, which each call changes
--   Engine/LlmNode/Reply.antt  the output of a node: parsing, usage, refusals
--   Engine/LlmNode/Material.antt
--                              the material that is shown, and how it is cut
--   Engine/LlmNode/Prompt.antt the request to a model; fixed texts are named, not copied
--   Engine/LlmNode/Ask.antt    the questions about a reply, and the state that fits the decider:
--                              eight tries, as in the code, after which the reply is refused
--   Engine/LlmNode/Spans.antt  the runs of words of a message, the schemas of tools;
--                              common/src/tool_schema.rs
--   Engine/LlmNode/Questions.antt, Engine/LlmNode/Choice.antt
--                              the questions about a message and what the answers allow
--   Engine/LlmNode/Checked.antt
--                              three attempts at a model; the check of a reply and of the second
--   Engine/LlmNode/Run.antt, Run/Compose.antt, Run/Paths.antt
--                              the fast paths, composing, and `execute`
--   Engine/Workers.antt        all of these on one database, an access at a time in any order
--
-- KnowledgeBase.antt and below: services/knowledge-base, the documents that agents search.
--   KnowledgeBase/Chunk.antt   services/knowledge-base/src/chunk.rs: `split`
--
-- Chat.antt and below: services/chat, the topics that a user talks about.
--   Chat/Rows.antt             services/chat/src/entity and error.rs: the tables
--   Chat/Topics.antt           services/chat/src/topic_manager.rs, topic_queue.rs,
--                              session_manager.rs: how topics are admitted and promoted
--   Chat/Focus.antt            services/chat/src/topic_focus.rs, topic_manager.rs: how topics end,
--                              the focus of a session, its reset
--   Chat/Watcher.antt          services/chat/src/topic_watcher.rs: which events are handled
--
-- Json.antt: values of serde_json, with the operations on objects, pointers and numbers that the
-- program calls as a record of functions and their documented laws. Base.antt and below: shared
-- names, tests on numbers, options and lists. Tests.antt and below: a concrete store of JSON
-- values that meets those laws, and the theorems at concrete inputs.
--
-- How the code is read. A function that mutates its argument returns the new value. A panic of an
-- `expect` is `none`. u32 arithmetic keeps its bound: `saturating_*` and `try_from(..).unwrap_or`
-- are written out, and the iteration count wraps at 2^32 as in a release build. Texts that
-- `format!` builds for errors are values that name what the text names, or, where the text goes on
-- as data, the text itself. Event ids and times, the clock, what serde derives, the range of
-- durations of chrono, `try_join_all`, the operations of `str` that a file calls and the order of
-- f64 are parameters. All recursion is structural but for the loop of `race`, which is given as
-- many turns as there are operations: each turn ends one. Ticks, calls and daemons that work at
-- once are steps of a relation, each one access to the database.
--
-- Not modelled: SQL and failures of a database itself (an access that fails is one that does not
-- happen), HTTP and gRPC transport, the streams and timers of the async
-- runtime, proto code that the build generates, and the services' glue around the parts above.
pub mod Base
pub mod Json
pub mod EngineCore
pub mod LlmRouter
pub mod Tool
pub mod Engine
pub mod Chat
pub mod KnowledgeBase
mod Tests
