-- ===== src/Lib.antt =====
-- Verification library of the mini agent, a customer-service agent that answers one kind of request:
-- where is my order. A request is understood by a language model, whose proposal (a "next move") the
-- deterministic core checks before any tool runs. This library models that deterministic core.
--
-- The parts, with the code that they model:
-- - Prelude: tests, lists, results, integers, and text as lists of code points.
-- - Json: JSON values and their equality, the scan for trusted fields, and `freeze_json_value` over
--   a heap of containers that may be shared or cyclic (src/mini_agent/core/common.py).
-- - Clock: times and `require_utc` (src/mini_agent/core/common.py).
-- - Order: order numbers and their normalisation, the query, result and summary of the order service
--   (src/mini_agent/core/order.py, and `_normalize_order_id` of src/mini_agent/core/request_processing.py).
-- - Tools: specs, registrations, the registry snapshot, gate decisions, calls, attempts
--   (src/mini_agent/core/tool_system.py), and the write commands of a tool call (src/mini_agent/application/records.py).
-- - Tasks, Runs, Observation: the records of tasks, customers, manifests, runs, trace events and
--   observations, with their validators (src/mini_agent/core/task_state.py,
--   src/mini_agent/core/identity.py, src/mini_agent/core/memory.py,
--   src/mini_agent/core/trace.py).
-- - Gateway: `evaluate_control_gateway` (src/mini_agent/core/control_gateway.py). It reads a revalidated move, the
--   records of the task and the registry snapshot, and composes the gate decision.
-- - Executor: `execute_get_order` (src/mini_agent/application/read_tool_executor.py), which takes an authorised
--   command through the ports: insert the call, start the attempt behind a fence, ask the order
--   service, finalize, save the observation.
-- - Understanding: from what the model says of a message to the first task. Contracts and Output have
--   its input and output (src/mini_agent/core/request_understanding.py), Durable what is kept of them
--   (src/mini_agent/core/task_state.py); Span finds a quote in its message, Project turns candidates
--   into durable ones, Graph gives the reason to reject a candidate or builds the graph of its task,
--   Closure ties the record to the accepted deltas, Decision has the three results, Reducer composes
--   these into one, and Revalidation hands its next move to the gate
--   (src/mini_agent/core/request_processing.py).
-- - Session: the sessions of the server (src/mini_agent/infrastructure/auth/p0_session.py).
-- - Presentation: the plan for an answer, its policy and the answer itself (src/mini_agent/core/presentation.py,
--   src/mini_agent/core/presentation_policy.py, src/mini_agent/application/deterministic_renderer.py). The format
--   of dates and numbers is a parameter.
-- - Lifecycle: the start and the end of a run (src/mini_agent/application/agent_run_service.py, with its
--   commands in src/mini_agent/application/records.py). Command and Ending have `FinalizeRunCommand` with its
--   table of endings, Service and Task the methods that make it, Trace the events of the first decision
--   and of a tool call, Initial and InitialGraph the commands that write the understanding of a request.
--   Readings of the clock and UUIDs come in turn; the ports return, and that they apply a command is a
--   parameter.
-- - Recovery: what a restart does to a run, its tool call and its task that were left active
--   (src/mini_agent/application/restart_recovery_service.py, with its commands in
--   src/mini_agent/application/records.py). Aggregates and Closure have what is loaded, Plan the
--   transitions, Service the whole of `recover_pending`, and Exact, Command and Audit the validation of the
--   command that it makes. The port that loads the closure and applies the command is a parameter.
-- - Examples: concrete inputs on which the theorems are applied.
--
-- A validator of a contract class is a function into a result: the record itself, or the error of the
-- first rule that is broken, in the order of the code. Fields that are literals with one value are left
-- out. A UUID is a number, since the code compares UUIDs and no more.
--
-- The ports of the executor, its clock and its source of UUIDs are functions of a world that the model
-- leaves open: a port may return any value, raise, or be cancelled, and a log keeps the calls that were
-- awaited with their replies. SHA-256 is a parameter: with canonical JSON for the registry and the input of
-- a request, on texts for spans and sessions.
--
-- `freeze_json_value` runs on fuel: one round more than the heap has containers, since each nested call
-- has one more of them on its path; that it is enough is one of the results. The search for a quote makes at
-- most two rounds, as the code stops at the second occurrence. Nothing else needs fuel.
--
-- Not modelled: SQL and HTTP adapters, the model provider, the phases of the agent run service between
-- start and end of a run, the evaluation harness, migrations, and the tests of exact Python types (`type(x) is T`) and undeclared state,
-- which hold by the types of the model. The seal of a routable decision is an object that the reducer
-- alone can make; a decision of the model is one that the reducer made. The cursor that the agent run
-- service keeps for failures is an argument where it is read, and its updates are left out.
pub mod Prelude
pub mod Json
pub mod Clock
pub mod Order
pub mod Tools
pub mod Tasks
pub mod Runs
pub mod Gateway
pub mod Observation
pub mod Executor
pub mod Understanding
pub mod Session
pub mod Lifecycle
pub mod Recovery
pub mod Presentation
mod Examples
