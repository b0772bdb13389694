-- ===== src/Executor.antt =====
-- The execution context over a compiled graph, and the loop of the executor
-- (osprey_worker/src/osprey/engine/executor/execution_context.py and executor.py), where no pool for
-- asynchronous nodes is given: every node that is ready runs at once.
pub mod Defs
pub mod Opening
pub mod Enqueuing
pub mod Sources
pub mod Running
pub mod Ending
pub mod Liveness
pub mod Dependencies
mod Examples
