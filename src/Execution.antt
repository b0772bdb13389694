-- ===== src/Execution.antt =====
-- The execution of one action in osprey_worker/src/osprey/engine/executor: what a node resolves to
-- (execution_context.py), the executors of the nodes (node_executor), the two wrappers that turn an
-- exception into a failed node (executor.py), and `WhenRules` (engine/stdlib/udfs/rules.py). Values
-- are any Python objects: an interface gives what the executors use of them.
pub mod Values
pub mod Nodes
pub mod Wrapping
pub mod Rules
mod Operators
mod Rulings
mod Examples
