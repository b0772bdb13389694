-- ===== src/Sorter.antt =====
-- `TopologicalSorter` of osprey_worker/src/osprey/engine/executor/topological_sorter.py, which tells
-- the executor which nodes are ready. A node is the number that the execution context passes, the
-- `id` of a dependency chain. A call that raises gives its exception alone; it raises before it
-- changes anything, but for `done` of several nodes, whose state is given beside the exception.
pub mod Defs
pub mod Balance
pub mod Adding
pub mod Releasing
pub mod Covering
pub mod Growing
pub mod Passing
pub mod Finishing
pub mod Entries
pub mod Settling
pub mod Living
pub mod Handing
pub mod Progress
pub mod Calls
pub mod Run
mod Examples
