-- ===== src/Graph.antt =====
-- The execution graph (osprey_worker/src/osprey/engine/executor/execution_graph.py and
-- dependency_chain.py).
pub mod Defs
pub mod Compiling
pub mod Planning
pub mod Deduping
pub mod Sorting
pub mod Examples
