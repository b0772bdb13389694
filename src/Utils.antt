-- ===== src/Utils.antt =====
-- The directed graph of osprey_worker/src/osprey/engine/utils/graph.py, by which the imports of the
-- sources are ordered.
pub mod Defs
pub mod Sorting
pub mod Ending
mod Examples
