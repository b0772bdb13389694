-- ===== src/Queries.antt =====
-- Queries of the user interface, translated to filters of Druid
-- (osprey_worker/src/osprey/engine/query_language/ast_druid_translator.py).
pub mod Truth
pub mod Filters
pub mod Transforming
pub mod Meaning
pub mod Matching
pub mod Agreeing
pub mod Operands
pub mod Examples
