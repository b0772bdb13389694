-- ===== src/Types.antt =====
-- The type system of rules: what an annotation accepts and which types are compatible
-- (osprey_worker/src/osprey/engine/udf: rvalue_type_checker.py and type_evaluator.py).
pub mod Defs
pub mod Checking
pub mod Evaluating
pub mod Flat
pub mod Sound
pub mod Unwrapping
pub mod Coercing
pub mod Converting
pub mod Parsing
pub mod Examples
