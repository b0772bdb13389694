-- ===== src/Validators.antt =====
-- Validators of the names of rules
-- (osprey_worker/src/osprey/engine/ast_validator/validators: unique_stored_names.py and
-- variables_must_be_defined.py).
pub mod Defs
pub mod Checking
pub mod Index
pub mod Defined
pub mod Examples
