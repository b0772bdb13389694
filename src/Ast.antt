-- ===== src/Ast.antt =====
-- The syntax tree of rules and queries: what of an assignment is extracted, and how it is printed
-- (osprey_worker/src/osprey/engine/ast: grammar.py and printer.py).
pub mod Grammar
pub mod Extracting
pub mod Secrets
pub mod Examples
