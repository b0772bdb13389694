-- ===== src/Etcd.antt =====
-- Sets and dicts that are kept under a key of etcd (osprey_worker/src/osprey/worker/lib/etcd: set.py
-- and dict.py).
pub mod Defs
pub mod Atomic
pub mod Once
pub mod Rounds
pub mod Updates
mod Examples
