-- ===== src/Ring.antt =====
-- The hash ring of osprey_worker/src/osprey/worker/lib/etcd/ring.py, which is kept in etcd. The
-- hash_ring package, etcd and json are parameters. A ring that is not watched yet first reads its
-- topology from etcd, and an event from etcd replaces it: both are `update_topology`.
pub mod Topology
pub mod Defs
mod Selecting
mod RoundTrip
mod Persisting
mod Examples
