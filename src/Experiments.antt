-- ===== src/Experiments.antt =====
-- Experiments of osprey_worker/src/osprey/engine/stdlib/udfs/experiments.py: the checks of a call of
-- `Experiment`, the bucket of an entity, and the UDFs that read it. The hash of the mmh3 package is a
-- parameter. A bucket size is a decimal that is not negative.
pub mod Defs
mod Slots
mod Checks
mod Examples
