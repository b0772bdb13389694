-- ===== src/TimeBuckets.antt =====
-- Time buckets of osprey_worker/src/osprey/engine/stdlib/udfs/time_bucket.py, and the timestamp of a
-- snowflake of osprey_worker/src/osprey/worker/lib/snowflake.py, whose identity is not negative. The
-- seconds of a timedelta come as the whole number that the code makes of them.
pub mod Defs
mod Rounding
mod Examples
