-- ===== src/TimeBuckets/Defs.antt =====
-- Rounding a number of seconds down to a multiple of the granularity.
use trust_and_safety_demo.Base.{
  ℕ, zero, suc, ◌+◌, ◌-◌, ◌*◌, ◌/◌, ◌%◌, ◌^◌, Bool, ltb, ℤ, pos, negsuc, Result, ok, err,
  zero_division_error,
}

-- The check of `__init__`: whether it adds an error.
unfoldable pub invalid_granularity : ℕ → Bool
invalid_granularity granularity_seconds = ltb granularity_seconds 3600

-- `t - t % g`, where `%` rounds towards minus infinity.
unfoldable pub round_down : ℕ → ℤ → ℤ
round_down g (pos t) = pos (t - t % g)
round_down g (negsuc n) = negsuc ((n / g + 1) * g - 1)

unfoldable pub get_bucket_of : ℕ → ℤ → Result ℤ
unfolding round_down
get_bucket_of zero t = err zero_division_error
get_bucket_of (suc g) t = ok (round_down (suc g) t)

-- `GetTimedeltaBucket.execute` and `GetTimestampBucket.execute`
unfoldable pub get_timedelta_bucket : ℕ → ℤ → Result ℤ
unfolding get_bucket_of
get_timedelta_bucket granularity_seconds seconds = get_bucket_of granularity_seconds seconds

unfoldable pub get_timestamp_bucket : ℕ → ℤ → Result ℤ
unfolding get_bucket_of
get_timestamp_bucket granularity_seconds timestamp = get_bucket_of granularity_seconds timestamp

-- `int(Snowflake(id).to_timestamp())`, with the configured epoch.
unfoldable pub to_timestamp : ℕ → ℕ → ℕ
to_timestamp epoch id = (id / 2 ^ 22 + epoch) / 1000

-- `GetSnowflakeBucket.execute`
unfoldable pub get_snowflake_bucket : ℕ → ℕ → ℕ → Result ℤ
unfolding get_bucket_of to_timestamp
get_snowflake_bucket epoch granularity_seconds id =
    get_bucket_of granularity_seconds (pos (to_timestamp epoch id))
