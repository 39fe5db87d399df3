-- ===== src/Siem/Analytics/Ranges.antt =====
-- Which ranges are accepted, and how a range is cut: siem/utils/analytics-range.util.ts and the
-- buckets of siem/siem-analytics.service.ts.
use guard_me.Prelude.{ℕ, ◌+◌, ◌-◌, ◌*◌, ◌≤◌, ◌<◌, ◌≡◌, ◌⊎◌, inl, inr, Option, none, some, arith}
use guard_me.Siem.Analytics.{hour_ms, max_range_ms, ResolvedAnalyticsRange, bucket_start}

-- The widths that a query may ask for.
abbrev pub IsBucket : ℕ → Type 0
IsBucket hours = (hours ≡ 1) ⊎ (hours ≡ 6) ⊎ (hours ≡ 24)

abbrev pub IsAccepted : Option ℕ → ResolvedAnalyticsRange → Type 0
IsAccepted asked r =
    (r.from_time ≤ r.to_time)
    × (r.to_time - r.from_time ≤ max_range_ms)
    × (((asked ≡ none)
          × IsBucket r.bucket_hours
          × (r.to_time - r.from_time ≤ 90 * (r.bucket_hours * hour_ms)))
        ⊎ (asked ≡ some r.bucket_hours))

-- Every moment lies in its bucket, which is as long as the step, and whose start is its own.
pub bucket_start_bounds :
    (hours timestamp : ℕ)
    → IsBucket hours
    → (bucket_start hours timestamp ≤ timestamp)
      × (timestamp < bucket_start hours timestamp + hours * hour_ms)
      × (bucket_start hours (bucket_start hours timestamp) ≡ bucket_start hours timestamp)
unfolding bucket_start
bucket_start_bounds hours timestamp (inl e) = rw (e) (omega arith, omega arith, omega arith)
bucket_start_bounds hours timestamp (inr (inl e)) = rw (e) (omega arith, omega arith, omega arith)
bucket_start_bounds hours timestamp (inr (inr e)) = rw (e) (omega arith, omega arith, omega arith)
