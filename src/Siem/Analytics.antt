-- ===== src/Siem/Analytics.antt =====
-- siem/siem-analytics.service.ts with siem/utils/analytics-range.util.ts and
-- analytics-aggregation.util.ts: the summary of a user's traffic and events. Times are UTC, in
-- milliseconds.
pub mod Ranges
pub mod Summary
pub mod Counts
use guard_me.Prelude.{
  ℕ, ◌+◌, ◌-◌, ◌*◌, ◌/◌, ◌%◌, ◌≡◌, Bool, true, false, ◌&&◌, Option, none, some, List, [], ◌∷◌, ◌++◌,
  String, Result, ok, err, http, Eq, In, length, take, filter, map, leb, ltb, nat_beq, str_eq,
  if◌then◌else◌,
}
use guard_me.Text.{Text}
use guard_me.Siem.{
  SiemEventType, SiemEventSeverity, PolicyDecision, ThreatVerdict, allow, warn, block, safe,
  suspicious, malicious, unverified, TrafficLogInput, type_name, severity_name,
}
use guard_me.Siem.Service.{TrafficLog, SecurityEvent}

abbrev pub hour_ms : ℕ
hour_ms = 3600000

abbrev pub default_range_ms : ℕ
default_range_ms = 7 * 24 * hour_ms

abbrev pub max_range_ms : ℕ
max_range_ms = 90 * 24 * hour_ms

pub record ResolvedAnalyticsRange : Type 0 where
  pub from_time : ℕ
  pub to_time : ℕ
  pub bucket_hours : ℕ

-- A date of the query that is given: what `new Date` reads of it, or `none` for an invalid date.
pub record AnalyticsQuery : Type 0 where
  pub from_time : Option (Option ℕ)
  pub to_time : Option (Option ℕ)
  pub bucket_hours : Option ℕ

-- `rangeHours` is a fraction: it is at most n where the range is at most n hours.
unfoldable pub resolve_default_bucket_hours : (from_time to_time : ℕ) → ℕ
resolve_default_bucket_hours from_time to_time =
    if leb (to_time - from_time) (48 * hour_ms)
    then 1
    else if leb (to_time - from_time) (14 * 24 * hour_ms)
    then 6
    else 24

abbrev given_or : Option (Option ℕ) → Option ℕ → Option ℕ
given_or none default_time = default_time
given_or (some date) default_time = date

abbrev hours_or : Option ℕ → ℕ → ℕ
hours_or none hours = hours
hours_or (some given) hours = given

-- The tests on two valid dates.
unfoldable pub check_range : Option ℕ → (from_time to_time : ℕ) → Result ResolvedAnalyticsRange
unfolding resolve_default_bucket_hours
check_range bucket_hours from_time to_time =
    if ltb to_time from_time
    then err (http 400 "`from` must be before `to`")
    else if ltb max_range_ms (to_time - from_time)
    then err (http 400 "Analytics range cannot exceed 90 days")
    else ok (record {
      from_time = from_time;
      to_time = to_time;
      bucket_hours = hours_or bucket_hours (resolve_default_bucket_hours from_time to_time);
    })

abbrev week_before : Option ℕ → Option ℕ
week_before none = none
week_before (some to_time) = some (to_time - default_range_ms)

unfoldable pub resolve_analytics_range : AnalyticsQuery → (now : ℕ) → Result ResolvedAnalyticsRange
unfolding check_range
resolve_analytics_range input now =
    let to_date = given_or input.to_time (some now) in
    elim (given_or input.from_time (week_before to_date)) [
      | none ↦ err (http 400 "Invalid analytics date range")
      | some from_time ↦ elim to_date [
        | none ↦ err (http 400 "Invalid analytics date range")
        | some to_time ↦ check_range input.bucket_hours from_time to_time
      ]
    ]

-- The hour at which the bucket of a moment starts: `date_trunc` of the hour or the day, or the
-- hours of the day in steps.
unfoldable pub bucket_start : (bucket_hours : ℕ) → (timestamp : ℕ) → ℕ
bucket_start bucket_hours timestamp =
    let day = timestamp - timestamp % (24 * hour_ms) in
    let hour = timestamp % (24 * hour_ms) / hour_ms in
    if nat_beq bucket_hours 1
    then timestamp - timestamp % hour_ms
    else if nat_beq bucket_hours 24
    then day
    else day + hour / bucket_hours * bucket_hours * hour_ms

-- `Object.fromEntries(keys.map((key) => [key, 0]))`, and the rows written over it, where the key is
-- one of the keys.
module _ {K : Type 0} ⦃e : Eq K⦄ where
  unfoldable pub put_count : K → ℕ → List (K × ℕ) → List (K × ℕ)
  put_count key count [] = []
  put_count key count ((k, n) ∷ counts) =
      let rest = put_count key count counts in
      if e.beq k key then (k, count) ∷ rest else (k, n) ∷ rest

  unfoldable pub put_counts : List (K × ℕ) → List (K × ℕ) → List (K × ℕ)
  unfolding put_count
  put_counts counts [] = counts
  put_counts counts ((key, count) ∷ rows) = put_counts (put_count key count counts) rows

  unfoldable pub to_count_record : List K → List (K × ℕ) → List (K × ℕ)
  unfolding put_counts
  to_count_record keys rows = put_counts (map (λ k. (k, 0)) keys) rows

-- `Math.round(value * 10) / 10` of the average of a sum over a number of rows, in tenths; halves are
-- rounded up.
unfoldable pub round_risk_average : (sum count : ℕ) → ℕ
round_risk_average sum count = if nat_beq count 0 then 0 else (20 * sum + count) / (2 * count)
