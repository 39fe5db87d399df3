-- ===== src/Ueba/Analytics.antt =====
-- ueba/ueba-analytics.service.ts: a user's anomalies and risk in a range of time. A date is the number
-- of its day since the epoch; averages are rounded to tenths.
pub mod Shown
use guard_me.Prelude.{
  ℕ, suc, ◌+◌, ◌*◌, ◌-◌, ◌/◌, Bool, ◌&&◌, Option, none, some, List, [], ◌∷◌, String, Result, ok,
  ◌>>=◌, length, map, take, drop, leb, ltb, nat_beq, str_eq, if◌then◌else◌,
}
use guard_me.Text.{Text, text}
use guard_me.Database.{Prisma}
use guard_me.Database.Memory.{sort_by}
use guard_me.Siem.{
  SiemEventSeverity, MetaValue, string, walked, number, strings, Metadata, anomaly_detected,
}
use guard_me.Siem.Names.{type_eq}
use guard_me.Siem.Service.{SecurityEvent, TrafficLog}
use guard_me.Siem.Queries.{is_user, Paginated, find_page}
use guard_me.Siem.Analytics.{ResolvedAnalyticsRange, AnalyticsQuery, resolve_analytics_range}
use guard_me.Siem.Analytics.Summary.{build_traffic_where}
use guard_me.Ueba.{Fraction}
use guard_me.Ueba.Statistics.{round}

pub record UebaAnomaliesQuery : Type 0 where
  pub page : Option ℕ
  pub page_size : Option ℕ
  pub from_time : Option (Option ℕ)
  pub to_time : Option (Option ℕ)

pub record UebaAnomalyItem : Type 0 where
  pub id : String
  pub created_at : ℕ
  pub severity : SiemEventSeverity
  pub message : String
  pub anomaly_score : ℕ
  pub signals : List String
  pub destination_host : Option Text
  pub policy_decision : Option Text
  pub threat_verdict : Option Text
  pub risk_score : Option ℕ

pub record TimelineBucket : Type 0 where
  pub date : ℕ
  pub count : ℕ
  pub average_score : Fraction

pub record RiskTrendPoint : Type 0 where
  pub date : ℕ
  pub average_risk : Fraction
  pub request_count : ℕ

pub record UebaAnomalies : Type 0 where
  pub period : ResolvedAnalyticsRange
  pub items : List UebaAnomalyItem
  pub total : ℕ
  pub page : ℕ
  pub page_size : ℕ
  pub timeline : List TimelineBucket
  pub risk_trend : List RiskTrendPoint

-- `metadata[key]`; the first entry of a key counts.
unfoldable pub field : String → Metadata → Option MetaValue
field key [] = none
field key ((k, v) ∷ m) = if str_eq k key then some v else field key m

unfoldable pub read_number : Option MetaValue → Option ℕ
read_number (some (number n)) = some n
read_number _ = none

abbrev non_empty : Text → Option Text
non_empty [] = none
non_empty (c ∷ s) = some (c ∷ s)

unfoldable pub read_string : Option MetaValue → Option Text
read_string (some (string s)) = non_empty (text s)
read_string (some (walked t)) = non_empty t
read_string _ = none

-- The program writes no list that holds strings and other values.
unfoldable pub read_string_array : Option MetaValue → List String
read_string_array (some (strings xs)) = xs
read_string_array _ = []

abbrev or_zero : Option ℕ → ℕ
or_zero none = 0
or_zero (some n) = n

unfoldable pub to_anomaly_item : SecurityEvent → UebaAnomalyItem
unfolding field read_number read_string read_string_array
to_anomaly_item row = record {
  id = row.id;
  created_at = row.created_at;
  severity = row.severity;
  message = row.message;
  anomaly_score = or_zero (read_number (field "anomalyScore" row.metadata));
  signals = read_string_array (field "signals" row.metadata);
  destination_host = read_string (field "destinationHost" row.metadata);
  policy_decision = read_string (field "policyDecision" row.metadata);
  threat_verdict = read_string (field "threatVerdict" row.metadata);
  risk_score = read_number (field "riskScore" row.metadata);
}

-- What is gathered for a day.
pub record DayTotal : Type 0 where
  pub date : ℕ
  pub total : ℕ
  pub count : ℕ

-- One more value on a day, in the loops of both builders.
unfoldable pub add_to_day : (date value : ℕ) → List DayTotal → List DayTotal
add_to_day date value [] = record { date = date; total = value; count = 1 } ∷ []
add_to_day date value (b ∷ buckets) =
    let rest = add_to_day date value buckets in
    if nat_beq b.date date
    then record b { total = b.total + value; count = suc b.count } ∷ buckets
    else b ∷ rest

unfoldable pub day_totals : List (ℕ × ℕ) → List DayTotal → List DayTotal
unfolding add_to_day
day_totals [] buckets = buckets
day_totals ((time, value) ∷ rows) buckets =
    day_totals rows (add_to_day (time / 86400000) value buckets)

abbrev pub day_average : DayTotal → Fraction
day_average b =
    round
      (if ltb 0 b.count
        then record { numerator = b.total; denominator = b.count }
        else record { numerator = 0; denominator = 1 })
      10

-- The buckets by their day.
abbrev pub by_date : List DayTotal → List DayTotal
by_date = sort_by (λ a b. leb a.date b.date)

unfoldable pub build_anomaly_timeline : List SecurityEvent → List TimelineBucket
unfolding day_totals read_number field
build_anomaly_timeline rows =
    let scores =
      map (λ r. (r.created_at, or_zero (read_number (field "anomalyScore" r.metadata)))) rows in
    map (λ b. record { date = b.date; count = b.count; average_score = day_average b })
      (by_date (day_totals scores []))

unfoldable pub build_risk_trend : List TrafficLog → List RiskTrendPoint
unfolding day_totals
build_risk_trend rows =
    let risks = map (λ r. (r.timestamp, r.input.risk_score)) rows in
    map (λ b. record { date = b.date; average_risk = day_average b; request_count = b.count })
      (by_date (day_totals risks []))

abbrev pub anomaly_where : String → ResolvedAnalyticsRange → SecurityEvent → Bool
anomaly_where user_id range row =
    is_user user_id row.user_id
    && type_eq.beq row.type anomaly_detected
    && leb range.from_time row.created_at
    && leb row.created_at range.to_time

module _ (events : Prisma SecurityEvent) (traffic : Prisma TrafficLog) where
  -- The answer for a range that was accepted.
  unfoldable pub anomalies_in :
      String
      → UebaAnomaliesQuery
      → List SecurityEvent
      → List TrafficLog
      → ResolvedAnalyticsRange
      → UebaAnomalies
  unfolding find_page to_anomaly_item build_anomaly_timeline build_risk_trend
  anomalies_in user_id query table logs range =
      let found =
        find_page events (anomaly_where user_id range) (λ r s. ltb s.created_at r.created_at)
          query.page query.page_size table in
      let timeline_rows = take 5000 (
        events.find_many (anomaly_where user_id range) (λ r s. ltb r.created_at s.created_at)
          table) in
      let traffic_rows =
        traffic.find_many (build_traffic_where user_id range) (λ r s. ltb r.timestamp s.timestamp)
          logs in
      record {
        period = range;
        items = map to_anomaly_item found.items;
        total = found.total;
        page = found.page;
        page_size = found.page_size;
        timeline = build_anomaly_timeline timeline_rows;
        risk_trend = build_risk_trend traffic_rows;
      }

  unfoldable pub get_anomalies_for_user :
      String
      → UebaAnomaliesQuery
      → (now : ℕ) → List SecurityEvent
      → List TrafficLog
      → Result UebaAnomalies
  unfolding resolve_analytics_range anomalies_in
  get_anomalies_for_user user_id query now table logs = do
    range ←
        resolve_analytics_range
          (record { from_time = query.from_time; to_time = query.to_time; bucket_hours = none }) now
    ok (anomalies_in user_id query table logs range)
