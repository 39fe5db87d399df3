-- ===== src/Siem/Analytics/Summary.antt =====
-- `getSummaryForUser` of siem/siem-analytics.service.ts. What the database counts by key is an
-- interface; its queries see one state of the tables.
use guard_me.Prelude.{
  ℕ, ◌+◌, ◌≡◌, Bool, ◌&&◌, List, [], ◌∷◌, String, Result, ok, ◌>>=◌, In, length, take, filter, map,
  max, leb, ltb, nat_beq, nat_beq_iff, str_eq, Eq,
}
use guard_me.Text.{Text}
use guard_me.Text.Laws.{text_eq}
use guard_me.Database.Memory.{sort_by}
use guard_me.Siem.{SiemEventType, SiemEventSeverity, PolicyDecision, block, ThreatVerdict}
use guard_me.Siem.Names.{
  decision_eq, verdict_eq, type_eq, severity_eq, policy_decisions, threat_verdicts, event_types,
  event_severities,
}
use guard_me.Siem.Service.{TrafficLog, SecurityEvent}
use guard_me.Siem.Queries.{is_user}
use guard_me.Siem.Analytics.{
  ResolvedAnalyticsRange, AnalyticsQuery, resolve_analytics_range, bucket_start, to_count_record,
  round_risk_average,
}

-- How many rows have a key.
abbrev pub count_key : {Row K : Type 0} ⦃e : Eq K⦄ → (Row → K) → K → List Row → ℕ
count_key ⦃e⦄ key k rows = length (filter (λ r. e.beq (key r) k) rows)

-- `groupBy` with `_count`. What is relied on: a group counts the rows of its key, and every row is
-- in a group.
pub record Grouping (Row : Type 0) : Type 1 where
  pub group_by : (K : Type 0) → Eq K → (Row → K) → List Row → List (K × ℕ)
  pub of_group :
      (K : Type 0) (e : Eq K) (key : Row → K) (rows : List Row) (k : K) (n : ℕ)
      → In (k, n) (group_by K e key rows)
      → n ≡ count_key ⦃e = e⦄ key k rows
  pub to_group :
      (K : Type 0) (e : Eq K) (key : Row → K) (rows : List Row) (r : Row)
      → In r rows
      → (n : ℕ) × In (key r, n) (group_by K e key rows)

instance abbrev pub nat_eq : Eq ℕ
nat_eq = record { beq = nat_beq; beq_iff = nat_beq_iff }

pub record TimeBucket : Type 0 where
  pub bucket_start : ℕ
  pub request_count : ℕ
  pub blocked_count : ℕ

pub record TrafficSummary : Type 0 where
  pub total_requests : ℕ
  pub by_policy_decision : List (PolicyDecision × ℕ)
  pub by_threat_verdict : List (ThreatVerdict × ℕ)
  pub risk_average : ℕ
  pub risk_max : ℕ
  pub high_risk_count : ℕ
  pub top_destination_hosts : List (Text × ℕ)
  pub time_buckets : List TimeBucket

pub record EventSummary : Type 0 where
  pub total : ℕ
  pub by_type : List (SiemEventType × ℕ)
  pub by_severity : List (SiemEventSeverity × ℕ)

pub record AnalyticsSummary : Type 0 where
  pub period : ResolvedAnalyticsRange
  pub traffic : TrafficSummary
  pub security_events : EventSummary

abbrev is_in : ResolvedAnalyticsRange → ℕ → Bool
is_in range t = leb range.from_time t && leb t range.to_time

unfoldable pub build_traffic_where : String → ResolvedAnalyticsRange → TrafficLog → Bool
build_traffic_where user_id range row =
    str_eq row.input.user_id user_id && is_in range row.timestamp

unfoldable pub build_security_event_where : String → ResolvedAnalyticsRange → SecurityEvent → Bool
build_security_event_where user_id range row =
    is_user user_id row.user_id && is_in range row.created_at

abbrev sum : List ℕ → ℕ
sum [] = 0
sum (n ∷ ns) = n + sum ns

abbrev maximum : List ℕ → ℕ
maximum [] = 0
maximum (n ∷ ns) = max n (maximum ns)

module _ (traffic : Grouping TrafficLog) (events : Grouping SecurityEvent) where
  -- The rows of the query: buckets in the order of their starts, with the requests that were
  -- blocked.
  unfoldable pub query_time_buckets : (bucket_hours : ℕ) → List TrafficLog → List TimeBucket
  unfolding bucket_start sort_by
  query_time_buckets bucket_hours rows =
      let start : TrafficLog → ℕ = λ r. bucket_start bucket_hours r.timestamp in
      let blocked = filter (λ r. decision_eq.beq r.input.policy_decision block) rows in
      map
        (λ g. record {
          bucket_start = g.0;
          request_count = g.1;
          blocked_count = count_key start g.0 blocked;
        })
        (sort_by (λ g h. ltb g.0 h.0) (traffic.group_by ℕ nat_eq start rows))

  unfoldable pub summarize_traffic : (bucket_hours : ℕ) → List TrafficLog → TrafficSummary
  unfolding query_time_buckets to_count_record round_risk_average
  summarize_traffic bucket_hours rows =
      let scores = map (λ (r : TrafficLog). r.input.risk_score) rows in
      record {
        total_requests = length rows;
        by_policy_decision =
            to_count_record policy_decisions
              (traffic.group_by PolicyDecision decision_eq (λ r. r.input.policy_decision) rows);
        by_threat_verdict =
            to_count_record threat_verdicts
              (traffic.group_by ThreatVerdict verdict_eq (λ r. r.input.threat_verdict) rows);
        risk_average = round_risk_average (sum scores) (length rows);
        risk_max = maximum scores;
        high_risk_count = length (filter (λ n. leb 70 n) scores);
        top_destination_hosts = take 10 (
            sort_by (λ g h. ltb h.1 g.1)
              (traffic.group_by Text text_eq (λ r. r.input.destination_host) rows));
        time_buckets = query_time_buckets bucket_hours rows;
      }

  unfoldable pub summarize_events : List SecurityEvent → EventSummary
  unfolding to_count_record
  summarize_events rows = record {
    total = length rows;
    by_type =
        to_count_record event_types (events.group_by SiemEventType type_eq (λ r. r.type) rows);
    by_severity =
        to_count_record event_severities
          (events.group_by SiemEventSeverity severity_eq (λ r. r.severity) rows);
  }

  unfoldable pub get_summary_for_user :
      String
      → AnalyticsQuery
      → (now : ℕ) → List TrafficLog
      → List SecurityEvent
      → Result AnalyticsSummary
  unfolding summarize_traffic summarize_events build_traffic_where build_security_event_where
  get_summary_for_user user_id query now traffic_logs security_events = do
    range ← resolve_analytics_range query now
    ok (record {
      period = range;
      traffic =
          summarize_traffic range.bucket_hours
            (filter (build_traffic_where user_id range) traffic_logs);
      security_events =
          summarize_events (filter (build_security_event_where user_id range) security_events);
    })
