-- ===== src/Siem/Examples.antt =====
-- Pages and summaries at work: two requests of one user, and a grouping in memory.
use guard_me.Prelude.{
  ℕ, ◌≡◌, refl, sym, ap, ◌∙◌, inl, inr, none, some, List, [], ◌∷◌, String, ok, In, length, filter,
  Eq,
}
use guard_me.Text.{trim}
use guard_me.Siem.{
  PolicyDecision, ThreatVerdict, SiemEventType, SiemEventSeverity, allow, block, safe,
}
use guard_me.Siem.Service.{TrafficLog, SecurityEvent}
use guard_me.Siem.Queries.{sanitize_search_term}
use guard_me.Siem.Analytics.{AnalyticsQuery, ResolvedAnalyticsRange, resolve_analytics_range}
use guard_me.Siem.Analytics.Summary.{
  Grouping, count_key, AnalyticsSummary, summarize_traffic, summarize_events, get_summary_for_user,
  build_traffic_where, build_security_event_where,
}
use guard_me.Siem.Names.{decision_eq, verdict_eq, type_eq, severity_eq}
use guard_me.Siem.Analytics.Counts.{entry, get_summary_counts}

-- One group for each row, which is as good as one for each key.
abbrev group_by :
    {Row : Type 0} → (K : Type 0) → Eq K → (Row → K) → List Row → List Row → List (K × ℕ)
group_by K e key all [] = []
group_by K e key all (r ∷ rows) =
    (key r, count_key ⦃e = e⦄ key (key r) all) ∷ group_by K e key all rows

of_group :
    {Row : Type 0} (K : Type 0) (e : Eq K) (key : Row → K) (all rows : List Row) (k : K) (n : ℕ)
    → In (k, n) (group_by K e key all rows)
    → n ≡ count_key ⦃e = e⦄ key k all
of_group K e key all [] k n m = elim m [ ]
of_group K e key all (r ∷ rows) k n (inl same) =
    ap (λ (p : K × ℕ). p.1) same
    ∙ ap (λ j. count_key ⦃e = e⦄ key j all) (sym (ap (λ (p : K × ℕ). p.0) same))
of_group K e key all (r ∷ rows) k n (inr m) = of_group K e key all rows k n m

to_group :
    {Row : Type 0} (K : Type 0) (e : Eq K) (key : Row → K) (all rows : List Row) (r : Row)
    → In r rows
    → (n : ℕ) × In (key r, n) (group_by K e key all rows)
to_group K e key all [] r m = elim m [ ]
to_group K e key all (s ∷ rows) r (inl same) = (
  count_key ⦃e = e⦄ key (key s) all,
  inl (ap (λ x. (key x, count_key ⦃e = e⦄ key (key s) all)) same),
)
to_group K e key all (s ∷ rows) r (inr m) =
    let (n, there) = to_group K e key all rows r m in (n, inr there)

abbrev grouping : {Row : Type 0} → Grouping Row
grouping = record {
  group_by = λ K e key rows. group_by K e key rows rows;
  of_group = λ K e key rows k n m. of_group K e key rows rows k n m;
  to_group = λ K e key rows r m. to_group K e key rows rows r m;
}

abbrev request : String → ℕ → PolicyDecision → TrafficLog
request id timestamp decision = record {
  id = id;
  input = record {
    user_id = "ann";
    client_ip = [];
    url = "http://a.b/";
    destination_host = [];
    destination_port = none;
    destination_ip = none;
    method = [];
    policy_decision = decision;
    threat_verdict = safe;
    matched_rule_id = none;
    risk_score = 10;
    timestamp = none;
  };
  timestamp = timestamp;
}

abbrev logs : List TrafficLog
logs = request "r1" 1000 allow ∷ request "r2" 2000 block ∷ []

searched : sanitize_search_term (some (32 ∷ 97 ∷ 7 ∷ [])) ≡ some (97 ∷ [])
unfolding sanitize_search_term trim filter
searched = refl

abbrev one_day : AnalyticsQuery
one_day = record { from_time = some (some 0); to_time = some (some 86400000); bucket_hours = none }

abbrev day : ResolvedAnalyticsRange
day = record { from_time = 0; to_time = 86400000; bucket_hours = 1 }

abbrev summary : AnalyticsSummary
summary = record {
  period = day;
  traffic = summarize_traffic grouping grouping 1 (filter (build_traffic_where "ann" day) logs);
  security_events =
      summarize_events grouping grouping (filter (build_security_event_where "ann" day) []);
}

summarized : get_summary_for_user grouping grouping "ann" one_day 5 logs [] ≡ ok summary
unfolding get_summary_for_user resolve_analytics_range
summarized = refl

get_summary_counts_example :
    (summary.traffic.total_requests ≡ length (filter (build_traffic_where "ann" day) logs))
    × ((d : PolicyDecision)
        → entry d summary.traffic.by_policy_decision
          ≡ some (
              count_key
                (λ (r : TrafficLog). r.input.policy_decision)
                d
                (filter (build_traffic_where "ann" day) logs)))
    × ((v : ThreatVerdict)
        → entry v summary.traffic.by_threat_verdict
          ≡ some (
              count_key
                (λ (r : TrafficLog). r.input.threat_verdict)
                v
                (filter (build_traffic_where "ann" day) logs)))
    × ((t : SiemEventType)
        → entry t summary.security_events.by_type
          ≡ some (
              count_key
                (λ (r : SecurityEvent). r.type)
                t
                (filter (build_security_event_where "ann" day) [])))
    × ((v : SiemEventSeverity)
        → entry v summary.security_events.by_severity
          ≡ some (
              count_key
                (λ (r : SecurityEvent). r.severity)
                v
                (filter (build_security_event_where "ann" day) [])))
    × (summary.security_events.total ≡ length (filter (build_security_event_where "ann" day) []))
get_summary_counts_example =
    get_summary_counts grouping grouping "ann" one_day 5 logs [] summary summarized
