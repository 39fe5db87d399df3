-- ===== src/Siem/Analytics/Counts.antt =====
-- What the counts of a summary count: siem/utils/analytics-aggregation.util.ts on the groups of
-- siem/siem-analytics.service.ts.
use mathlib.Core.Path.{subst}
use guard_me.Prelude.{
  ok_inj, ℕ, ◌≡◌, ◌≢◌, refl, sym, ap, ◌∙◌, ◌⊎◌, inl, inr, false, Option, none, some, List, [], ◌∷◌,
  String, ok, In, length, filter, map, Eq, Bool-cases, not_true, await-ok, find-eq-some, str_eq,
  if◌then◌else◌,
}
use guard_me.Siem.Service.{TrafficLog, SecurityEvent}
use guard_me.Siem.{
  PolicyDecision, ThreatVerdict, SiemEventType, SiemEventSeverity, type_name, severity_name,
}
use guard_me.Siem.Names.{
  decision_eq, verdict_eq, type_eq, severity_eq, policy_decisions, threat_verdicts, event_types,
  event_severities, decision_name, verdict_name, IsNamed, decision-IsNamed, verdict-IsNamed,
  severity-IsNamed, type-IsNamed,
}
use guard_me.Siem.Analytics.{
  put_count, put_counts, to_count_record, AnalyticsQuery, resolve_analytics_range,
}
use guard_me.Siem.Analytics.Summary.{
  Grouping, count_key, AnalyticsSummary, get_summary_for_user, build_traffic_where,
  build_security_event_where,
}

module _ {K : Type 0} ⦃e : Eq K⦄ where
  -- What stands at a key.
  abbrev pub entry : K → List (K × ℕ) → Option ℕ
  entry k [] = none
  entry k ((j, n) ∷ counts) = let rest = entry k counts in if e.beq j k then some n else rest

  put_count-entry :
      (k key : K) (count : ℕ) (counts : List (K × ℕ))
      → key ≢ k
      → entry k (put_count key count counts) ≡ entry k counts
  unfolding put_count
  put_count-entry k key count [] ne = refl
  put_count-entry k key count ((j, n) ∷ counts) ne =
      let rest = put_count-entry k key count counts ne in
      elim (Bool-cases (e.beq j key)) [
        | inl same ↦
            let miss : e.beq j k ≡ false =
              not_true (e.beq j k)
                (λ t. ne (sym ((e.beq_iff j key).0 same) ∙ (e.beq_iff j k).0 t)) in
            rw (same, miss) rest
        | inr differs ↦ rw (differs) (ap (λ (r : Option ℕ). if e.beq j k then some n else r) rest)
      ]

  put_count-entry_self :
      (k : K) (count n : ℕ) (counts : List (K × ℕ))
      → entry k counts ≡ some n
      → entry k (put_count k count counts) ≡ some count
  unfolding put_count
  put_count-entry_self k count n [] h = cc
  put_count-entry_self k count n ((j, m) ∷ counts) h = elim (Bool-cases (e.beq j k)) [
    | inl same ↦ rw (same) (rw (same) refl)
    | inr differs ↦
        rw (differs) (rw (differs) (put_count-entry_self k count n counts (rw (differs) at h)))
  ]

  -- If every row of a key has the count n, and there is one unless n stands there already, then n
  -- stands there in the end.
  put_counts-entry :
      (k : K) (n m : ℕ) (counts rows : List (K × ℕ))
      → entry k counts ≡ some m
      → ((c : ℕ) → In (k, c) rows → c ≡ n)
      → (((c : ℕ) × In (k, c) rows) ⊎ (m ≡ n))
      → entry k (put_counts counts rows) ≡ some n
  unfolding put_counts
  put_counts-entry k n m counts [] h same there = elim there [
    | inl (c, i) ↦ absurd i
    | inr done ↦ h ∙ ap some done
  ]
  put_counts-entry k n m counts ((key, count) ∷ rows) h same there =
      let later : (c : ℕ) → In (k, c) rows → c ≡ n = λ c i. same c (inr i) in
      elim (Bool-cases (e.beq key k)) [
        | inl mine ↦
            let own : key ≡ k = (e.beq_iff key k).0 mine in
            let put : entry k (put_count key count counts) ≡ some count =
              ap (λ j. entry k (put_count j count counts)) own
              ∙ put_count-entry_self k count m counts h in
            put_counts-entry k n count (put_count key count counts) rows put later
              (inr (same count (inl (ap (λ j. (j, count)) (sym own)))))
        | inr other ↦
            let ne : key ≢ k = λ own. cc ((e.beq_iff key k).1 own, other) in
            put_counts-entry k n m (put_count key count counts) rows
              (put_count-entry k key count counts ne ∙ h) later
              (elim there [
                | inl (c, inl now) ↦ absurd (ne (sym (ap (λ (p : K × ℕ). p.0) now)))
                | inl (c, inr i) ↦ inl (c, i)
                | inr done ↦ inr done
              ])
      ]

  zeros-entry : (k : K) (keys : List K) → In k keys → entry k (map (λ j. (j, 0)) keys) ≡ some 0
  zeros-entry k [] m = elim m [ ]
  zeros-entry k (j ∷ keys) (inl same) = rw ((e.beq_iff j k).1 (sym same)) refl
  zeros-entry k (j ∷ keys) (inr m) = elim (Bool-cases (e.beq j k)) [
    | inl same ↦ rw (same) refl
    | inr differs ↦ rw (differs) (zeros-entry k keys m)
  ]

  no_rows :
      {Row : Type 0} (key : Row → K) (k : K) (rows : List Row)
      → ((r : Row) → In r rows → key r ≢ k)
      → count_key key k rows ≡ 0
  unfolding filter
  no_rows key k [] none_there = refl
  no_rows key k (r ∷ rows) none_there =
      let miss : e.beq (key r) k ≡ false =
        not_true (e.beq (key r) k) (λ t. none_there r (inl refl) ((e.beq_iff (key r) k).0 t)) in
      rw (miss) (no_rows key k rows (λ s m. none_there s (inr m)))

  some_row :
      {Row : Type 0} (key : Row → K) (k : K) (rows : List Row)
      → ((r : Row) × In r rows × (key r ≡ k)) ⊎ ((r : Row) → In r rows → key r ≢ k)
  some_row key k [] = inr (λ r m. elim m [ ])
  some_row key k (r ∷ rows) = elim (Bool-cases (e.beq (key r) k)) [
    | inl mine ↦ inl (r, inl refl, (e.beq_iff (key r) k).0 mine)
    | inr other ↦ elim (some_row key k rows) [
      | inl (s, m, own) ↦ inl (s, inr m, own)
      | inr none_there ↦ inr (λ s m. elim m [
        | inl same ↦ λ own. cc ((e.beq_iff (key r) k).1 (ap key (sym same) ∙ own), other)
        | inr n ↦ none_there s n
      ])
    ]
  ]

  -- The record of the counts has, at each of its keys, the number of the rows with that key.
  pub to_count_record-group_by :
      {Row : Type 0} (groups : Grouping Row) (key : Row → K) (keys : List K) (rows : List Row)
      (k : K)
      → In k keys
      → entry k (to_count_record keys (groups.group_by K e key rows)) ≡ some (count_key key k rows)
  unfolding to_count_record
  to_count_record-group_by groups key keys rows k m =
      put_counts-entry k (count_key key k rows) 0 (map (λ j. (j, 0)) keys)
        (groups.group_by K e key rows) (zeros-entry k keys m)
        (λ c i. groups.of_group K e key rows k c i)
        (elim (some_row key k rows) [
          | inl (r, i, own) ↦
              let (n, there) = groups.to_group K e key rows r i in
              inl (n, subst (λ j. In (j, n) (groups.group_by K e key rows)) own there)
          | inr none_there ↦ inr (sym (no_rows key k rows none_there))
        ])

In-all : {A : Type 0} (all : List A) (name : A → String) → IsNamed all name → (a : A) → In a all
In-all all name named a = (find-eq-some (λ t. str_eq (name t) (name a)) all a (named a)).1

-- A summary counts right: over the period that was resolved, it has the number of the user's
-- requests; for each decision, each verdict, each type of event and each severity the number of the
-- rows with it, 0 included; and the number of the user's events.
pub get_summary_counts :
    (traffic : Grouping TrafficLog) (events : Grouping SecurityEvent) (user_id : String)
    (query : AnalyticsQuery) (now : ℕ) (logs : List TrafficLog) (table : List SecurityEvent)
    (summary : AnalyticsSummary)
    → get_summary_for_user traffic events user_id query now logs table ≡ ok summary
    → (summary.traffic.total_requests
        ≡ length (filter (build_traffic_where user_id summary.period) logs))
      × ((d : PolicyDecision)
          → entry d summary.traffic.by_policy_decision
            ≡ some (
                count_key
                  (λ (r : TrafficLog). r.input.policy_decision)
                  d
                  (filter (build_traffic_where user_id summary.period) logs)))
      × ((v : ThreatVerdict)
          → entry v summary.traffic.by_threat_verdict
            ≡ some (
                count_key
                  (λ (r : TrafficLog). r.input.threat_verdict)
                  v
                  (filter (build_traffic_where user_id summary.period) logs)))
      × ((t : SiemEventType)
          → entry t summary.security_events.by_type
            ≡ some (
                count_key
                  (λ (r : SecurityEvent). r.type)
                  t
                  (filter (build_security_event_where user_id summary.period) table)))
      × ((v : SiemEventSeverity)
          → entry v summary.security_events.by_severity
            ≡ some (
                count_key
                  (λ (r : SecurityEvent). r.severity)
                  v
                  (filter (build_security_event_where user_id summary.period) table)))
      × (summary.security_events.total
          ≡ length (filter (build_security_event_where user_id summary.period) table))
unfolding get_summary_for_user
get_summary_counts traffic events user_id query now logs table summary h =
    let (range, f, built) = await-ok (resolve_analytics_range query now) _ h in
    let rows = filter (build_traffic_where user_id range) logs in
    let noted = filter (build_security_event_where user_id range) table in
    rw (← ok_inj built) (
      refl,
      λ d.
          to_count_record-group_by traffic (λ (r : TrafficLog). r.input.policy_decision)
            policy_decisions rows d (In-all policy_decisions decision_name decision-IsNamed d),
      λ v.
          to_count_record-group_by traffic (λ (r : TrafficLog). r.input.threat_verdict)
            threat_verdicts rows v (In-all threat_verdicts verdict_name verdict-IsNamed v),
      λ t.
          to_count_record-group_by events (λ (r : SecurityEvent). r.type) event_types noted t
            (In-all event_types type_name type-IsNamed t),
      λ v.
          to_count_record-group_by events (λ (r : SecurityEvent). r.severity) event_severities noted
            v (In-all event_severities severity_name severity-IsNamed v),
      refl,
    )
