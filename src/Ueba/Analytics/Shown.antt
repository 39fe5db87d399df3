-- ===== src/Ueba/Analytics/Shown.antt =====
-- What ueba/ueba.listener.ts writes of an anomaly is what ueba/ueba-analytics.service.ts shows.
use guard_me.Prelude.{
  ok_inj, ℕ, ◌≤◌, ◌≡◌, ◌≢◌, refl, true, some, List, [], ◌∷◌, String, ok, In, In-map, map, le→leb,
  str_eq_iff, and_true, ltb, await-ok,
}
use mathlib.Core.Path.{subst}
use guard_me.Text.{Text, text}
use guard_me.Database.{Prisma}
use guard_me.Siem.{
  PolicyDecision, ThreatVerdict, string, walked, anomaly_detected, resolve_event_severity,
}
use guard_me.Siem.Names.{decision_name, verdict_name, type_eq}
use guard_me.Siem.Service.{SecurityEvent, security_event_row, event_user}
use guard_me.Siem.Service.{TrafficLog as Row}
use guard_me.Siem.Queries.{find_page}
use guard_me.Siem.Queries.Pages.{find_page-first}
use guard_me.Siem.Analytics.{ResolvedAnalyticsRange}
use guard_me.Ueba.{TrafficLog, BehaviorBaselineSnapshot}
use guard_me.Ueba.Anomaly.{AnomalyResult}
use guard_me.Ueba.Listener.{anomaly_event, signal_name}
use guard_me.Ueba.Analytics.{
  UebaAnomaliesQuery, UebaAnomalyItem, UebaAnomalies, field, read_number, read_string,
  read_string_array, to_anomaly_item, anomaly_where, anomalies_in, get_anomalies_for_user,
}

-- The item that an anomaly is to be shown as.
abbrev pub shown :
    String → ℕ → TrafficLog → BehaviorBaselineSnapshot → AnomalyResult → UebaAnomalyItem
shown id at log baseline result = record {
  id = id;
  created_at = at;
  severity = result.severity;
  message = (anomaly_event log baseline result).message;
  anomaly_score = result.anomaly_score;
  signals = map signal_name result.signals;
  destination_host = some log.destination_host;
  policy_decision = some (text (decision_name log.policy_decision));
  threat_verdict = some (text (verdict_name log.threat_verdict));
  risk_score = some log.risk_score;
}

read-decision :
    (d : PolicyDecision)
    → read_string (some (string (decision_name d))) ≡ some (text (decision_name d))
unfolding read_string decision_name text
read-decision PolicyDecision.allow = refl
read-decision PolicyDecision.warn = refl
read-decision PolicyDecision.block = refl

read-verdict :
    (v : ThreatVerdict)
    → read_string (some (string (verdict_name v))) ≡ some (text (verdict_name v))
unfolding read_string verdict_name text
read-verdict ThreatVerdict.safe = refl
read-verdict ThreatVerdict.suspicious = refl
read-verdict ThreatVerdict.malicious = refl
read-verdict ThreatVerdict.unverified = refl

read-host : (host : Text) → host ≢ [] → read_string (some (walked host)) ≡ some host
unfolding read_string
read-host [] full = absurd (full refl)
read-host (c ∷ host) full = refl

to_anomaly_item-shown :
    (id : String) (at : ℕ) (log : TrafficLog) (baseline : BehaviorBaselineSnapshot)
    (result : AnomalyResult)
    → log.destination_host ≢ []
    → to_anomaly_item (security_event_row id at (anomaly_event log baseline result))
      ≡ shown id at log baseline result
unfolding to_anomaly_item security_event_row anomaly_event field read_number read_string_array
    resolve_event_severity
to_anomaly_item-shown id at log baseline result full =
    rw
      (
        read-host log.destination_host full,
        read-decision log.policy_decision,
        read-verdict log.threat_verdict,
      )
      refl

-- The row of an anomaly is among those of its user, in a range that has its time.
is_found :
    (user_id : String) (range : ResolvedAnalyticsRange) (id : String) (at : ℕ) (log : TrafficLog)
    (baseline : BehaviorBaselineSnapshot) (result : AnomalyResult)
    → log.user_id ≡ user_id
    → range.from_time ≤ at
    → at ≤ range.to_time
    → anomaly_where user_id range (security_event_row id at (anomaly_event log baseline result))
      ≡ true
unfolding security_event_row event_user anomaly_event
is_found user_id range id at log baseline result own from_le to_le =
    and_true _ _
      (and_true _ _
        (and_true _ _ ((str_eq_iff log.user_id user_id).1 own)
          ((type_eq.beq_iff anomaly_detected anomaly_detected).1 refl))
        (le→leb _ _ from_le))
      (le→leb _ _ to_le)

module _ (events : Prisma SecurityEvent) (traffic : Prisma Row) where
  -- On a first page that holds all, every row is shown.
  first_page :
      (user_id : String) (query : UebaAnomaliesQuery) (table : List SecurityEvent) (logs : List Row)
      (range : ResolvedAnalyticsRange) (row : SecurityEvent)
      → (anomalies_in events traffic user_id query table logs range).page ≡ 1
      → (anomalies_in events traffic user_id query table logs range).total
        ≤ (anomalies_in events traffic user_id query table logs range).page_size
      → anomaly_where user_id range row ≡ true
      → In row table
      → In (to_anomaly_item row) (anomalies_in events traffic user_id query table logs range).items
  unfolding anomalies_in find_page
  first_page user_id query table logs range row first few test m = In-map to_anomaly_item _ row (
      find_page-first events (anomaly_where user_id range) (λ r s. ltb s.created_at r.created_at)
        table query.page query.page_size row first few test m)

  -- The theorem below for an answer, where the answer is written out.
  abbrev IsShownIn :
      String → ℕ → TrafficLog → BehaviorBaselineSnapshot → AnomalyResult → UebaAnomalies → Type 0
  IsShownIn id at log baseline result answer =
      answer.period.from_time ≤ at
      → at ≤ answer.period.to_time
      → answer.page ≡ 1
      → answer.total ≤ answer.page_size
      → In (shown id at log baseline result) answer.items

  anomalies_in-IsShownIn :
      (query : UebaAnomaliesQuery) (table : List SecurityEvent) (logs : List Row)
      (range : ResolvedAnalyticsRange) (id : String) (at : ℕ) (log : TrafficLog)
      (baseline : BehaviorBaselineSnapshot) (result : AnomalyResult)
      → In (security_event_row id at (anomaly_event log baseline result)) table
      → log.destination_host ≢ []
      → IsShownIn id at log baseline result
          (anomalies_in events traffic log.user_id query table logs range)
  unfolding anomalies_in
  anomalies_in-IsShownIn query table logs range id at log baseline result m full from_le to_le first
        few =
      let row = security_event_row id at (anomaly_event log baseline result) in
      subst (λ item. In item (anomalies_in events traffic log.user_id query table logs range).items)
        (to_anomaly_item-shown id at log baseline result full)
        (first_page log.user_id query table logs range row first few
          (is_found log.user_id range id at log baseline result refl from_le to_le) m)

  -- An anomaly of a user whose event was stored is shown to the user as it was found: with its score,
  -- its signals and its severity, and the host, decision, verdict and risk of the request, whose
  -- host is not empty; if the range that is asked for has the time of the event, on the first page
  -- where all anomalies of the range fit on it.
  pub get_anomalies_for_user-anomaly_event :
      (query : UebaAnomaliesQuery) (now : ℕ) (table : List SecurityEvent) (logs : List Row)
      (id : String) (at : ℕ) (log : TrafficLog) (baseline : BehaviorBaselineSnapshot)
      (result : AnomalyResult) (answer : UebaAnomalies)
      → In (security_event_row id at (anomaly_event log baseline result)) table
      → log.destination_host ≢ []
      → get_anomalies_for_user events traffic log.user_id query now table logs ≡ ok answer
      → answer.period.from_time ≤ at
      → at ≤ answer.period.to_time
      → answer.page ≡ 1
      → answer.total ≤ answer.page_size
      → In (shown id at log baseline result) answer.items
  unfolding get_anomalies_for_user
  get_anomalies_for_user-anomaly_event query now table logs id at log baseline result answer m full
        h =
      let (range, _, built) =
        await-ok _ (λ range. ok (anomalies_in events traffic log.user_id query table logs range))
          h in
      subst (IsShownIn id at log baseline result) (ok_inj built)
        (anomalies_in-IsShownIn query table logs range id at log baseline result m full)
