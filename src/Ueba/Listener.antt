-- ===== src/Ueba/Listener.antt =====
-- ueba/ueba.listener.ts: the alert on an unusual request, and the cooldown behind it. A handler waits
-- for the database twice, so it is two steps: up to the test of the cooldown, and from the end of
-- the event's storage on.
pub mod Cooldown
use guard_me.Prelude.{
  ℕ, ◌-◌, Bool, true, false, Option, none, some, List, [], ◌∷◌, ◌++◌, String, Map, string_eq, set,
  ltb, nat_beq, map, if◌then◌else◌,
}
use guard_me.Text.{text}
use guard_me.Text.Printing.{decimal, to_string}
use guard_me.Siem.{
  MetaValue, string, walked, number, strings, other, Metadata, SecurityEventInput, anomaly_detected,
}
use guard_me.Siem.Names.{decision_name, verdict_name}
use guard_me.Ueba.{TrafficLog, BehaviorBaselineSnapshot}
use guard_me.Ueba.Anomaly.{
  AnomalySignal, new_host, volume_spike, off_hours_activity, repeated_blocks, high_risk_cluster,
  AnomalyResult, UebaConfig, build_scoring_context, score_traffic_event,
}

abbrev pub LastAlerts : Type 0
LastAlerts = Map String ℕ

abbrev pub signal_name : AnomalySignal → String
signal_name new_host = "new_host"
signal_name volume_spike = "volume_spike"
signal_name off_hours_activity = "off_hours_activity"
signal_name repeated_blocks = "repeated_blocks"
signal_name high_risk_cluster = "high_risk_cluster"

-- The event of `recordAnomaly`.
unfoldable pub anomaly_event :
    TrafficLog → BehaviorBaselineSnapshot → AnomalyResult → SecurityEventInput
anomaly_event log baseline result = record {
  type = anomaly_detected;
  message =
      to_string
        (text "Behavioral anomaly detected (score " ++ decimal result.anomaly_score ++ text ")");
  severity = some result.severity;
  user_id = some log.user_id;
  metadata =
      ("userId", string log.user_id)
      ∷ ("trafficLogId", string log.id)
      ∷ ("destinationHost", walked log.destination_host)
      ∷ ("policyDecision", string (decision_name log.policy_decision))
      ∷ ("threatVerdict", string (verdict_name log.threat_verdict))
      ∷ ("riskScore", number log.risk_score)
      ∷ ("anomalyScore", number result.anomaly_score)
      ∷ ("signals", strings (map signal_name result.signals))
      ∷ ("baselineComputedAt", string baseline.computed_at)
      ∷ [];
}

module _ (config : UebaConfig) where
  -- A last alert at the time 0 counts as none.
  unfoldable pub is_in_cooldown : ℕ → String → LastAlerts → Bool
  is_in_cooldown now user_id last_alerts = elim (last_alerts user_id) [
    | none ↦ false
    | some last_alert_at ↦
        if nat_beq last_alert_at 0
        then false
        else ltb (now - last_alert_at) config.alert_cooldown_ms
  ]

module _ (config : UebaConfig) (hour_start hour_of : ℕ → ℕ) where
  -- The first step: the event that is to be stored, if there is to be one. `table` is the table of
  -- the traffic logs when the context is built, and `now` the time of the test of the cooldown.
  unfoldable pub handle_until_cooldown :
      ℕ
      → TrafficLog
      → Option BehaviorBaselineSnapshot
      → List TrafficLog
      → LastAlerts
      → Option SecurityEventInput
  unfolding anomaly_event
  handle_until_cooldown now log none table last_alerts = none
  handle_until_cooldown now log (some baseline) table last_alerts =
      let result =
        score_traffic_event config hour_start hour_of log baseline
          (build_scoring_context config hour_start hour_of log.user_id log table) in
      if ltb result.anomaly_score config.alert_threshold
      then none
      else if is_in_cooldown config now log.user_id last_alerts
      then none
      else some (anomaly_event log baseline result)

-- The second step, behind the event's storage.
unfoldable pub mark_alerted : ℕ → String → LastAlerts → LastAlerts
mark_alerted now user_id last_alerts = set last_alerts user_id now
