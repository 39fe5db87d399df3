-- ===== src/Ueba/Examples.antt =====
-- An unusual request, and the theorems applied to it.
use guard_me.Prelude.{ℕ, suc, ◌≤◌, ◌≡◌, refl, ◌≢◌, ◌↔◌, none, some, [], ◌∷◌, arith, length, filter}
use guard_me.Text.{text, ◌==◌}
use guard_me.Siem.{allow, safe, SecurityEventInput, low, high}
use guard_me.Ueba.{TrafficLog, BehaviorBaselineSnapshot, Fraction, AverageWithStdDev}
use guard_me.Ueba.Anomaly.{
  UebaConfig, AnomalyScoringContext, signal_weight, weight_sum, rows_of, build_scoring_context,
  is_new_host, is_volume_spike, is_off_hours_activity, has_repeated_blocks, is_high_risk_cluster,
  compute_score, resolve_severity, signals_of, score_traffic_event,
}
use guard_me.Ueba.Anomaly.Scores.{score_traffic_event-alerts}
use guard_me.Ueba.Listener.{LastAlerts, is_in_cooldown, handle_until_cooldown, anomaly_event}
use guard_me.Ueba.Listener.Cooldown.{
  Created, check, finish, first_step, idle, run, serial, alerts_of, serial-quiet,
  overlapping_alerts,
}

-- The defaults of config/ueba.config.ts.
abbrev config : UebaConfig
config = record {
  alert_threshold = 60;
  alert_cooldown_ms = 120000;
  volume_spike_multiplier = record { numerator = 3; denominator = 1 };
  repeated_blocks_window_ms = 600000;
  repeated_blocks_threshold = 3;
  high_risk_window_ms = 900000;
  high_risk_score_threshold = 70;
  new_host_lookback_ms = 604800000;
}

abbrev hour_start : ℕ → ℕ
hour_start t = 0

abbrev hour_of : ℕ → ℕ
hour_of t = 1

abbrev odd : TrafficLog
odd = record {
  id = "l1";
  user_id = "ann";
  destination_host = text "new.example";
  policy_decision = allow;
  threat_verdict = safe;
  risk_score = 90;
  timestamp = 1000;
}

abbrev whole : ℕ → Fraction
whole n = record { numerator = n; denominator = 1 }

abbrev steady : AverageWithStdDev
steady = record { average = whole 1; std_dev = whole 0 }

abbrev quiet_user : BehaviorBaselineSnapshot
quiet_user = record {
  computed_at = "2026";
  window_days = 7;
  sample_size = 10;
  active_hours = 10 ∷ 0 ∷ [];
  most_active_hours = 0 ∷ [];
  requests_per_hour = steady;
  requests_per_active_hour = steady;
  requests_per_day = steady;
  blocked_per_day = whole 0;
  policy_decisions = [];
  threat_verdicts = [];
  method_distribution = [];
  port_distribution = [];
  top_hosts = [];
  known_hosts = [];
  unique_hosts_per_day = whole 1;
  risk_average = whole 0;
  risk_max = 0;
  upload_share = whole 0;
  download_requests_per_day = whole 0;
  sessions = record { count = 0; average_duration_minutes = whole 0 };
  browsers = [];
}

run_ueba : Unit {0}
unfolding signal_weight weight_sum rows_of build_scoring_context is_new_host is_volume_spike
    is_off_hours_activity has_repeated_blocks is_high_risk_cluster compute_score resolve_severity
    signals_of score_traffic_event is_in_cooldown handle_until_cooldown filter ◌==◌ text
run_ueba = tt

abbrev context : AnomalyScoringContext
context = build_scoring_context config hour_start hour_of "ann" odd (odd ∷ [])

odd_score :
    (score_traffic_event config hour_start hour_of odd quiet_user context).anomaly_score ≡ 75
unfolding run_ueba
odd_score = refl

score_traffic_event-alerts_example :
    (3 ≤ length (score_traffic_event config hour_start hour_of odd quiet_user context).signals)
    × ((score_traffic_event config hour_start hour_of odd quiet_user context).anomaly_score ≤ 100)
    × ((score_traffic_event config hour_start hour_of odd quiet_user context).severity ≢ low)
    × (((score_traffic_event config hour_start hour_of odd quiet_user context).severity ≡ high) ↔ (
        85 ≤ (score_traffic_event config hour_start hour_of odd quiet_user context).anomaly_score))
score_traffic_event-alerts_example =
    score_traffic_event-alerts config hour_start hour_of odd quiet_user context (omega arith)
      (omega (arith, odd_score))

abbrev seen : ℕ → Created
seen now = record { checked = now; log = odd; baseline = some quiet_user; table = odd ∷ [] }

abbrev alerted_at : ℕ → LastAlerts
alerted_at t user = some t

abbrev never_alerted : LastAlerts
never_alerted user = none

odd_event : SecurityEventInput
odd_event =
    anomaly_event odd quiet_user
      (score_traffic_event config hour_start hour_of odd quiet_user context)

odd_alerts :
    (now : ℕ) → first_step config hour_start hour_of (seen now) never_alerted ≡ some odd_event
unfolding run_ueba odd_event
odd_alerts now = refl

serial-quiet_example :
    alerts_of "ann"
      (run config hour_start hour_of
        (serial config hour_start hour_of
          ((seen 5000, 5001) ∷ (seen 6000, 6001) ∷ (seen 7000, 7001) ∷ []))
        (idle never_alerted [])).alerts
    ≡ suc (alerts_of "ann" [])
serial-quiet_example =
    serial-quiet config hour_start hour_of "ann" (seen 5000) odd_event 5001
      ((seen 6000, 6001) ∷ (seen 7000, 7001) ∷ []) never_alerted [] refl (odd_alerts 5000)
      (omega arith) (λ _. omega arith, (λ _. omega arith, tt))

overlapping_alerts_example :
    alerts_of "ann"
      (run config hour_start hour_of
        (check (seen 6000) ∷ check (seen 6001) ∷ finish 6002 ∷ finish 6003 ∷ [])
        (idle never_alerted [])).alerts
    ≡ suc (suc (alerts_of "ann" []))
overlapping_alerts_example =
    overlapping_alerts config hour_start hour_of (seen 6000) (seen 6001) "ann" odd_event odd_event
      never_alerted [] 6002 6003 refl refl (odd_alerts 6000) (odd_alerts 6001)
