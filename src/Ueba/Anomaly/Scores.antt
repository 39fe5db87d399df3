-- ===== src/Ueba/Anomaly/Scores.antt =====
-- What a score stands for.
use guard_me.Prelude.{ℕ, ◌≤◌, min, ◌≡◌, ◌≢◌, ◌↔◌, Bool, List, [], arith, length}
use guard_me.Siem.{low, high}
use guard_me.Ueba.{TrafficLog, BehaviorBaselineSnapshot}
use guard_me.Ueba.Anomaly.{
  AnomalySignal, new_host, volume_spike, off_hours_activity, repeated_blocks, high_risk_cluster,
  signal_weight, push_if, weight_sum, AnomalyScoringContext, UebaConfig, compute_score,
  resolve_severity, signals_of, score_traffic_event,
}

-- The signals of five tests, in order.
abbrev pushed : (a b c d e : Bool) → List AnomalySignal
pushed a b c d e = push_if a new_host (
    push_if b volume_spike
      (push_if c off_hours_activity (push_if d repeated_blocks (push_if e high_risk_cluster []))))

three_of_pushed :
    (a b c d e : Bool) → 56 ≤ weight_sum (pushed a b c d e) → 3 ≤ length (pushed a b c d e)
unfolding weight_sum signal_weight
three_of_pushed a b c d e h = ground arith

module _ (config : UebaConfig) (hour_start hour_of : ℕ → ℕ) where
  severity_of_alert :
      (n : ℕ)
      → config.alert_threshold ≤ n
      → (resolve_severity config hour_start hour_of n ≢ low)
        × ((resolve_severity config hour_start hour_of n ≡ high) ↔ (85 ≤ n))
  unfolding resolve_severity
  severity_of_alert n h = ground arith

  -- Where the threshold of alerts is above 55, as its default of 60 is, a request whose score
  -- reaches it shows at least three signals, its score is at most 100, and it is never of low
  -- severity: it is of high severity exactly if the score is 85 or more.
  pub score_traffic_event-alerts :
      (log : TrafficLog) (baseline : BehaviorBaselineSnapshot) (context : AnomalyScoringContext)
      → 56 ≤ config.alert_threshold
      → config.alert_threshold
        ≤ (score_traffic_event config hour_start hour_of log baseline context).anomaly_score
      → (3 ≤ length (score_traffic_event config hour_start hour_of log baseline context).signals)
        × ((score_traffic_event config hour_start hour_of log baseline context).anomaly_score ≤ 100)
        × ((score_traffic_event config hour_start hour_of log baseline context).severity ≢ low)
        × (((score_traffic_event config hour_start hour_of log baseline context).severity ≡ high)
            ↔ (85
                ≤ (score_traffic_event config hour_start hour_of log baseline
                    context).anomaly_score))
  unfolding score_traffic_event compute_score
  score_traffic_event-alerts log baseline context usual alert =
      let signals = signals_of config hour_start hour_of log baseline context in
      let (not_low, high_iff) = severity_of_alert (min 100 (weight_sum signals)) alert in
      (three log baseline context (omega arith), omega arith, not_low, high_iff)
    where
      three :
          (log : TrafficLog) (baseline : BehaviorBaselineSnapshot) (context : AnomalyScoringContext)
          → 56 ≤ weight_sum (signals_of config hour_start hour_of log baseline context)
          → 3 ≤ length (signals_of config hour_start hour_of log baseline context)
      three log baseline context h = unfold signals_of in three_of_pushed _ _ _ _ _ h
