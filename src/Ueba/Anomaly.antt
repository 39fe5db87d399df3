-- ===== src/Ueba/Anomaly.antt =====
-- ueba/anomaly.service.ts: what is unusual about a request. `hour_start` and `hour_of` are the start
-- of the hour of a time and its number in the day, in the server's time zone.
pub mod Scores
use guard_me.Prelude.{
  ℕ, zero, suc, ◌+◌, ◌-◌, ◌*◌, min, Bool, true, false, not, ◌&&◌, ◌||◌, Option, none, some, List,
  [], ◌∷◌, ◌++◌, String, any, filter, length, leb, ltb, str_eq, if◌then◌else◌,
}
use guard_me.Text.{Text, ◌==◌}
use guard_me.Siem.{
  PolicyDecision, allow, warn, block, ThreatVerdict, malicious, SiemEventSeverity, low, medium,
  high,
}
use guard_me.Ueba.{Fraction, TrafficLog, BehaviorBaselineSnapshot}

pub data AnomalySignal : Type 0 where
  new_host volume_spike off_hours_activity repeated_blocks high_risk_cluster : AnomalySignal

-- SIGNAL_WEIGHTS
unfoldable pub signal_weight : AnomalySignal → ℕ
signal_weight new_host = 30
signal_weight volume_spike = 25
signal_weight off_hours_activity = 20
signal_weight repeated_blocks = 15
signal_weight high_risk_cluster = 25

-- The average score is the sum of the scores over the number of requests, 0 where there is none.
pub record AnomalyScoringContext : Type 0 where
  pub current_hour_request_count : ℕ
  pub recent_block_count : ℕ
  pub recent_average_risk_score : Fraction
  pub host_seen_in_lookback : Bool

pub record AnomalyResult : Type 0 where
  pub anomaly_score : ℕ
  pub signals : List AnomalySignal
  pub severity : SiemEventSeverity

pub record UebaConfig : Type 0 where
  pub alert_threshold : ℕ
  pub alert_cooldown_ms : ℕ
  pub volume_spike_multiplier : Fraction
  pub repeated_blocks_window_ms : ℕ
  pub repeated_blocks_threshold : ℕ
  pub high_risk_window_ms : ℕ
  pub high_risk_score_threshold : ℕ
  pub new_host_lookback_ms : ℕ

abbrev is_between : ℕ → ℕ → ℕ → Bool
is_between since until t = leb since t && leb t until

abbrev is_blocked_log : TrafficLog → Bool
is_blocked_log row =
    (elim row.policy_decision [ block ↦ true | _ ↦ false ])
    || (elim row.threat_verdict [ malicious ↦ true | _ ↦ false ])

abbrev sum_of : (TrafficLog → ℕ) → List TrafficLog → ℕ
sum_of f [] = 0
sum_of f (x ∷ xs) = f x + sum_of f xs

abbrev sum : List ℕ → ℕ
sum [] = 0
sum (x ∷ xs) = x + sum xs

-- `xs[i]`, 0 out of range, where the source has no number.
abbrev at : List ℕ → ℕ → ℕ
at [] i = 0
at (x ∷ xs) zero = x
at (x ∷ xs) (suc i) = at xs i

-- The rows of the table that a query counts.
unfoldable pub rows_of : String → (TrafficLog → Bool) → List TrafficLog → List TrafficLog
rows_of user_id test = filter (λ row. str_eq row.user_id user_id && test row)

-- `if (test) signals.push(signal)`, in front of what the later tests push.
abbrev pub push_if : Bool → AnomalySignal → List AnomalySignal → List AnomalySignal
push_if test signal rest = if test then signal ∷ rest else rest

unfoldable pub weight_sum : List AnomalySignal → ℕ
unfolding signal_weight
weight_sum [] = 0
weight_sum (x ∷ xs) = signal_weight x + weight_sum xs

module _ (config : UebaConfig) (hour_start hour_of : ℕ → ℕ) where
  -- A window that reaches back before the epoch begins at it, since `-` stops at 0.
  unfoldable pub build_scoring_context :
      String → TrafficLog → List TrafficLog → AnomalyScoringContext
  unfolding rows_of
  build_scoring_context user_id log table =
      let now = log.timestamp in
      let risky =
        rows_of user_id (λ row. is_between (now - config.high_risk_window_ms) now row.timestamp)
          table in
      record {
        current_hour_request_count =
            length (rows_of user_id (λ row. is_between (hour_start now) now row.timestamp) table);
        recent_block_count = length (
            rows_of user_id
              (λ row.
                is_between (now - config.repeated_blocks_window_ms) now row.timestamp
                && is_blocked_log row)
              table);
        recent_average_risk_score = record {
          numerator = sum_of (λ row. row.risk_score) risky;
          denominator = length risky;
        };
        host_seen_in_lookback = ltb 0 (
            length (
              rows_of user_id
                (λ row.
                  row.destination_host == log.destination_host
                  && (leb (now - config.new_host_lookback_ms) row.timestamp
                      && ltb row.timestamp now))
                table));
      }

  unfoldable pub is_new_host : Text → BehaviorBaselineSnapshot → AnomalyScoringContext → Bool
  is_new_host host baseline context =
      not (any (λ h. h == host) baseline.known_hosts) && not context.host_seen_in_lookback

  -- `count > reference * multiplier`, multiplied out.
  unfoldable pub is_volume_spike : ℕ → BehaviorBaselineSnapshot → Bool
  is_volume_spike count baseline =
      let reference = baseline.requests_per_active_hour.average in
      let multiplier = config.volume_spike_multiplier in
      if leb reference.numerator 0
      then false
      else ltb (reference.numerator * multiplier.numerator)
          (count * (reference.denominator * multiplier.denominator))

  -- `activeHours[hour] / total < 0.05`, multiplied out.
  unfoldable pub is_off_hours_activity : ℕ → BehaviorBaselineSnapshot → Bool
  is_off_hours_activity timestamp baseline =
      let total = sum baseline.active_hours in
      if leb total 0 then false else ltb (20 * at baseline.active_hours (hour_of timestamp)) total

  unfoldable pub has_repeated_blocks : ℕ → Bool
  has_repeated_blocks recent_block_count = ltb config.repeated_blocks_threshold recent_block_count

  unfoldable pub is_high_risk_cluster : Fraction → Bool
  is_high_risk_cluster average =
      ltb (config.high_risk_score_threshold * average.denominator) average.numerator

  unfoldable pub compute_score : List AnomalySignal → ℕ
  compute_score signals = min 100 (weight_sum signals)

  unfoldable pub resolve_severity : ℕ → SiemEventSeverity
  resolve_severity score =
      if leb 85 score then high else if leb config.alert_threshold score then medium else low

  unfoldable pub signals_of :
      TrafficLog → BehaviorBaselineSnapshot → AnomalyScoringContext → List AnomalySignal
  signals_of log baseline context =
      push_if (is_new_host log.destination_host baseline context) new_host (
        push_if (is_volume_spike context.current_hour_request_count baseline) volume_spike (
          push_if (is_off_hours_activity log.timestamp baseline) off_hours_activity (
            push_if (has_repeated_blocks context.recent_block_count) repeated_blocks (
              push_if (is_high_risk_cluster context.recent_average_risk_score) high_risk_cluster
                []))))

  unfoldable pub score_traffic_event :
      TrafficLog → BehaviorBaselineSnapshot → AnomalyScoringContext → AnomalyResult
  score_traffic_event log baseline context =
      let signals = signals_of log baseline context in
      record {
        anomaly_score = compute_score signals;
        signals = signals;
        severity = resolve_severity (compute_score signals);
      }
