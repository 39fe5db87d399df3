-- ===== src/Ueba/Baseline/Examples.antt =====
-- A user's baseline from two requests, and the theorems on baselines and on anomalies applied to it.

use guard_me.Prelude.{
  ℕ, ◌/◌, ◌%◌, ◌≤◌, ◌<◌, ◌≡◌, ◌≢◌, refl, inl, true, false, none, some, List, [], ◌∷◌, String, ok,
  In, arith, length, filter, str_eq_iff,
}
use guard_me.Text.{Text, text, ◌==◌}
use guard_me.Text.Laws.{text_eq}
use guard_me.Database.Memory.{memory, sort_by}
use guard_me.Siem.{allow, safe, medium, type_name}
use guard_me.Siem.Service.{SecurityEvent, security_event_row}
use guard_me.Siem.Service.{TrafficLog as Row}
use guard_me.Siem.Queries.{find_page}
use guard_me.Siem.Analytics.{resolve_analytics_range}
use guard_me.Ueba.{garbled, TrafficLog, BehaviorBaselineSnapshot}
use guard_me.Ueba.Anomaly.{AnomalyResult, AnomalyScoringContext, UebaConfig, new_host, is_new_host}
use guard_me.Ueba.Listener.{anomaly_event}
use guard_me.Ueba.Statistics.{
  sum, variance, increment_count, increment_entry, count_own, first_count,
}
use guard_me.Ueba.Baseline.{BaselineEnv, known_hosts_of, tally_log, tally_logs, compute_snapshot}
use guard_me.Ueba.Baseline.Service.{
  BaselineDeps, Baselines, build_payload, fresh_snapshot, refresh_for_user, find_snapshot_for_user,
}
use guard_me.Ueba.Baseline.Hosts.{refresh_for_user-is_new_host}
use guard_me.Ueba.Baseline.Counts.{counted, compute_snapshot-counts}
use guard_me.Ueba.Baseline.Stored.{
  refresh_op, get_op, apply_ops, refresh_for_user-find_snapshot_for_user,
}
use guard_me.Ueba.Analytics.{
  UebaAnomaliesQuery, UebaAnomalies, anomalies_in, get_anomalies_for_user,
}
use guard_me.Ueba.Analytics.Shown.{shown, get_anomalies_for_user-anomaly_event}

abbrev env : BaselineEnv
env = record {
  hour_of = λ t. t / 3600000 % 24;
  iso = λ t. "now";
  pathname = λ url. some (text "/a/b.zip");
  print_number = λ n. text "80";
  sqrt = λ q. q;
  is_not_behind = λ a b. true;
}

in_day : (t : ℕ) → t / 3600000 % 24 < 24
in_day t = omega arith

abbrev request : String → ℕ → Text → Row
request id timestamp host = record {
  id = id;
  input = record {
    user_id = "ann";
    client_ip = [];
    url = "http://a.b/c.zip";
    destination_host = host;
    destination_port = none;
    destination_ip = none;
    method = text "get";
    policy_decision = allow;
    threat_verdict = safe;
    matched_rule_id = none;
    risk_score = 10;
    timestamp = some timestamp;
  };
  timestamp = timestamp;
}

abbrev first : Row
first = request "r1" 1000 (text "a.b")

abbrev logs : List Row
logs = first ∷ request "r2" 7200000 (text "c.d") ∷ []

abbrev deps : BaselineDeps
deps = record {
  env = env;
  baseline_window_days = 7;
  baseline_min_sample_size = 2;
  baseline_max_known_hosts = 500;
  traffic = memory;
  sessions = memory;
}

abbrev nobody : Baselines
nobody user = none

abbrev habits : BehaviorBaselineSnapshot
habits = fresh_snapshot deps logs [] "ann" 8000000

refreshed : (refresh_for_user deps logs [] "ann" 8000000 nobody).0.snapshot ≡ some habits
unfolding refresh_for_user build_payload memory filter sort_by
refreshed = refl

few : length habits.known_hosts < 500
unfolding compute_snapshot tally_logs tally_log increment_count known_hosts_of sort_by memory filter
    text ◌==◌ increment_entry count_own first_count
few = omega arith

is_plain : text "a.b" ≢ text "__proto__"
is_plain e =
    let t = (text_eq.beq_iff (text "a.b") (text "__proto__")).1 e in unfold text ◌==◌ in cc t

abbrev config : UebaConfig
config = record {
  alert_threshold = 60;
  alert_cooldown_ms = 120000;
  volume_spike_multiplier = record { numerator = 3; denominator = 1 };
  repeated_blocks_window_ms = 600000;
  repeated_blocks_threshold = 3;
  high_risk_window_ms = 900000;
  high_risk_score_threshold = 70;
  new_host_lookback_ms = 604800000;
}

abbrev hour_start : ℕ → ℕ
hour_start t = 0

abbrev quiet : AnomalyScoringContext
quiet = record {
  current_hour_request_count = 1;
  recent_block_count = 0;
  recent_average_risk_score = record { numerator = 0; denominator = 1 };
  host_seen_in_lookback = false;
}

refresh_for_user-is_new_host_example :
    is_new_host config hour_start env.hour_of (text "a.b") habits quiet ≡ false
refresh_for_user-is_new_host_example =
    refresh_for_user-is_new_host deps logs [] config hour_start env.hour_of "ann" 8000000 nobody
      habits first quiet refreshed few is_plain (inl refl) refl

bob_is_other : ◌≢◌ {A = String} "bob" "ann"
bob_is_other e = cc ((str_eq_iff "bob" "ann").1 e)

refresh_for_user-find_snapshot_for_user_example :
    (find_snapshot_for_user deps [] [] "ann" 9000000 (
      apply_ops deps
        (refresh_op "bob" 8500000 logs [] ∷ get_op "ann" 8600000 [] [] ∷ [])
        (refresh_for_user deps logs [] "ann" 8000000 nobody).1)).0
    ≡ some habits
refresh_for_user-find_snapshot_for_user_example =
    refresh_for_user-find_snapshot_for_user deps logs [] [] [] "ann" 8000000 9000000 nobody habits
      (refresh_op "bob" 8500000 logs [] ∷ get_op "ann" 8600000 [] [] ∷ []) refreshed
      (bob_is_other, (tt, tt))

abbrev two : BehaviorBaselineSnapshot
two = compute_snapshot env 8000000 7 500 logs []

compute_snapshot-counts_example :
    (two.sample_size ≡ 2)
    × (length two.active_hours ≡ 24)
    × (sum two.active_hours ≡ two.sample_size)
    × (counted two.policy_decisions ≡ two.sample_size)
    × (counted two.threat_verdicts ≡ two.sample_size)
    × (counted two.method_distribution ≡ two.sample_size)
    × (counted two.port_distribution ≡ two.sample_size)
compute_snapshot-counts_example = compute_snapshot-counts env in_day 8000000 7 500 logs [] two refl

three : variance (3 ∷ 5 ∷ 0 ∷ []) ≡ record { numerator = 114; denominator = 18 }
unfolding variance
three = refl

-- A request to a host of the first name leaves no entry, and one to `constructor` leaves no number.
lost : increment_count (text "__proto__") [] ≡ []
unfolding increment_count text ◌==◌
lost = refl

no_number : increment_count (text "constructor") [] ≡ (text "constructor", garbled) ∷ []
unfolding increment_count count_own first_count text ◌==◌
no_number = refl

abbrev odd : TrafficLog
odd = record {
  id = "l1";
  user_id = "ann";
  destination_host = text "new.example";
  policy_decision = allow;
  threat_verdict = safe;
  risk_score = 90;
  timestamp = 5000;
}

abbrev scored : AnomalyResult
scored = record { anomaly_score = 70; signals = new_host ∷ []; severity = medium }

abbrev noted : SecurityEvent
noted = security_event_row "e1" 5001 (anomaly_event odd habits scored)

abbrev query : UebaAnomaliesQuery
query = record { page = none; page_size = none; from_time = some (some 0); to_time = none }

abbrev answer : UebaAnomalies
answer =
    anomalies_in memory memory "ann" query (noted ∷ []) []
      (record { from_time = 0; to_time = 9000; bucket_hours = 1 })

answered : get_anomalies_for_user memory memory "ann" query 9000 (noted ∷ []) [] ≡ ok answer
unfolding get_anomalies_for_user resolve_analytics_range
answered = refl

has_host : text "new.example" ≢ []
unfolding text
has_host e = cc

from_le : answer.period.from_time ≤ 5001
unfolding anomalies_in
from_le = omega arith

to_le : 5001 ≤ answer.period.to_time
unfolding anomalies_in
to_le = omega arith

first_one : answer.page ≡ 1
unfolding anomalies_in find_page
first_one = refl

all_fit : answer.total ≤ answer.page_size
unfolding anomalies_in find_page memory filter sort_by security_event_row anomaly_event type_name
all_fit = omega arith

get_anomalies_for_user-anomaly_event_example : In (shown "e1" 5001 odd habits scored) answer.items
get_anomalies_for_user-anomaly_event_example =
    get_anomalies_for_user-anomaly_event memory memory query 9000 (noted ∷ []) [] "e1" 5001 odd
      habits scored answer (inl refl) has_host answered from_le to_le first_one all_fit
