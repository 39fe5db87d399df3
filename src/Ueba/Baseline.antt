-- ===== src/Ueba/Baseline.antt =====
-- `computeSnapshot` of ueba/baseline.service.ts: a user's habits from the traffic and the sessions of
-- a window of days. A day and an hour of a time are their numbers since the epoch, where the source
-- has the first characters of its ISO form.
pub mod Service
pub mod Hosts
pub mod Counts
pub mod Stored
mod Examples
use guard_me.Prelude.{
  ℕ, zero, suc, ◌+◌, ◌-◌, ◌*◌, ◌/◌, Bool, true, false, ◌||◌, Option, none, some, List, [], ◌∷◌,
  ◌++◌, String, any, filter, length, map, take, max, leb, ltb, nat_beq, if◌then◌else◌, string_eq,
}
use guard_me.Text.{Text, text, ◌==◌, to_upper_case, split, has_unit}
use guard_me.Text.Printing.{Number}
use guard_me.Text.Laws.{text_eq}
use guard_me.Database.Memory.{sort_by}
use guard_me.Siem.{PolicyDecision, block, ThreatVerdict}
use guard_me.Siem.Names.{decision_eq, verdict_eq}
use guard_me.Siem.Analytics.Summary.{nat_eq}
use guard_me.Siem.Service.{TrafficLog}
use guard_me.Sessions.{Session}
use guard_me.Ueba.{
  Count, times, garbled, Fraction, AverageWithStdDev, HostFrequency, BehaviorBaselineSnapshot,
}
use guard_me.Ueba.Statistics.{
  sum, round, mean, std_dev, median, increment_count, increment_entry, classify_browser,
}

-- What the service uses of the language and of third parties: the local hour of a time, its ISO form,
-- the path of a URL where it can be parsed, `String` on a number, `Math.sqrt`, and whether
-- `localeCompare` is not positive.
pub record BaselineEnv : Type 0 where
  pub hour_of : ℕ → ℕ
  pub iso : ℕ → String
  pub pathname : String → Option Text
  pub print_number : Number → Text
  pub sqrt : Fraction → Fraction
  pub is_not_behind : Text → Text → Bool

-- What the loop over the traffic gathers.
pub record Tally : Type 0 where
  pub active_hours : List ℕ
  pub per_day_counts : List (ℕ × ℕ)
  pub per_hour_counts : List (ℕ × ℕ)
  pub blocked_per_day : List (ℕ × ℕ)
  pub hosts_per_day : List (ℕ × List Text)
  pub downloads_per_day : List (ℕ × ℕ)
  pub host_counts : List (Text × Count)
  pub policy_decisions : List (PolicyDecision × ℕ)
  pub threat_verdicts : List (ThreatVerdict × ℕ)
  pub method_distribution : List (Text × ℕ)
  pub port_distribution : List (Text × ℕ)
  pub risk_sum : ℕ
  pub risk_max : ℕ
  pub upload_count : ℕ

-- `new Array(n).fill(0)`
abbrev pub zeros : ℕ → List ℕ
zeros zero = []
zeros (suc n) = 0 ∷ zeros n

abbrev pub no_tally : Tally
no_tally = record {
  active_hours = zeros 24;
  per_day_counts = [];
  per_hour_counts = [];
  blocked_per_day = [];
  hosts_per_day = [];
  downloads_per_day = [];
  host_counts = [];
  policy_decisions = [];
  threat_verdicts = [];
  method_distribution = [];
  port_distribution = [];
  risk_sum = 0;
  risk_max = 0;
  upload_count = 0;
}

-- `counts[i] += 1`; out of range, which an hour of a day is not, nothing is counted.
unfoldable pub increment_at : ℕ → List ℕ → List ℕ
increment_at i [] = []
increment_at zero (n ∷ counts) = suc n ∷ counts
increment_at (suc i) (n ∷ counts) = n ∷ increment_at i counts

-- `set.add(host)`
abbrev add_host : Text → List Text → List Text
add_host host hosts = if any (λ h. h == host) hosts then hosts else hosts ++ host ∷ []

-- The set of a day with one more host.
unfoldable pub add_day_host : ℕ → Text → List (ℕ × List Text) → List (ℕ × List Text)
add_day_host day host [] = (day, host ∷ []) ∷ []
add_day_host day host ((d, hosts) ∷ days) =
    let rest = add_day_host day host days in
    if nat_beq d day then (d, add_host host hosts) ∷ days else (d, hosts) ∷ rest

abbrev last_or_empty : List Text → Text
last_or_empty [] = []
last_or_empty (p ∷ []) = p
last_or_empty (p ∷ q ∷ ps) = last_or_empty (q ∷ ps)

unfoldable pub with_zero_fill : List ℕ → (expected_length : ℕ) → List ℕ
with_zero_fill counts expected_length = counts ++ zeros (expected_length - length counts)

abbrev values : {K : Type 0} → List (K × ℕ) → List ℕ
values = map (λ p. p.1)

abbrev number_from : ℕ → List ℕ → List (ℕ × ℕ)
number_from i [] = []
number_from i (n ∷ counts) = (i, n) ∷ number_from (suc i) counts

-- The hours with at least a twentieth of all requests, the busiest first.
unfoldable pub most_active : (total : ℕ) → List ℕ → List ℕ
most_active total active_hours =
    map (λ p. p.0)
      (sort_by (λ p q. leb q.1 p.1)
        (filter (λ p. leb total (20 * p.1)) (number_from 0 active_hours)))

-- Whether `b - a` is not positive, or not a number, which sorts as 0.
abbrev pub is_not_rarer : Count → Count → Bool
is_not_rarer (times a) (times b) = leb b a
is_not_rarer _ _ = true

-- `b.count - a.count || …`, which goes on to the names where the difference is 0 or no number.
abbrev pub is_before : Bool → Count → Count → Bool
is_before by_name (times a) (times b) = if nat_beq a b then by_name else ltb b a
is_before by_name _ _ = by_name

-- `Object.entries(hostCounts)`, the commonest first, and cut. Entries that are alike keep the order
-- in which they were set; a host that is a whole number, of which the source has the entries first,
-- stands with the others here.
unfoldable pub known_hosts_of : (limit : ℕ) → List (Text × Count) → List Text
known_hosts_of limit host_counts =
    map (λ p. p.0) (take limit (sort_by (λ p q. is_not_rarer p.1 q.1) host_counts))

abbrev over : ℕ → ℕ → Fraction
over total n =
    if ltb 0 n
    then record { numerator = total; denominator = n }
    else record { numerator = 0; denominator = 1 }

abbrev averages : (Fraction → Fraction) → List ℕ → AverageWithStdDev
averages sqrt counts = record {
  average = round (mean counts) 100;
  std_dev = round (std_dev sqrt counts) 100;
}

-- `sumValues(map) / Math.max(windowDays, 1)`
abbrev per_day : ℕ → List (ℕ × ℕ) → Fraction
per_day window_days counts =
    round (record { numerator = sum (values counts); denominator = max window_days 1 }) 100

module _ (env : BaselineEnv) where
  unfoldable pub looks_like_file_download : String → Bool
  looks_like_file_download url = elim (env.pathname url) [
    | none ↦ false
    | some path ↦ has_unit b'.' (last_or_empty (split b'/' path))
  ]

  -- One round of the loop over the traffic. No key but a host is a name that every object has:
  -- methods are in capitals, and the others are words of the program and numbers.
  unfoldable pub tally_log : TrafficLog → Tally → Tally
  unfolding increment_count increment_entry increment_at add_day_host looks_like_file_download
  tally_log log t =
      let day : ℕ = log.timestamp / 86400000 in
      let hour : ℕ = log.timestamp / 3600000 in
      let method = to_upper_case log.input.method in
      let port : Text = elim log.input.destination_port [
        | none ↦ text "unknown"
        | some p ↦ env.print_number p
      ] in
      record {
        active_hours = increment_at (env.hour_of log.timestamp) t.active_hours;
        per_day_counts = increment_entry day t.per_day_counts;
        per_hour_counts = increment_entry hour t.per_hour_counts;
        host_counts = increment_count log.input.destination_host t.host_counts;
        policy_decisions = increment_entry log.input.policy_decision t.policy_decisions;
        threat_verdicts = increment_entry log.input.threat_verdict t.threat_verdicts;
        method_distribution = increment_entry method t.method_distribution;
        port_distribution = increment_entry port t.port_distribution;
        blocked_per_day = elim log.input.policy_decision [
          | block ↦ increment_entry day t.blocked_per_day
          | _ ↦ t.blocked_per_day
        ];
        upload_count =
            if method == text "POST" || method == text "PUT"
            then suc t.upload_count
            else t.upload_count;
        downloads_per_day =
            if looks_like_file_download log.input.url
            then increment_entry day t.downloads_per_day
            else t.downloads_per_day;
        hosts_per_day = add_day_host day log.input.destination_host t.hosts_per_day;
        risk_sum = t.risk_sum + log.input.risk_score;
        risk_max = max t.risk_max log.input.risk_score;
      }

  unfoldable pub tally_logs : List TrafficLog → Tally → Tally
  unfolding tally_log
  tally_logs [] t = t
  tally_logs (log ∷ logs) t = tally_logs logs (tally_log log t)

  -- `topHosts`: by count, then by name.
  unfoldable pub top_hosts_of : List (Text × Count) → List HostFrequency
  top_hosts_of host_counts =
      map (λ p. record { host = p.0; count = p.1 })
        (take 20 (sort_by (λ p q. is_before (env.is_not_behind p.0 q.0) p.1 q.1) host_counts))

  abbrev count_browsers : List Session → List (String × ℕ) → List (String × ℕ)
  count_browsers [] counts = counts
  count_browsers (s ∷ sessions) counts =
      count_browsers sessions (increment_entry (classify_browser s.user_agent) counts)

  -- The mean of minutes is that of milliseconds, 60000 to the minute; a session is verified after it
  -- was created.
  abbrev mean_minutes : List Session → Fraction
  mean_minutes sessions =
      let durations = mean (map (λ s. s.last_verified_at - s.created_at) sessions) in
      record { numerator = durations.numerator; denominator = durations.denominator * 60000 }

  unfoldable pub compute_snapshot :
      (now window_days max_known_hosts : ℕ)
      → List TrafficLog
      → List Session
      → BehaviorBaselineSnapshot
  unfolding tally_logs with_zero_fill most_active known_hosts_of top_hosts_of round mean std_dev
      median increment_entry classify_browser
  compute_snapshot now window_days max_known_hosts logs sessions =
      let t = tally_logs logs no_tally in
      let total : ℕ = length logs in
      let active_hour_counts = values t.per_hour_counts in
      record {
        computed_at = env.iso now;
        window_days = window_days;
        sample_size = total;
        active_hours = t.active_hours;
        most_active_hours = most_active total t.active_hours;
        requests_per_hour =
            averages env.sqrt (with_zero_fill active_hour_counts (window_days * 24));
        requests_per_active_hour = averages env.sqrt active_hour_counts;
        requests_per_day = averages env.sqrt (with_zero_fill (values t.per_day_counts) window_days);
        blocked_per_day = per_day window_days t.blocked_per_day;
        policy_decisions = t.policy_decisions;
        threat_verdicts = t.threat_verdicts;
        method_distribution = t.method_distribution;
        port_distribution = t.port_distribution;
        top_hosts = top_hosts_of t.host_counts;
        known_hosts = known_hosts_of max_known_hosts t.host_counts;
        unique_hosts_per_day = round (median (map (λ p. length p.1) t.hosts_per_day)) 100;
        risk_average = round (over t.risk_sum total) 100;
        risk_max = t.risk_max;
        upload_share = round (over t.upload_count total) 10000;
        download_requests_per_day = per_day window_days t.downloads_per_day;
        sessions = record {
          count = length sessions;
          average_duration_minutes = round (mean_minutes sessions) 100;
        };
        browsers = count_browsers sessions [];
      }
