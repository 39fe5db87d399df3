-- ===== src/Threat/VirusTotal.antt =====
-- threat/providers/virustotal.provider.ts. The HTTP client is a parameter that answers a request
-- made at a time with a time of its own; times are milliseconds.
pub mod Polling
use guard_me.Prelude.{
  ℕ, zero, suc, ◌+◌, ◌-◌, ◌≤◌, min, max, Bool, true, false, Option, none, some, List, [], String,
  Result, ok, err, AxiosError, axios, failure, http, blocked_destination, Exception, ltb, leb,
  nat_beq, str_eq, if◌then◌else◌,
}
use guard_me.Text.{text}
use guard_me.Siem.{ThreatVerdict, safe, suspicious, malicious, unverified}
use guard_me.Threat.{VirusTotalAnalysisStats, ScanMetadata, ThreatScanResult}

-- `data.attributes.last_analysis_stats` of a report, `data.id` of a submission, and status and
-- counts of an analysis, each missing where the response leaves it out.
pub record Analysis : Type 0 where
  pub status : Option String
  pub stats : Option VirusTotalAnalysisStats

-- Each request takes the time and the timeout, and gives the answer with the time it comes at.
-- `wake` is when a sleep that begins at a time ends.
pub record Api : Type 0 where
  pub report : ℕ → ℕ → String → Result (Option VirusTotalAnalysisStats) × ℕ
  pub submit : ℕ → ℕ → String → Result (Option String) × ℕ
  pub analysis : ℕ → ℕ → String → Result Analysis × ℕ
  pub wake : ℕ → ℕ → ℕ
  pub report_takes_time : (now timeout : ℕ) (url : String) → now ≤ (report now timeout url).1
  pub submit_takes_time : (now timeout : ℕ) (url : String) → now ≤ (submit now timeout url).1
  pub analysis_takes_time : (now timeout : ℕ) (id : String) → now ≤ (analysis now timeout id).1
  pub sleeps : (now ms : ℕ) → now + ms ≤ wake now ms

pub record ThreatConfig : Type 0 where
  pub api_key : String
  pub fail_closed : Bool
  pub scan_timeout_ms : ℕ
  pub scan_poll_interval_ms : ℕ

abbrev pub min_poll_sleep_ms : ℕ
min_poll_sleep_ms = 100

-- THREAT_RISK_SCORES
unfoldable pub threat_risk_score : ThreatVerdict → ℕ
threat_risk_score malicious = 90
threat_risk_score suspicious = 60
threat_risk_score safe = 10
threat_risk_score unverified = 40

abbrev pub or_zero : Option ℕ → ℕ
or_zero none = 0
or_zero (some n) = n

unfoldable pub build_result : String → ThreatVerdict → ScanMetadata → ThreatScanResult
unfolding threat_risk_score
build_result url verdict metadata = record {
  verdict = verdict;
  risk_score = threat_risk_score verdict;
  scanned_url = url;
  metadata = metadata;
}

unfoldable pub map_stats_to_result :
    String → VirusTotalAnalysisStats → ScanMetadata → ThreatScanResult
map_stats_to_result url stats metadata =
    let found = record metadata { last_analysis_stats = some stats } in
    if ltb 0 (or_zero stats.malicious)
    then build_result url malicious found
    else if ltb 0 (or_zero stats.suspicious)
    then build_result url suspicious found
    else build_result url safe found

abbrev pub plain_metadata : ScanMetadata
plain_metadata = record {
  fail_safe = false;
  reason = none;
  source = none;
  error = none;
  analysis_id = none;
  last_analysis_stats = none;
}

unfoldable pub map_report_to_result : String → Option VirusTotalAnalysisStats → ThreatScanResult
map_report_to_result url none = build_result url unverified (record plain_metadata {
  reason = some "missing_analysis_stats";
  source = some "cached_report";
})
map_report_to_result url (some stats) =
    map_stats_to_result url stats (record plain_metadata { source = some "cached_report" })

unfoldable pub is_not_found_error : Exception → Bool
is_not_found_error (axios e) = elim e.status [ none ↦ false | some status ↦ nat_beq status 404 ]
is_not_found_error _ = false

-- `Math.max(deadline - Date.now(), 1)`
abbrev pub remaining_timeout : ℕ → ℕ → ℕ
remaining_timeout deadline now = max (deadline - now) 1

abbrev pub polling_timed_out : Exception
polling_timed_out = axios (record {
  code = some "ECONNABORTED";
  message = text "VirusTotal analysis polling timed out";
  status = none;
  status_text = none;
})

abbrev pub is_completed : Analysis → Option VirusTotalAnalysisStats
is_completed a = elim a.status [
  | none ↦ none
  | some status ↦ if str_eq status "completed" then a.stats else none
]

abbrev pub is_failed : Analysis → Bool
is_failed a = elim a.status [ none ↦ false | some status ↦ str_eq status "failed" ]

module _ (api : Api) (config : ThreatConfig) where
  unfoldable pub try_get_cached_report : ℕ → ℕ → String → Result (Option ThreatScanResult) × ℕ
  try_get_cached_report now deadline url =
      let (reply, later) = api.report now (remaining_timeout deadline now) url in
      (
        elim reply [
          | ok stats ↦ ok (some (map_report_to_result url stats))
          | err e ↦ if is_not_found_error e then ok none else err e
        ],
        later,
      )

  unfoldable pub submit_url_for_analysis : ℕ → ℕ → String → Result String × ℕ
  submit_url_for_analysis now deadline url =
      let (reply, later) = api.submit now (remaining_timeout deadline now) url in
      (
        elim reply [
          | err e ↦ err e
          | ok none ↦ err (failure "VirusTotal did not return an analysis id")
          | ok (some id) ↦
              if str_eq id ""
              then err (failure "VirusTotal did not return an analysis id")
              else ok id
        ],
        later,
      )

  -- What one answer to a poll ends the loop with, if it does.
  unfoldable pub poll_answer : String → String → Result Analysis → Option (Result ThreatScanResult)
  poll_answer url analysis_id (err e) = some (err e)
  poll_answer url analysis_id (ok a) = elim (is_completed a) [
    | some stats ↦ some (
        ok (
          map_stats_to_result url stats (record plain_metadata {
            source = some "live_analysis";
            analysis_id = some analysis_id;
          })))
    | none ↦ if is_failed a then some (err (failure "VirusTotal analysis failed")) else none
  ]

  -- How long the loop sleeps.
  abbrev pub poll_sleep : ℕ → ℕ
  poll_sleep remaining = min config.scan_poll_interval_ms (max min_poll_sleep_ms remaining)

  -- The loop of `pollAnalysisResult` on fuel; `none` means that the fuel ran out.
  unfoldable pub poll_analysis_result :
      ℕ → ℕ → ℕ → String → String → Option (Result ThreatScanResult)
  poll_analysis_result zero now deadline url analysis_id = none
  poll_analysis_result (suc fuel) now deadline url analysis_id =
      let (reply, later) = api.analysis now (remaining_timeout deadline now) analysis_id in
      let remaining = remaining_timeout deadline later in
      let rest =
        poll_analysis_result fuel (api.wake later (poll_sleep remaining)) deadline url
          analysis_id in
      if ltb now deadline
      then elim (poll_answer url analysis_id reply) [
        | some answer ↦ some answer
        | none ↦ if leb remaining min_poll_sleep_ms then some (err polling_timed_out) else rest
      ]
      else some (err polling_timed_out)

  -- `scanUrl`, with as much fuel as the timeout has milliseconds, and one.
  unfoldable pub scan_url : ℕ → String → Option (Result ThreatScanResult)
  scan_url now url =
      let deadline = now + config.scan_timeout_ms in
      let (cached, at_report) = try_get_cached_report now deadline url in
      elim cached [
        | err e ↦ some (err e)
        | ok (some report) ↦ some (ok report)
        | ok none ↦
            let (submitted, at_submit) = submit_url_for_analysis at_report deadline url in
            elim submitted [
              | err e ↦ some (err e)
              | ok id ↦ poll_analysis_result (suc config.scan_timeout_ms) at_submit deadline url id
            ]
      ]
