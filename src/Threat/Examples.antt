-- ===== src/Threat/Examples.antt =====
-- Scans at a concrete provider, and the theorems applied there.
use guard_me.Prelude.{
  ◌+◌, ◌≡◌, refl, true, none, some, List, [], Result, ok, err, Exception, axios, arith, ltb,
  if◌then◌else◌,
}
use guard_me.Siem.{SecurityEventInput}
use guard_me.Threat.{VirusTotalAnalysisStats, ThreatScanResult}
use guard_me.Threat.VirusTotal.{
  Api, ThreatConfig, plain_metadata, build_result, map_stats_to_result, map_report_to_result,
  threat_risk_score, is_not_found_error, try_get_cached_report, submit_url_for_analysis,
  poll_answer, poll_analysis_result, scan_url,
}
use guard_me.Threat.VirusTotal.Polling.{IsFinding, scan_url_ends, scan_url_sound}
use guard_me.Threat.Service.{IsScanResult, scan_for, caught, is_timeout_error, scan_for_total}

abbrev stats : VirusTotalAnalysisStats
stats = record {
  malicious = some 3;
  suspicious = none;
  harmless = some 60;
  undetected = none;
  timeout = none;
}

-- A provider with no report, whose analysis is queued until the time 300, and completed then.
abbrev slow : Api
slow = record {
  report = λ now timeout url. (
    err (axios (record { code = none; message = []; status = some 404; status_text = none })),
    now + 10,
  );
  submit = λ now timeout url. (ok (some "a1"), now + 10);
  analysis = λ now timeout id. (
    ok (record {
      status = some (if ltb now 300 then "queued" else "completed");
      stats = some stats;
    }),
    now + 10,
  );
  wake = λ now ms. now + ms;
  report_takes_time = λ now timeout url. omega arith;
  submit_takes_time = λ now timeout url. omega arith;
  analysis_takes_time = λ now timeout id. omega arith;
  sleeps = λ now ms. omega arith;
}

abbrev config : ThreatConfig
config = record {
  api_key = "k";
  fail_closed = true;
  scan_timeout_ms = 1000;
  scan_poll_interval_ms = 150;
}

run_scan : Unit {0}
unfolding build_result map_stats_to_result map_report_to_result threat_risk_score is_not_found_error
    try_get_cached_report submit_url_for_analysis poll_answer poll_analysis_result scan_url scan_for
    caught
run_scan = tt

-- Three polls, and the result of the analysis.
found : ThreatScanResult
found =
    map_stats_to_result "http://x/" stats
      (record plain_metadata { source = some "live_analysis"; analysis_id = some "a1" })

scan_finds : scan_url slow config 0 "http://x/" ≡ some (ok found)
unfolding run_scan found
scan_finds = refl

-- With half the time, the polling times out, and the failure is reported.
scan_times_out :
    (r : Exception) × (scan_url slow (record config { scan_timeout_ms = 200 }) 0 "http://x/"
      ≡ some (err r))
    × (is_timeout_error r ≡ true)
unfolding run_scan is_timeout_error
scan_times_out = (_, refl, refl)

scan_url_ends_example :
    (r : Result ThreatScanResult) × (scan_url slow config 0 "http://x/" ≡ some r)
scan_url_ends_example = scan_url_ends slow config 0 "http://x/" (omega arith)

scan_url_sound_example : IsFinding "http://x/" found
scan_url_sound_example = scan_url_sound slow config 0 "http://x/" found scan_finds

scan_for_total_example :
    (r : ThreatScanResult × List SecurityEventInput) × (scan_for slow config 0 "http://x/" none
      ≡ some r)
    × IsScanResult "http://x/" r
scan_for_total_example = scan_for_total slow config 0 "http://x/" none (omega arith)
