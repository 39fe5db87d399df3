-- ===== src/Threat/VirusTotal/Polling.antt =====
-- The polling loop ends, and what a scan that succeeds returns.
use guard_me.Prelude.{
  ℕ, zero, suc, ◌+◌, ◌-◌, ◌≤◌, ◌<◌, ◌≡◌, ◌≢◌, ◌↔◌, refl, sym, ◌∙◌, inl, inr, Bool, true, false,
  Option, none, some, String, Result, ok, err, arith, ltb, ltb→lt, leb, Bool-cases, Option-cases,
  if◌then◌else◌,
}
use guard_me.Siem.{ThreatVerdict, safe, malicious, unverified}
use guard_me.Threat.{VirusTotalAnalysisStats, ScanMetadata, ThreatScanResult}
use guard_me.Threat.VirusTotal.{
  Analysis, Api, ThreatConfig, remaining_timeout, min_poll_sleep_ms, threat_risk_score,
  build_result, map_stats_to_result, map_report_to_result, is_not_found_error,
  try_get_cached_report, submit_url_for_analysis, poll_sleep, poll_answer, poll_analysis_result,
  polling_timed_out, scan_url, is_completed, or_zero, plain_metadata,
}

-- A verdict against the counts of the engines: malicious if one of them finds that, safe if none
-- finds it and none suspects it, and unverified exactly if there are no counts.
abbrev pub IsVerdictOn : Option VirusTotalAnalysisStats → ThreatVerdict → Type 0
IsVerdictOn none verdict = verdict ≡ unverified
IsVerdictOn (some stats) verdict =
    ((verdict ≡ malicious) ↔ (0 < or_zero stats.malicious))
    × ((verdict ≡ safe) ↔ ((or_zero stats.malicious ≡ 0) × (or_zero stats.suspicious ≡ 0)))
    × (verdict ≢ unverified)

-- A result that a scan itself made, as opposed to one that stands in for a failed scan.
abbrev pub IsScanOf : String → ThreatScanResult → Type 0
IsScanOf url r =
    (r.scanned_url ≡ url)
    × (r.risk_score ≡ threat_risk_score r.verdict)
    × (r.metadata.fail_safe ≡ false)

-- Such a result, with a verdict that the counts bear out.
abbrev pub IsFinding : String → ThreatScanResult → Type 0
IsFinding url r = IsScanOf url r × IsVerdictOn r.metadata.last_analysis_stats r.verdict

map_stats_scan :
    (url : String) (stats : VirusTotalAnalysisStats) (metadata : ScanMetadata)
    → metadata.fail_safe ≡ false
    → IsFinding url (map_stats_to_result url stats metadata)
unfolding map_stats_to_result build_result
map_stats_scan url stats metadata h = elim (Bool-cases (ltb 0 (or_zero stats.malicious))) [
  | inl e ↦ rw e ((refl, refl, h), ground arith)
  | inr e ↦ elim (Bool-cases (ltb 0 (or_zero stats.suspicious))) [
    | inl d ↦ rw (e, d) ((refl, refl, h), ground arith)
    | inr d ↦ rw (e, d) ((refl, refl, h), ground arith)
  ]
]

map_report_scan :
    (url : String) (stats : Option VirusTotalAnalysisStats)
    → IsFinding url (map_report_to_result url stats)
unfolding map_report_to_result build_result
map_report_scan url none = ((refl, refl, refl), refl)
map_report_scan url (some stats) = map_stats_scan url stats _ refl

module _ (api : Api) (config : ThreatConfig) where
  -- What every outcome of a loop satisfies, if it is one.
  abbrev IsScanIfOk : String → Option (Result ThreatScanResult) → Type 0
  IsScanIfOk url o = (r : ThreatScanResult) → o ≡ some (ok r) → IsFinding url r

  abbrev live : String → ScanMetadata
  live id = record plain_metadata { source = some "live_analysis"; analysis_id = some id }

  poll_answer_scan :
      (url id : String) (reply : Result Analysis)
      → IsScanIfOk url (poll_answer api config url id reply)
  unfolding poll_answer
  poll_answer_scan url id (err e) r h = cc
  poll_answer_scan url id (ok a) r h = elim (Option-cases (is_completed a)) [
    | inl e ↦ absurd (ground arith)
    | inr (stats, e) ↦
        let found = map_stats_scan url stats (live id) refl in
        let same : r ≡ map_stats_to_result url stats (live id) = ground arith in rw same found
  ]

  progress :
      (now deadline : ℕ) (later : ℕ)
      → 1 ≤ config.scan_poll_interval_ms
      → now ≤ later
      → now + 1 ≤ api.wake later (poll_sleep api config (remaining_timeout deadline later))
  progress now deadline later interval passed =
      omega (arith, api.sleeps later (poll_sleep api config (remaining_timeout deadline later)))

  -- One round of the loop, given what the rounds behind it end in.
  abbrev round :
      Bool
      → Option (Result ThreatScanResult)
      → Bool
      → Option (Result ThreatScanResult)
      → Option (Result ThreatScanResult)
  round on answer late rest =
      if on
      then elim answer [
        | some a ↦ some a
        | none ↦ if late then some (err polling_timed_out) else rest
      ]
      else some (err polling_timed_out)

  round_ends :
      (on late : Bool) (answer rest : Option (Result ThreatScanResult))
      → (on ≡ true → (r : Result ThreatScanResult) × (rest ≡ some r))
      → (r : Result ThreatScanResult) × (round on answer late rest ≡ some r)
  round_ends true late (some a) rest h = (a, refl)
  round_ends true true none rest h = (err polling_timed_out, refl)
  round_ends true false none rest h = h refl
  round_ends false late answer rest h = (err polling_timed_out, refl)

  round_scan :
      (on late : Bool) (answer rest : Option (Result ThreatScanResult)) (url : String)
      → IsScanIfOk url answer
      → IsScanIfOk url rest
      → IsScanIfOk url (round on answer late rest)
  round_scan true late (some a) rest url h k r e = h r e
  round_scan true true none rest url h k r e = absurd (cc)
  round_scan true false none rest url h k r e = k r e
  round_scan false late answer rest url h k r e = absurd (cc)

  poll_ends :
      (fuel now deadline : ℕ) (url id : String)
      → 1 ≤ config.scan_poll_interval_ms
      → deadline - now < fuel
      → (r : Result ThreatScanResult) × (poll_analysis_result api config fuel now deadline url id
          ≡ some r)
  unfolding poll_analysis_result
  poll_ends zero now deadline url id interval enough = absurd (omega arith)
  poll_ends (suc fuel) now deadline url id interval enough =
      let (reply, later) = api.analysis now (remaining_timeout deadline now) id in
      let passed = api.analysis_takes_time now (remaining_timeout deadline now) id in
      let next = api.wake later (poll_sleep api config (remaining_timeout deadline later)) in
      round_ends (ltb now deadline) (leb (remaining_timeout deadline later) min_poll_sleep_ms)
        (poll_answer api config url id reply)
        (poll_analysis_result api config fuel next deadline url id)
        λ on.
          poll_ends fuel next deadline url id interval
            (omega (arith, ltb→lt now deadline on, progress now deadline later interval passed))

  poll_scan :
      (fuel now deadline : ℕ) (url id : String)
      → IsScanIfOk url (poll_analysis_result api config fuel now deadline url id)
  unfolding poll_analysis_result
  poll_scan zero now deadline url id r h = cc
  poll_scan (suc fuel) now deadline url id r h =
      let (reply, later) = api.analysis now (remaining_timeout deadline now) id in
      let next = api.wake later (poll_sleep api config (remaining_timeout deadline later)) in
      round_scan (ltb now deadline) (leb (remaining_timeout deadline later) min_poll_sleep_ms)
        (poll_answer api config url id reply)
        (poll_analysis_result api config fuel next deadline url id) url
        (poll_answer_scan url id reply) (poll_scan fuel next deadline url id) r h

  -- `scan_url` from the answers of its two requests on.
  abbrev finish :
      Result (Option ThreatScanResult)
      → Result String
      → (String → Option (Result ThreatScanResult))
      → Option (Result ThreatScanResult)
  finish (err e) submitted poll = some (err e)
  finish (ok (some report)) submitted poll = some (ok report)
  finish (ok none) (err e) poll = some (err e)
  finish (ok none) (ok id) poll = poll id

  finish_ends :
      (cached : Result (Option ThreatScanResult)) (submitted : Result String)
      (poll : String → Option (Result ThreatScanResult))
      → ((id : String) → (r : Result ThreatScanResult) × (poll id ≡ some r))
      → (r : Result ThreatScanResult) × (finish cached submitted poll ≡ some r)
  finish_ends (err e) submitted poll h = (err e, refl)
  finish_ends (ok (some report)) submitted poll h = (ok report, refl)
  finish_ends (ok none) (err e) poll h = (err e, refl)
  finish_ends (ok none) (ok id) poll h = h id

  finish_scan :
      (cached : Result (Option ThreatScanResult)) (submitted : Result String)
      (poll : String → Option (Result ThreatScanResult)) (url : String)
      → ((report : ThreatScanResult) → cached ≡ ok (some report) → IsFinding url report)
      → ((id : String) → IsScanIfOk url (poll id))
      → IsScanIfOk url (finish cached submitted poll)
  finish_scan (err e) submitted poll url c h r k = cc
  finish_scan (ok (some report)) submitted poll url c h r k = c r (cc)
  finish_scan (ok none) (err e) poll url c h r k = cc
  finish_scan (ok none) (ok id) poll url c h r k = h id r k

  abbrev deadline_at : ℕ → ℕ
  deadline_at now = now + config.scan_timeout_ms

  abbrev cached_at : ℕ → String → Result (Option ThreatScanResult) × ℕ
  cached_at now url = try_get_cached_report api config now (deadline_at now) url

  abbrev submitted_at : ℕ → String → Result String × ℕ
  submitted_at now url =
      submit_url_for_analysis api config (cached_at now url).1 (deadline_at now) url

  abbrev poll_at : ℕ → String → String → Option (Result ThreatScanResult)
  poll_at now url id =
      poll_analysis_result api config (suc config.scan_timeout_ms) (submitted_at now url).1
        (deadline_at now) url id

  scan_url-eq-finish :
      (now : ℕ) (url : String)
      → scan_url api config now url
        ≡ finish (cached_at now url).0 (submitted_at now url).0 (poll_at now url)
  unfolding scan_url
  scan_url-eq-finish now url = ground arith

  cached_scan :
      (now : ℕ) (url : String) (report : ThreatScanResult)
      → (cached_at now url).0 ≡ ok (some report)
      → IsFinding url report
  unfolding try_get_cached_report
  cached_scan now url report h =
      go (api.report now (remaining_timeout (deadline_at now) now) url).0 h
    where
      go :
          (reply : Result (Option VirusTotalAnalysisStats))
          → ◌≡◌ {A = Result (Option ThreatScanResult)}
              (elim reply [
                | ok stats ↦ ok (some (map_report_to_result url stats))
                | err e ↦ if is_not_found_error e then ok none else err e
              ])
              (ok (some report))
          → IsFinding url report
      go (ok stats) k =
          let same : report ≡ map_report_to_result url stats = cc in
          rw same (map_report_scan url stats)
      go (err e) k = absurd (ground arith)

  requests_pass : (now : ℕ) (url : String) → now ≤ (submitted_at now url).1
  unfolding try_get_cached_report submit_url_for_analysis
  requests_pass now url = omega (
    arith,
    api.report_takes_time now (remaining_timeout (deadline_at now) now) url,
    api.submit_takes_time (cached_at now url).1
        (remaining_timeout (deadline_at now) (cached_at now url).1) url,
  )

  -- A scan always ends within its fuel, one round for each millisecond of the timeout and one more,
  -- as soon as the interval between polls is not zero, however the provider answers.
  pub scan_url_ends :
      (now : ℕ) (url : String)
      → 1 ≤ config.scan_poll_interval_ms
      → (r : Result ThreatScanResult) × (scan_url api config now url ≡ some r)
  scan_url_ends now url interval =
      let (r, e) =
        finish_ends (cached_at now url).0 (submitted_at now url).0 (poll_at now url) λ id.
          poll_ends (suc config.scan_timeout_ms) (submitted_at now url).1 (deadline_at now) url id
            interval (omega (arith, requests_pass now url)) in
      (r, scan_url-eq-finish now url ∙ e)

  -- A scan that succeeds is about the URL that was asked for, has the risk score of its verdict, and
  -- is never marked as one that stands in for a failed scan. Its verdict is malicious exactly if an
  -- engine of the counts that it carries finds the URL malicious, and safe exactly if none finds it
  -- malicious or suspicious; without counts, as in a report that has none, it is unverified.
  pub scan_url_sound :
      (now : ℕ) (url : String) (r : ThreatScanResult)
      → scan_url api config now url ≡ some (ok r)
      → IsFinding url r
  scan_url_sound now url r h =
      finish_scan (cached_at now url).0 (submitted_at now url).0 (poll_at now url) url
        (cached_scan now url)
        (λ id.
          poll_scan (suc config.scan_timeout_ms) (submitted_at now url).1 (deadline_at now) url id)
        r (sym (scan_url-eq-finish now url) ∙ h)
