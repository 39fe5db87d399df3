-- ===== src/Threat/Service.antt =====
-- threat/threat.service.ts: the scan that the proxy asks for. It never fails: a missing key and an
-- error of the provider give a result that says so, and a security event.
use guard_me.Prelude.{
  ℕ, ◌≤◌, ◌≡◌, refl, ◌⊎◌, inl, inr, Bool, true, false, ◌||◌, Option, none, some, List, [], ◌∷◌,
  ◌++◌, String, Result, ok, err, AxiosError, axios, failure, http, blocked_destination, Exception,
  nat_beq, str_eq, arith, Bool-cases, if◌then◌else◌,
}
use guard_me.Text.{Text, text, includes, to_lower_case}
use guard_me.Text.Printing.{decimal}
use guard_me.Siem.{
  resolve_event_severity, default_severity, critical, unverified, SiemEventType,
  threat_scan_failure, threat_scan_timeout, string, walked, Metadata, SecurityEventInput,
  build_security_event_actor_metadata,
}
use guard_me.Threat.{ThreatScanResult}
use guard_me.Threat.VirusTotal.{Api, ThreatConfig, threat_risk_score, scan_url, plain_metadata}
use guard_me.Threat.VirusTotal.Polling.{scan_url_ends, scan_url_sound}

pub record ThreatScanActor : Type 0 where
  pub user_id : String
  pub username : String

abbrev has_code : AxiosError → String → Bool
has_code e c = elim e.code [ none ↦ false | some d ↦ str_eq d c ]

unfoldable pub is_timeout_error : Exception → Bool
unfolding includes to_lower_case
is_timeout_error (axios e) =
    has_code e "ECONNABORTED"
    || has_code e "ETIMEDOUT"
    || includes (to_lower_case e.message) (text "timeout")
is_timeout_error _ = false

-- A status of 0 and an empty status text count as none.
unfoldable pub extract_error_message : Exception → Text
extract_error_message (axios e) = elim e.status [
  | none ↦ e.message
  | some status ↦
      if nat_beq status 0
      then e.message
      else text "HTTP " ++ decimal status ++ (elim e.status_text [
        | none ↦ []
        | some t ↦ if str_eq t "" then [] else text " " ++ text t
      ])
]
extract_error_message (http status m) = text m
extract_error_message blocked_destination =
    text "Destination resolves to a private or local address"
extract_error_message (failure m) = text m

-- What a failed scan is reported with: `url`, `reason` and, where an error was thrown, its message.
pub record FailSafeEvent : Type 0 where
  pub event_type : SiemEventType
  pub message : String
  pub reason : String
  pub error : Option Text

unfoldable pub event_metadata : String → Bool → Option ThreatScanActor → FailSafeEvent → Metadata
event_metadata url fail_closed actor event =
    ("url", string url)
      ∷ ("reason", string event.reason)
      ∷ (elim event.error [ none ↦ [] | some e ↦ ("error", walked e) ∷ [] ])
    ++ ("failStrategy", string (if fail_closed then "closed" else "open")) ∷ (elim actor [
      | none ↦ []
      | some a ↦ build_security_event_actor_metadata a.user_id (some a.username)
    ])

unfoldable pub fail_safe_result :
    ThreatConfig
    → String
    → Option ThreatScanActor
    → FailSafeEvent
    → ThreatScanResult × List SecurityEventInput
unfolding event_metadata
fail_safe_result config url actor event = (
  record {
    verdict = unverified;
    risk_score = threat_risk_score unverified;
    scanned_url = url;
    metadata = record plain_metadata {
      fail_safe = true;
      reason = some event.reason;
      error = event.error;
    };
  },
  record {
    type = event.event_type;
    message = event.message;
    severity = none;
    user_id = elim actor [ none ↦ none | some a ↦ some a.user_id ];
    metadata = event_metadata url config.fail_closed actor event;
  }
      ∷ [],
)

abbrev pub missing_key_event : FailSafeEvent
missing_key_event = record {
  event_type = threat_scan_failure;
  message = "VirusTotal API key is missing; allowing as UNVERIFIED";
  reason = "missing_api_key";
  error = none;
}

unfoldable pub thrown_event : Exception → FailSafeEvent
thrown_event e =
    if is_timeout_error e
    then record {
      event_type = threat_scan_timeout;
      message = "VirusTotal scan timed out; allowing as UNVERIFIED";
      reason = "timeout";
      error = some (extract_error_message e);
    }
    else record {
      event_type = threat_scan_failure;
      message = "VirusTotal scan failed; allowing as UNVERIFIED";
      reason = "api_error";
      error = some (extract_error_message e);
    }

-- The catch around the provider's scan.
unfoldable pub caught :
    ThreatConfig
    → String
    → Option ThreatScanActor
    → Result ThreatScanResult
    → ThreatScanResult × List SecurityEventInput
caught config url actor (ok r) = (r, [])
caught config url actor (err e) = fail_safe_result config url actor (thrown_event e)

module _ (api : Api) (config : ThreatConfig) where
  -- `scanUrl`: the result, and the security events that are logged; `none` if the fuel of the
  -- provider's loop ran out.
  unfoldable pub scan_for :
      ℕ → String → Option ThreatScanActor → Option (ThreatScanResult × List SecurityEventInput)
  scan_for now url actor =
      if str_eq config.api_key ""
      then some (fail_safe_result config url actor missing_key_event)
      else elim (scan_url api config now url) [
        | none ↦ none
        | some r ↦ some (caught config url actor r)
      ]

-- What holds of a scan's result, whether the provider answered or not: the score is the verdict's,
-- and a result that stands in for a failed scan is unverified and comes with a critical event.
abbrev pub IsScanResult : String → ThreatScanResult × List SecurityEventInput → Type 0
IsScanResult url (r, events) =
    (r.scanned_url ≡ url)
    × (r.risk_score ≡ threat_risk_score r.verdict)
    × (((r.metadata.fail_safe ≡ false) × (events ≡ []))
        ⊎ ((r.metadata.fail_safe ≡ true)
            × (r.verdict ≡ unverified)
            × (event : SecurityEventInput) × (events ≡ event ∷ [])
            × (resolve_event_severity event.type event.severity ≡ critical)))

-- The scanner as the proxy uses it.
pub record ThreatScanner : Type 0 where
  pub scan : ℕ → String → Option ThreatScanActor → ThreatScanResult × List SecurityEventInput
  pub scan_result :
      (now : ℕ) (url : String) (actor : Option ThreatScanActor)
      → IsScanResult url (scan now url actor)

fail_safe-IsScanResult :
    (config : ThreatConfig) (url : String) (actor : Option ThreatScanActor) (event : FailSafeEvent)
    → default_severity event.event_type ≡ critical
    → IsScanResult url (fail_safe_result config url actor event)
unfolding fail_safe_result resolve_event_severity
fail_safe-IsScanResult config url actor event h = (refl, refl, inr (refl, refl, _, refl, h))

thrown-critical : (e : Exception) → default_severity (thrown_event e).event_type ≡ critical
unfolding thrown_event default_severity
thrown-critical e = ground arith

module _ (api : Api) (config : ThreatConfig) where
  caught-IsScanResult :
      (now : ℕ) (url : String) (actor : Option ThreatScanActor) (r : Result ThreatScanResult)
      → scan_url api config now url ≡ some r
      → IsScanResult url (caught config url actor r)
  unfolding caught
  caught-IsScanResult now url actor (err e) h =
      fail_safe-IsScanResult config url actor (thrown_event e) (thrown-critical e)
  caught-IsScanResult now url actor (ok r) h =
      let ((same, score, live), _) = scan_url_sound api config now url r h in
      (same, score, inl (live, refl))

  -- A scan always gives a result for the URL that was asked for, with the risk score of its verdict,
  -- however the provider answers, if the interval between polls is not zero. Where the result stands
  -- in for a failed scan it is unverified and marked, and one event of critical severity is logged;
  -- any other result is not marked and logs nothing.
  pub scan_for_total :
      (now : ℕ) (url : String) (actor : Option ThreatScanActor)
      → 1 ≤ config.scan_poll_interval_ms
      → (r : ThreatScanResult × List SecurityEventInput) × (scan_for api config now url actor
          ≡ some r)
        × IsScanResult url r
  unfolding scan_for
  scan_for_total now url actor interval = elim (Bool-cases (str_eq config.api_key "")) [
    | inl e ↦ (
      fail_safe_result config url actor missing_key_event,
      rw e refl,
      fail_safe-IsScanResult config url actor missing_key_event (unfold default_severity in refl),
    )
    | inr e ↦
        let (r, h) = scan_url_ends api config now url interval in
        (caught config url actor r, rw (e, h) refl, caught-IsScanResult now url actor r h)
  ]

  -- The service as a scanner.
  abbrev pub scanner : 1 ≤ config.scan_poll_interval_ms → ThreatScanner
  scanner interval = record {
    scan = λ now url actor. (scan_for_total now url actor interval).0;
    scan_result = λ now url actor. (scan_for_total now url actor interval).2;
  }
