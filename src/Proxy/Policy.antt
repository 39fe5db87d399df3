-- ===== src/Proxy/Policy.antt =====
-- proxy/policy.service.ts: the decision on a request by the scans of its URL and of its file.
pub mod Decisions
use guard_me.Prelude.{ℕ, Bool, true, false, ◌&&◌, Option, none, some, String, ◌++◌, if◌then◌else◌}
use guard_me.Text.{Text, text}
use guard_me.Siem.{
  PolicyDecision, allow, warn, block, ThreatVerdict, safe, suspicious, malicious, unverified,
}
use guard_me.Threat.{ThreatScanResult, ScanMetadata}
use guard_me.Proxy.Inspection.FileScan.{FileScanResult}

-- The metadata, by its source; a key that is not set counts as false.
pub data PolicyMetadata : Type 0 where
  file_scan : (file_name : Text) → PolicyMetadata
  url_scan : (fail_closed elevated_risk fail_safe : Bool) → ScanMetadata → PolicyMetadata
  user_rule :
      (rule_type : String) → (pattern : Text) → (skipped_threat_scan : Bool) → PolicyMetadata

pub record PolicyResult : Type 0 where
  pub decision : PolicyDecision
  pub reason : Text
  pub risk_score : ℕ
  pub threat_verdict : ThreatVerdict
  pub matched_rule_id : Option String
  pub metadata : Option PolicyMetadata

unfoldable pub decide_from_file_scan : Option FileScanResult → Option PolicyResult
decide_from_file_scan none = none
decide_from_file_scan (some scan) = elim scan.verdict [
  | malicious ↦ some (record {
    decision = block;
    reason = text "Blocked file download: " ++ scan.reason;
    risk_score = scan.risk_score;
    threat_verdict = malicious;
    matched_rule_id = none;
    metadata = some (file_scan scan.file_name);
  })
  | suspicious ↦ some (record {
    decision = warn;
    reason = text "Suspicious file download: " ++ scan.reason;
    risk_score = scan.risk_score;
    threat_verdict = suspicious;
    matched_rule_id = none;
    metadata = some (file_scan scan.file_name);
  })
  | safe ↦ none
  | unverified ↦ none
]

abbrev scanned : PolicyDecision → Text → PolicyMetadata → ThreatScanResult → PolicyResult
scanned decision reason metadata scan = record {
  decision = decision;
  reason = reason;
  risk_score = scan.risk_score;
  threat_verdict = scan.verdict;
  matched_rule_id = none;
  metadata = some metadata;
}

-- `closed` is `threatConfig.failClosed()`.
unfoldable pub decide_from_threat_scan : Bool → ThreatScanResult → PolicyResult
decide_from_threat_scan closed scan = elim scan.verdict [
  | malicious ↦
      scanned block (text "URL flagged as malicious by threat intelligence")
        (url_scan false false false scan.metadata) scan
  | suspicious ↦
      scanned warn (text "URL flagged as suspicious by threat intelligence")
        (url_scan false false false scan.metadata) scan
  | unverified ↦
      if scan.metadata.fail_safe && closed
      then scanned block (text "Threat scan unavailable; traffic blocked by fail-closed policy")
          (url_scan true false false scan.metadata) scan
      else scanned allow
          (if scan.metadata.fail_safe
            then text "Threat scan unavailable; traffic allowed by fail-open policy"
            else text "URL reputation could not be fully verified")
          (url_scan false true scan.metadata.fail_safe scan.metadata) scan
  | safe ↦
      scanned allow (text "URL passed threat intelligence checks")
        (url_scan false false false scan.metadata) scan
]

unfoldable pub decide : Bool → ThreatScanResult → Option FileScanResult → PolicyResult
decide closed scan file = elim (decide_from_file_scan file) [
  | some policy ↦ policy
  | none ↦ decide_from_threat_scan closed scan
]
