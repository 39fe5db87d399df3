-- ===== src/Siem.antt =====
-- The event store: config/siem.config.ts, siem/dto and the rows that siem.service.ts writes. A
-- security event's metadata is the list of its keys with their values.
pub mod Names
pub mod Service
pub mod Queries
pub mod Analytics
mod Examples
use guard_me.Prelude.{ℕ, Bool, Option, none, some, List, [], ◌∷◌, String, str_eq, if◌then◌else◌}
use guard_me.Text.{Text}
use guard_me.Text.Printing.{Number}

pub data SiemEventType : Type 0 where
  auth_failure session_revoked fingerprint_mismatch reauth_required reauth_failure : SiemEventType
  threat_scan_failure threat_scan_timeout malicious_blocked rule_match : SiemEventType
  suspicious_proceed proxy_error vault_unlocked vault_unlock_failure : SiemEventType
  vault_decrypt_failure anomaly_detected : SiemEventType

pub data SiemEventSeverity : Type 0 where
  low medium high critical : SiemEventSeverity

-- SIEM_EVENT_TYPES
unfoldable pub type_name : SiemEventType → String
type_name auth_failure = "AUTH_FAILURE"
type_name session_revoked = "SESSION_REVOKED"
type_name fingerprint_mismatch = "FINGERPRINT_MISMATCH"
type_name reauth_required = "REAUTH_REQUIRED"
type_name reauth_failure = "REAUTH_FAILURE"
type_name threat_scan_failure = "THREAT_SCAN_FAILURE"
type_name threat_scan_timeout = "THREAT_SCAN_TIMEOUT"
type_name malicious_blocked = "MALICIOUS_BLOCKED"
type_name rule_match = "RULE_MATCH"
type_name suspicious_proceed = "SUSPICIOUS_PROCEED"
type_name proxy_error = "PROXY_ERROR"
type_name vault_unlocked = "VAULT_UNLOCKED"
type_name vault_unlock_failure = "VAULT_UNLOCK_FAILURE"
type_name vault_decrypt_failure = "VAULT_DECRYPT_FAILURE"
type_name anomaly_detected = "ANOMALY_DETECTED"

-- SIEM_EVENT_SEVERITIES
unfoldable pub severity_name : SiemEventSeverity → String
severity_name low = "LOW"
severity_name medium = "MEDIUM"
severity_name high = "HIGH"
severity_name critical = "CRITICAL"

-- DEFAULT_EVENT_SEVERITIES
unfoldable pub default_severity : SiemEventType → SiemEventSeverity
default_severity auth_failure = medium
default_severity session_revoked = medium
default_severity fingerprint_mismatch = high
default_severity reauth_required = low
default_severity reauth_failure = medium
default_severity threat_scan_failure = critical
default_severity threat_scan_timeout = critical
default_severity malicious_blocked = high
default_severity rule_match = medium
default_severity suspicious_proceed = high
default_severity proxy_error = critical
default_severity vault_unlocked = low
default_severity vault_unlock_failure = medium
default_severity vault_decrypt_failure = high
default_severity anomaly_detected = medium

-- A value of the metadata: a string (`walked` where the source takes it apart elsewhere), a number,
-- a Boolean, null, a list of strings, or anything else.
pub data MetaValue : Type 0 where
  string : String → MetaValue
  walked : Text → MetaValue
  number : ℕ → MetaValue
  flag : Bool → MetaValue
  null_value other : MetaValue
  strings : List String → MetaValue

abbrev pub Metadata : Type 0
Metadata = List (String × MetaValue)

pub record SecurityEventInput : Type 0 where
  pub type : SiemEventType
  pub message : String
  pub severity : Option SiemEventSeverity
  pub user_id : Option String
  pub metadata : Metadata

-- `severity ?? DEFAULT_EVENT_SEVERITIES[type]`
unfoldable pub resolve_event_severity : SiemEventType → Option SiemEventSeverity → SiemEventSeverity
unfolding default_severity
resolve_event_severity type none = default_severity type
resolve_event_severity type (some severity) = severity

-- The user name is left out if it is missing or empty.
unfoldable pub build_security_event_actor_metadata : String → Option String → Metadata
build_security_event_actor_metadata user_id none = ("userId", string user_id) ∷ []
build_security_event_actor_metadata user_id (some username) =
    if str_eq username ""
    then ("userId", string user_id) ∷ []
    else ("userId", string user_id) ∷ ("username", string username) ∷ []

pub data PolicyDecision : Type 0 where
  allow warn block : PolicyDecision

pub data ThreatVerdict : Type 0 where
  safe suspicious malicious unverified : ThreatVerdict

pub record TrafficLogInput : Type 0 where
  pub user_id : String
  pub client_ip : Text
  pub url : String
  pub destination_host : Text
  pub destination_port : Option Number
  pub destination_ip : Option Text
  pub method : Text
  pub policy_decision : PolicyDecision
  pub threat_verdict : ThreatVerdict
  pub matched_rule_id : Option String
  pub risk_score : ℕ
  pub timestamp : Option ℕ
