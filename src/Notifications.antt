-- ===== src/Notifications.antt =====
-- Notifications of threats: config/notification.config.ts and modules/notifications.
use guard_me.Prelude.{
  ℕ, Bool, true, false, Option, none, some, List, [], ◌∷◌, String, str_eq, any, if◌then◌else◌,
}
use guard_me.Siem.{
  SiemEventType, SiemEventSeverity, auth_failure, session_revoked, fingerprint_mismatch,
  reauth_required, reauth_failure, threat_scan_failure, threat_scan_timeout, malicious_blocked,
  rule_match, suspicious_proceed, proxy_error, vault_unlocked, vault_unlock_failure,
  vault_decrypt_failure, anomaly_detected, MetaValue, string, walked, number, flag, null_value,
  other, strings, Metadata,
}
use guard_me.Siem.Service.{SecurityEvent}

pub record ThreatNotificationPayload : Type 0 where
  pub id : String
  pub type : SiemEventType
  pub title : String
  pub message : String
  pub severity : SiemEventSeverity
  pub timestamp : ℕ
  pub metadata : Metadata

pub record ThreatNotificationEmitPayload : Type 0 where
  pub user_id : String
  pub notification : ThreatNotificationPayload

-- NOTIFIABLE_EVENT_TYPES.has
unfoldable pub is_notifiable : SiemEventType → Bool
is_notifiable anomaly_detected = true
is_notifiable malicious_blocked = true
is_notifiable fingerprint_mismatch = true
is_notifiable threat_scan_failure = true
is_notifiable threat_scan_timeout = true
is_notifiable suspicious_proceed = true
is_notifiable _ = false

unfoldable pub resolve_notification_title : SiemEventType → String
resolve_notification_title anomaly_detected = "Unusual activity detected"
resolve_notification_title malicious_blocked = "Malicious site blocked"
resolve_notification_title fingerprint_mismatch = "Session fingerprint mismatch"
resolve_notification_title threat_scan_failure = "Threat scan unavailable"
resolve_notification_title threat_scan_timeout = "Threat scan timed out"
resolve_notification_title suspicious_proceed = "Suspicious site accessed"
resolve_notification_title auth_failure = "Authentication failed"
resolve_notification_title session_revoked = "Session revoked"
resolve_notification_title reauth_required = "Re-authentication required"
resolve_notification_title reauth_failure = "Re-authentication failed"
resolve_notification_title rule_match = "Firewall rule matched"
resolve_notification_title proxy_error = "Proxy error"
resolve_notification_title vault_unlocked = "Vault unlocked"
resolve_notification_title vault_unlock_failure = "Vault unlock failed"
resolve_notification_title vault_decrypt_failure = "Vault decrypt failed"

unfoldable pub safe_metadata_keys : List String
safe_metadata_keys =
    "url" ∷ "destinationHost" ∷ "riskScore" ∷ "anomalyScore" ∷ "signals" ∷ "reason" ∷ "failStrategy"
    ∷ "source" ∷ "action" ∷ "threatVerdict" ∷ "policyDecision" ∷ "clientIp" ∷ "attemptedUsername"
    ∷ []

-- A string, a number, a Boolean, or an array of strings.
unfoldable pub is_plain : MetaValue → Bool
is_plain (string _) = true
is_plain (walked _) = true
is_plain (number _) = true
is_plain (flag _) = true
is_plain (strings _) = true
is_plain null_value = false
is_plain other = false

unfoldable pub is_safe_key : String → Bool
unfolding safe_metadata_keys
is_safe_key key = any (str_eq key) safe_metadata_keys

-- The events of the program have an object for metadata.
unfoldable pub sanitize_notification_metadata : Metadata → Metadata
unfolding is_plain is_safe_key
sanitize_notification_metadata [] = []
sanitize_notification_metadata ((key, value) ∷ metadata) =
    let rest = sanitize_notification_metadata metadata in
    if is_safe_key key then (if is_plain value then (key, value) ∷ rest else rest) else rest

unfoldable pub build_payload : SecurityEvent → ThreatNotificationPayload
unfolding resolve_notification_title sanitize_notification_metadata
build_payload row = record {
  id = row.id;
  type = row.type;
  title = resolve_notification_title row.type;
  message = row.message;
  severity = row.severity;
  timestamp = row.created_at;
  metadata = sanitize_notification_metadata row.metadata;
}

-- What is emitted for a security event, if anything.
unfoldable pub notify_from_security_event : SecurityEvent → Option ThreatNotificationEmitPayload
unfolding is_notifiable build_payload
notify_from_security_event row = elim row.user_id [
  | none ↦ none
  | some user_id ↦
      if str_eq user_id ""
      then none
      else if is_notifiable row.type
      then some (record { user_id = user_id; notification = build_payload row })
      else none
]
