-- ===== src/Siem/Names.antt =====
-- The values of the enumerations by their names: config/siem.config.ts, proxy/dto and threat/dto.
use guard_me.Prelude.{
  ◌≡◌, ◌↔◌, refl, sym, ap, ◌∙◌, true, some, List, [], ◌∷◌, String, Eq, find, str_eq, str_eq_iff,
}
use mathlib.Core.Option.{some-injective}
use guard_me.Siem.{
  SiemEventType, SiemEventSeverity, PolicyDecision, ThreatVerdict, type_name, severity_name,
  auth_failure, session_revoked, fingerprint_mismatch, reauth_required, reauth_failure,
  threat_scan_failure, threat_scan_timeout, malicious_blocked, rule_match, suspicious_proceed,
  proxy_error, vault_unlocked, vault_unlock_failure, vault_decrypt_failure, anomaly_detected, low,
  medium, high, critical, allow, warn, block, safe, suspicious, malicious, unverified,
}

unfoldable pub decision_name : PolicyDecision → String
decision_name allow = "ALLOW"
decision_name warn = "WARN"
decision_name block = "BLOCK"

unfoldable pub verdict_name : ThreatVerdict → String
verdict_name safe = "SAFE"
verdict_name suspicious = "SUSPICIOUS"
verdict_name malicious = "MALICIOUS"
verdict_name unverified = "UNVERIFIED"

-- `Object.values` of the enumerations.
abbrev pub event_types : List SiemEventType
event_types =
    auth_failure ∷ session_revoked ∷ fingerprint_mismatch ∷ reauth_required ∷ reauth_failure
    ∷ threat_scan_failure ∷ threat_scan_timeout ∷ malicious_blocked ∷ rule_match
    ∷ suspicious_proceed ∷ proxy_error ∷ vault_unlocked ∷ vault_unlock_failure
    ∷ vault_decrypt_failure ∷ anomaly_detected ∷ []

abbrev pub event_severities : List SiemEventSeverity
event_severities = low ∷ medium ∷ high ∷ critical ∷ []

abbrev pub policy_decisions : List PolicyDecision
policy_decisions = allow ∷ warn ∷ block ∷ []

abbrev pub threat_verdicts : List ThreatVerdict
threat_verdicts = safe ∷ suspicious ∷ malicious ∷ unverified ∷ []

-- Every value is the first with its name.
abbrev pub IsNamed : {A : Type 0} → List A → (A → String) → Type 0
IsNamed {A} all name = (a : A) → find (λ t. str_eq (name t) (name a)) all ≡ some a

name_inj :
    {A : Type 0} (all : List A) (name : A → String)
    → IsNamed all name
    → (a b : A) → name a ≡ name b
    → a ≡ b
name_inj all name named a b e =
    some-injective a b (sym (named a) ∙ ap (λ n. find (λ t. str_eq (name t) n) all) e ∙ named b)

pub same_name_iff :
    {A : Type 0} (all : List A) (name : A → String)
    → IsNamed all name
    → (a b : A) → (str_eq (name a) (name b) ≡ true) ↔ (a ≡ b)
same_name_iff all name named a b = (
  λ h. name_inj all name named a b ((str_eq_iff (name a) (name b)).0 h),
  λ e. (str_eq_iff (name a) (name b)).1 (ap name e),
)

pub decision-IsNamed : IsNamed policy_decisions decision_name
unfolding decision_name find
decision-IsNamed allow = refl
decision-IsNamed warn = refl
decision-IsNamed block = refl

pub verdict-IsNamed : IsNamed threat_verdicts verdict_name
unfolding verdict_name find
verdict-IsNamed safe = refl
verdict-IsNamed suspicious = refl
verdict-IsNamed malicious = refl
verdict-IsNamed unverified = refl

pub severity-IsNamed : IsNamed event_severities severity_name
unfolding severity_name find
severity-IsNamed low = refl
severity-IsNamed medium = refl
severity-IsNamed high = refl
severity-IsNamed critical = refl

pub type-IsNamed : IsNamed event_types type_name
unfolding type_name find
type-IsNamed auth_failure = refl
type-IsNamed session_revoked = refl
type-IsNamed fingerprint_mismatch = refl
type-IsNamed reauth_required = refl
type-IsNamed reauth_failure = refl
type-IsNamed threat_scan_failure = refl
type-IsNamed threat_scan_timeout = refl
type-IsNamed malicious_blocked = refl
type-IsNamed rule_match = refl
type-IsNamed suspicious_proceed = refl
type-IsNamed proxy_error = refl
type-IsNamed vault_unlocked = refl
type-IsNamed vault_unlock_failure = refl
type-IsNamed vault_decrypt_failure = refl
type-IsNamed anomaly_detected = refl

-- Equality of such values, by their names.
instance abbrev pub decision_eq : Eq PolicyDecision
decision_eq = record {
  beq = λ a b. str_eq (decision_name a) (decision_name b);
  beq_iff = same_name_iff policy_decisions decision_name decision-IsNamed;
}

instance abbrev pub verdict_eq : Eq ThreatVerdict
verdict_eq = record {
  beq = λ a b. str_eq (verdict_name a) (verdict_name b);
  beq_iff = same_name_iff threat_verdicts verdict_name verdict-IsNamed;
}

instance abbrev pub type_eq : Eq SiemEventType
type_eq = record {
  beq = λ a b. str_eq (type_name a) (type_name b);
  beq_iff = same_name_iff event_types type_name type-IsNamed;
}

instance abbrev pub severity_eq : Eq SiemEventSeverity
severity_eq = record {
  beq = λ a b. str_eq (severity_name a) (severity_name b);
  beq_iff = same_name_iff event_severities severity_name severity-IsNamed;
}
