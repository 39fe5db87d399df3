-- ===== src/Proxy/Pipeline.antt =====
-- proxy/proxy-pipeline.service.ts and proxy/connect-tunnel.service.ts: what becomes of a request. The
-- state is what the services under it keep in memory, with the list of what was logged.
pub mod Handler
pub mod Steps
pub mod Safety
pub mod Tunnels
pub mod CacheSafety
pub mod History
use guard_me.Prelude.{
  ℕ, Bool, true, false, ◌≡◌, Option, none, some, List, [], ◌∷◌, ◌++◌, map, String, Result, ok, err,
  http, axios, blocked_destination, failure, Exception, ◌>>=◌, str_eq, if◌then◌else◌,
}
use guard_me.Text.{Text, text}
use guard_me.Text.Printing.{Number}
use guard_me.Database.{Prisma}
use guard_me.Rules.{FirewallRule, RuleMatchContext, RuleMatchResult}
use guard_me.Rules.Service.{evaluate_rules}
use guard_me.Siem.{
  PolicyDecision, allow, warn, block, ThreatVerdict, malicious, suspicious, unverified,
  SecurityEventInput, TrafficLogInput, Metadata, MetaValue, string, walked, number, SiemEventType,
  rule_match, malicious_blocked, suspicious_proceed, proxy_error,
  build_security_event_actor_metadata,
}
use guard_me.Threat.{ThreatScanResult, VirusTotalAnalysisStats}
use guard_me.Threat.Service.{ThreatScanner, extract_error_message}
use guard_me.Proxy.Dns.{ResolvedDestination, resolve_destination_ip, resolve_allowed_destination}
use guard_me.Proxy.Inspection.{
  UrlApi, Request, InspectionResult, inspect, build_connect_inspection, guardme_bypass_param,
}
use guard_me.Proxy.Inspection.FileScan.{simulate_file_scan}
use guard_me.Proxy.Policy.{PolicyResult, PolicyMetadata, user_rule, decide}
use guard_me.Proxy.BypassToken.{BypassJwt, Consumed, verify_and_consume, sign}
use guard_me.Proxy.ThreatScanCache.{Cache, get, put}

pub record AuthenticatedUser : Type 0 where
  pub user_id : String
  pub username : String
  pub session_id : String

-- When the services are called that read the clock, and the identifier that `uuidv4` gives.
pub record Moments : Type 0 where
  pub token_checked : ℕ
  pub cache_read : ℕ
  pub scanned : ℕ
  pub cached : ℕ
  pub token_signed : ℕ
  pub logged : ℕ
  pub token_id : String

pub data LogEntry : Type 0 where
  security : SecurityEventInput → LogEntry
  traffic : TrafficLogInput → LogEntry

pub record ProxyState : Type 0 where
  pub consumed : Consumed
  pub cache : Cache
  pub logs : List LogEntry

-- `buildThreatSummary` reads the verdict, the score and the counts of the result.
pub record WarningPageContext : Type 0 where
  pub url : String
  pub reason : Text
  pub threat_scan : ThreatScanResult
  pub risk_score : ℕ
  pub proceed_url : String

-- What the client gets: the answer of the upstream server at an address, the block page with its
-- status, or the warning page.
pub data Response : Type 0 where
  upstream : (status : ℕ) → ResolvedDestination → InspectionResult → Response
  block_page : (status : ℕ) → (url : String) → (reason : Text) → (risk_score : ℕ) → Response
  warning_page : WarningPageContext → Response

-- What the pipeline calls and does not hold: `isIP`, `lookup`, the URL class, JwtService, Prisma, the
-- threat scanner, the HTTP client (the status of the answer), and the configuration.
pub record Services (lifetime : ℕ) : Type 0 where
  pub is_ip : Text → ℕ
  pub lookup : Text → Result (List ResolvedDestination)
  pub urls : UrlApi
  pub print_number : Number → Text
  pub jwt : BypassJwt
  pub db : Prisma FirewallRule
  pub scanner : ThreatScanner
  pub request : ResolvedDestination → InspectionResult → Result ℕ
  pub fail_closed : Bool
  pub cache_ttl : ℕ

abbrev pub log : LogEntry → ProxyState → ProxyState
log entry s = record s { logs = s.logs ++ entry ∷ [] }

-- `match.ruleName ?? match.pattern`
unfoldable pub rule_label : RuleMatchResult → Text
rule_label m = elim m.rule_name [ none ↦ m.pattern | some name ↦ name ]

unfoldable pub policy_from_user_rule : RuleMatchResult → PolicyResult
unfolding rule_label
policy_from_user_rule m =
    if str_eq m.action "BLOCK"
    then record {
      decision = block;
      reason = text "Blocked by user rule: " ++ rule_label m;
      risk_score = 100;
      threat_verdict = unverified;
      matched_rule_id = some m.rule_id;
      metadata = some (user_rule m.rule_type m.pattern false);
    }
    else record {
      decision = allow;
      reason = text "Allowed by user whitelist rule: " ++ rule_label m;
      risk_score = 0;
      threat_verdict = unverified;
      matched_rule_id = some m.rule_id;
      metadata = some (user_rule m.rule_type m.pattern true);
    }

abbrev event : SiemEventType → String → Metadata → LogEntry
event type message metadata = security (record {
  type = type;
  message = message;
  severity = none;
  user_id = none;
  metadata = metadata;
})

abbrev actor : AuthenticatedUser → Metadata
actor user = build_security_event_actor_metadata user.user_id (some user.username)

unfoldable pub log_rule_match : RuleMatchResult → String → AuthenticatedUser → LogEntry
log_rule_match m url user =
    event rule_match
      (if str_eq m.action "BLOCK"
        then "User firewall rule matched (BLOCK)"
        else "User firewall rule matched (ALLOW)")
      (("url", string url) ∷ actor user
        ++ ("sessionId", string user.session_id)
          ∷ ("ruleId", string m.rule_id)
          ∷ ("ruleType", string m.rule_type)
          ∷ ("pattern", walked m.pattern)
          ∷ ("action", string m.action)
          ∷ [])

-- The event of a malicious URL that the scans block, and not a rule.
unfoldable pub log_malicious_blocked :
    PolicyResult → String → AuthenticatedUser → ProxyState → ProxyState
log_malicious_blocked policy url user s =
    let entry = event malicious_blocked "Malicious URL blocked by threat intelligence" (
      ("url", string url) ∷ actor user
      ++ ("riskScore", number policy.risk_score) ∷ ("threatVerdict", string "MALICIOUS") ∷ []) in
    elim policy.decision [
      | allow ↦ s
      | warn ↦ s
      | block ↦ elim policy.threat_verdict [
        | malicious ↦ elim policy.matched_rule_id [
          | none ↦ log entry s
          | some id ↦ if str_eq id "" then log entry s else s
        ]
        | _ ↦ s
      ]
    ]

module _ {lifetime : ℕ} (d : Services lifetime) where
  unfoldable pub log_traffic :
      Moments → AuthenticatedUser → Text → InspectionResult → PolicyResult → ProxyState → ProxyState
  log_traffic at user client_ip i policy = log (
      traffic (record {
        user_id = user.user_id;
        client_ip = client_ip;
        url = i.normalized_url;
        destination_host = i.destination_host;
        destination_port = some i.destination_port;
        destination_ip = resolve_destination_ip d.is_ip d.lookup i.destination_host;
        method = i.method;
        policy_decision = policy.decision;
        threat_verdict = policy.threat_verdict;
        matched_rule_id = policy.matched_rule_id;
        risk_score = policy.risk_score;
        timestamp = some at.logged;
      }))

  -- `table` is the table of the rules, which a request only reads.
  unfoldable pub user_rule_match :
      AuthenticatedUser → Text → List FirewallRule → Option RuleMatchResult
  user_rule_match user host table =
      evaluate_rules d.db user.user_id (record { destination_host = host; destination_ip = none })
        (some (resolve_destination_ip d.is_ip d.lookup host)) table

  unfoldable pub evaluate_user_rules :
      AuthenticatedUser
      → InspectionResult
      → List FirewallRule
      → ProxyState
      → Option PolicyResult × ProxyState
  unfolding policy_from_user_rule
  evaluate_user_rules user i table s = elim (user_rule_match user i.destination_host table) [
    | none ↦ (none, s)
    | some m ↦ (some (policy_from_user_rule m), log (log_rule_match m i.normalized_url user) s)
  ]

  -- The scanner's result, kept if it does not stand in for a failed scan.
  unfoldable pub scan_anew :
      Moments → String → AuthenticatedUser → ProxyState → ThreatScanResult × ProxyState
  scan_anew at url user s =
      let (result, events) =
        d.scanner.scan at.scanned url
          (some (record { user_id = user.user_id; username = user.username })) in
      let logged = record s { logs = s.logs ++ map security events } in
      if result.metadata.fail_safe
      then (result, logged)
      else (result, record logged { cache = put d.cache_ttl at.cached url result s.cache })

  unfoldable pub scan_with_cache :
      Moments → String → AuthenticatedUser → ProxyState → ThreatScanResult × ProxyState
  scan_with_cache at url user s =
      let (cached, cache) = get at.cache_read url s.cache in
      let purged = record s { cache = cache } in
      let anew = scan_anew at url user purged in
      elim cached [ some result ↦ (result, purged) | none ↦ anew ]

  -- proxy-forward.service.ts as far as the address: the upstream is reached at an address that the
  -- host resolves to, if none of those is refused.
  unfoldable pub forward : InspectionResult → Result Response
  forward i = do
    destination ← resolve_allowed_destination d.is_ip d.lookup i.destination_host
    status ← d.request destination i
    ok (upstream status destination i)
