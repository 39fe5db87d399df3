-- ===== src/Proxy/Pipeline/Handler.antt =====
-- `handleHttp` and `evaluateConnect` of proxy/proxy-pipeline.service.ts, and `handle` of
-- proxy/connect-tunnel.service.ts, on top of the parts in the parent module. A step gives its result
-- or an exception, and the state, which an exception does not take back.
use guard_me.Prelude.{
  ℕ, Bool, false, none, some, List, [], ◌∷◌, ◌++◌, String, Result, ok, err, Exception, http, axios,
  blocked_destination, failure, str_eq, if◌then◌else◌,
}
use guard_me.Text.{Text, text}
use guard_me.Text.Printing.{Number}
use guard_me.Rules.{FirewallRule}
use guard_me.Siem.{
  PolicyDecision, allow, warn, block, suspicious, suspicious_proceed, proxy_error, string, walked,
}
use guard_me.Threat.{ThreatScanResult}
use guard_me.Threat.Service.{extract_error_message}
use guard_me.Proxy.ConnectTarget.{ConnectTarget, parse_connect_target}
use guard_me.Proxy.Dns.{resolve_allowed_destination}
use guard_me.Proxy.Inspection.{
  Request, InspectionResult, inspect, build_connect_inspection, guardme_bypass_param,
}
use guard_me.Proxy.Inspection.FileScan.{simulate_file_scan}
use guard_me.Proxy.Policy.{PolicyResult, decide}
use guard_me.Proxy.BypassToken.{verify_and_consume, sign}
use guard_me.Proxy.Pipeline.{
  AuthenticatedUser, Moments, ProxyState, Response, block_page, warning_page, Services, log, event,
  actor, evaluate_user_rules, scan_with_cache, log_traffic, log_malicious_blocked, forward,
}

abbrev blocked_message : Text
blocked_message = extract_error_message blocked_destination

abbrev bypass_policy : PolicyResult
bypass_policy = record {
  decision = allow;
  reason = text "User bypassed warning interstitial";
  risk_score = 50;
  threat_verdict = suspicious;
  matched_rule_id = none;
  metadata = none;
}

-- `error instanceof Error ? error.message : …`, where every exception is an Error.
unfoldable pub error_message : Exception → Text
error_message (axios e) = e.message
error_message (http status m) = text m
error_message blocked_destination = text "Destination resolves to a private or local address"
error_message (failure m) = text m

-- `respondBlock`
abbrev pub respond_block : String → PolicyResult → Response
respond_block url policy = block_page 403 url policy.reason policy.risk_score

module _ {lifetime : ℕ} (d : Services lifetime) (at : Moments) (user : AuthenticatedUser) where
  -- Whether the request has a token that `verifyAndConsume` accepts.
  unfoldable pub bypass : InspectionResult → ProxyState → Bool × ProxyState
  bypass i s = elim i.bypass_token [
    | none ↦ (false, s)
    | some token ↦
        let (accepted, consumed) =
          verify_and_consume lifetime d.jwt at.token_checked token i.normalized_url user.user_id
            user.session_id s.consumed in
        if str_eq token "" then (false, s) else (accepted, record s { consumed = consumed })
  ]

  unfoldable pub log_bypass : Text → InspectionResult → ProxyState → ProxyState
  log_bypass client_ip i s = log_traffic d at user client_ip i bypass_policy (
      log
        (event suspicious_proceed "User proceeded past security warning" (
          ("url", string i.normalized_url) ∷ actor user
          ++ ("sessionId", string user.session_id) ∷ []))
        s)

  unfoldable pub warning : InspectionResult → PolicyResult → ThreatScanResult → Response
  warning i policy scan = warning_page (record {
    url = i.normalized_url;
    reason = policy.reason;
    threat_scan = scan;
    risk_score = policy.risk_score;
    proceed_url = d.urls.set_param i.normalized_url guardme_bypass_param (
        sign lifetime d.jwt at.token_signed at.token_id i.normalized_url user.user_id
          user.session_id);
  })

  -- What the decision of the policy leads to.
  unfoldable pub respond_policy :
      InspectionResult → PolicyResult → ThreatScanResult → Result Response
  unfolding warning
  respond_policy i policy scan = elim policy.decision [
    | block ↦ ok (respond_block i.normalized_url policy)
    | warn ↦ ok (warning i policy scan)
    | allow ↦ forward d i
  ]

  -- The request behind the rules: the scans, the policy and the logs.
  unfoldable pub respond_scanned :
      Text → InspectionResult → ProxyState → Result Response × ProxyState
  respond_scanned client_ip i s =
      let (scan, scanned) = scan_with_cache d at i.normalized_url user s in
      let policy = decide d.fail_closed scan (simulate_file_scan i) in
      let logged = log_traffic d at user client_ip i policy scanned in
      (respond_policy i policy scan, log_malicious_blocked policy i.normalized_url user logged)

  -- What a rule of the user leads to.
  unfoldable pub respond_rule : InspectionResult → PolicyResult → Result Response
  respond_rule i policy = elim policy.decision [
    | allow ↦ forward d i
    | _ ↦ ok (respond_block i.normalized_url policy)
  ]

  -- The request behind the bypass token.
  unfoldable pub respond_checked :
      Text → InspectionResult → List FirewallRule → ProxyState → Result Response × ProxyState
  respond_checked client_ip i table s =
      let (policy, matched) = evaluate_user_rules d user i table s in
      let unmatched = respond_scanned client_ip i matched in
      elim policy [
        | some p ↦ (respond_rule i p, log_traffic d at user client_ip i p matched)
        | none ↦ unmatched
      ]

  unfoldable pub respond_inspected :
      Text → InspectionResult → List FirewallRule → ProxyState → Result Response × ProxyState
  respond_inspected client_ip i table s =
      let (accepted, checked) = bypass i s in
      let refused = respond_checked client_ip i table checked in
      if accepted then (forward d i, log_bypass client_ip i checked) else refused

  -- The body of the `try`.
  unfoldable pub try_http : Request → List FirewallRule → ProxyState → Result Response × ProxyState
  try_http req table s = elim (inspect d.is_ip d.urls req) [
    | err e ↦ (err e, s)
    | ok i ↦ respond_inspected req.client_ip i table s
  ]

  -- The `catch`.
  unfoldable pub recover : Request → Result Response × ProxyState → Response × ProxyState
  unfolding error_message
  recover req (ok response, s) = (response, s)
  recover req (err blocked_destination, s) = (block_page 403 req.url blocked_message 100, s)
  recover req (err e, s) = (
    block_page 500 req.url (text "Internal proxy error") 100,
    log
        (event proxy_error "Internal proxy error"
          (("error", walked (error_message e)) ∷ ("path", string req.url) ∷ actor user))
        s,
  )

  unfoldable pub handle_http : Request → List FirewallRule → ProxyState → Response × ProxyState
  handle_http req table s = recover req (try_http req table s)

  unfoldable pub connect_scanned :
      Text → InspectionResult → ProxyState → PolicyDecision × ProxyState
  connect_scanned client_ip i s =
      let (scan, scanned) = scan_with_cache d at i.normalized_url user s in
      let policy = decide d.fail_closed scan none in
      let logged = log_traffic d at user client_ip i policy scanned in
      (
        (elim policy.decision [ warn ↦ block | block ↦ block | allow ↦ allow ]),
        log_malicious_blocked policy i.normalized_url user logged,
      )

  unfoldable pub connect_checked :
      Text → InspectionResult → List FirewallRule → ProxyState → PolicyDecision × ProxyState
  connect_checked client_ip i table s =
      let (policy, matched) = evaluate_user_rules d user i table s in
      let unmatched = connect_scanned client_ip i matched in
      elim policy [
        | some p ↦ (
          (elim p.decision [ allow ↦ allow | _ ↦ block ]),
          log_traffic d at user client_ip i p matched,
        )
        | none ↦ unmatched
      ]

  unfoldable pub evaluate_connect :
      Text → Number → Text → List FirewallRule → ProxyState → Result PolicyDecision × ProxyState
  evaluate_connect host port client_ip table s =
      elim (build_connect_inspection d.is_ip d.print_number host port) [
        | err e ↦ (err e, s)
        | ok i ↦ let (decision, after) = connect_checked client_ip i table s in (ok decision, after)
      ]

-- What the client's socket gets: a tunnel to an address and a port, or a status line.
pub data Tunnel : Type 0 where
  opened : (address : Text) → (port : Number) → Tunnel
  rejected : (status : ℕ) → Tunnel

unfoldable pub tunnel_error : Exception → Tunnel
tunnel_error blocked_destination = rejected 403
tunnel_error _ = rejected 500

module _ {lifetime : ℕ} (d : Services lifetime) (at : Moments) (user : AuthenticatedUser) where
  unfoldable pub open_if_allowed : ConnectTarget → Result PolicyDecision → Tunnel
  unfolding tunnel_error
  open_if_allowed target (err e) = tunnel_error e
  open_if_allowed target (ok allow) =
      elim (resolve_allowed_destination d.is_ip d.lookup target.host) [
        | err e ↦ tunnel_error e
        | ok destination ↦ opened destination.address target.port
      ]
  open_if_allowed target (ok _) = rejected 403

  -- `to_number` is JavaScript's `Number` on a text.
  unfoldable pub handle_connect :
      (Text → Number) → Text → Text → List FirewallRule → ProxyState → Tunnel × ProxyState
  handle_connect to_number url client_ip table s = elim (parse_connect_target to_number url) [
    | none ↦ (rejected 400, s)
    | some target ↦
        let (decision, after) =
          evaluate_connect d at user target.host target.port client_ip table s in
        (open_if_allowed target decision, after)
  ]
