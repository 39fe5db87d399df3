-- ===== src/Proxy/Pipeline/Tunnels.antt =====
-- When a CONNECT request gets a tunnel, and to which address.
use guard_me.Prelude.{
  ℕ, ◌≡◌, refl, sym, ap, ◌∙◌, ◌≢◌, ◌⊎◌, inl, inr, false, none, some, List, Result, ok, err, http,
  axios, blocked_destination, failure, arith, str_eq_iff, Bool-cases, Option-cases,
}
use guard_me.Text.{Text}
use guard_me.Text.Printing.{Number}
use guard_me.Rules.{FirewallRule, RuleMatchResult}
use guard_me.Siem.{PolicyDecision, allow, warn, block}
use guard_me.Proxy.Url.{is_blocked_destination_host}
use guard_me.Proxy.Dns.{ResolvedDestination, resolve_allowed_destination}
use guard_me.Proxy.ConnectTarget.{ConnectTarget, parse_connect_target}
use guard_me.Proxy.Inspection.{
  InspectionResult, connect_url, connect_inspection, build_connect_inspection,
}
use guard_me.Proxy.Policy.{decide}
use guard_me.Proxy.Pipeline.{
  AuthenticatedUser, Moments, ProxyState, Services, user_rule_match, scan_with_cache,
}
use guard_me.Proxy.Pipeline.Steps.{rule_decision, connect-no_rule, connect-rule}
use guard_me.Proxy.Pipeline.Safety.{IsAllowedAddress, allowed_address}
use guard_me.Proxy.Pipeline.Handler.{
  connect_scanned, connect_checked, evaluate_connect, Tunnel, opened, tunnel_error, open_if_allowed,
  handle_connect,
}

module _ {lifetime : ℕ} (d : Services lifetime) (at : Moments) (user : AuthenticatedUser) where
  -- The ways a tunnel is permitted: by a rule of the user that does not block, or, where no rule
  -- matches, by the decision on the scan of the target's URL.
  abbrev pub IsConnectPermitted : ConnectTarget → List FirewallRule → ProxyState → Type 0
  IsConnectPermitted t table s =
      ((m : RuleMatchResult) × (user_rule_match d user t.host table ≡ some m)
        × (m.action ≢ "BLOCK"))
      ⊎ ((user_rule_match d user t.host table ≡ none)
          × ((decide d.fail_closed
                (scan_with_cache d at (connect_url d.is_ip d.print_number t.host t.port) user s).0
                none).decision
              ≡ allow))

  scanned_allow :
      (ip : Text) (i : InspectionResult) (s : ProxyState)
      → (connect_scanned d at user ip i s).0 ≡ allow
      → (decide d.fail_closed (scan_with_cache d at i.normalized_url user s).0 none).decision
        ≡ allow
  unfolding connect_scanned
  scanned_allow ip i s h =
      go (decide d.fail_closed (scan_with_cache d at i.normalized_url user s).0 none).decision h
    where
      go :
          (q : PolicyDecision)
          → ◌≡◌ {A = PolicyDecision} (elim q [ warn ↦ block | block ↦ block | allow ↦ allow ]) allow
          → q ≡ allow
      go allow k = refl
      go warn k = absurd (cc)
      go block k = absurd (cc)

  rule_allow : (m : RuleMatchResult) → rule_decision m ≡ allow → m.action ≢ "BLOCK"
  rule_allow m h = ground (arith, str_eq_iff m.action "BLOCK")

  checked_allow :
      (ip : Text) (i : InspectionResult) (table : List FirewallRule) (s : ProxyState)
      → (connect_checked d at user ip i table s).0 ≡ allow
      → ((m : RuleMatchResult) × (user_rule_match d user i.destination_host table ≡ some m)
          × (m.action ≢ "BLOCK"))
        ⊎ ((user_rule_match d user i.destination_host table ≡ none)
            × ((decide d.fail_closed (scan_with_cache d at i.normalized_url user s).0 none).decision
                ≡ allow))
  checked_allow ip i table s h =
      elim (Option-cases (user_rule_match d user i.destination_host table)) [
        | inl e ↦
            let r =
              ap (λ (x : PolicyDecision × ProxyState). x.0)
                (connect-no_rule d at user ip i table s e) in
            inr (e, scanned_allow ip i s (sym r ∙ h))
        | inr (m, e) ↦
            let r =
              ap (λ (x : PolicyDecision × ProxyState). x.0)
                (connect-rule d at user ip i table s m e) in
            inl (m, e, rule_allow m (sym r ∙ h))
      ]

  evaluate_allow :
      (t : ConnectTarget) (ip : Text) (table : List FirewallRule) (s : ProxyState)
      → (evaluate_connect d at user t.host t.port ip table s).0 ≡ ok allow
      → IsConnectPermitted t table s × (is_blocked_destination_host d.is_ip t.host ≡ false)
  unfolding evaluate_connect build_connect_inspection
  evaluate_allow t ip table s h = elim (Bool-cases (is_blocked_destination_host d.is_ip t.host)) [
    | inl e ↦ absurd (ground arith)
    | inr e ↦
        let i = connect_inspection d.is_ip d.print_number t.host t.port in
        let step : evaluate_connect d at user t.host t.port ip table s ≡ (
          ok (connect_checked d at user ip i table s).0,
          (connect_checked d at user ip i table s).1,
        ) =
          rw (e, build_connect_inspection, evaluate_connect) in
        let k = sym (ap (λ (x : Result PolicyDecision × ProxyState). x.0) step) ∙ h in
        (checked_allow ip i table s (cc), e)
  ]

  opened_allowed :
      (t : ConnectTarget) (decision : Result PolicyDecision) (address : Text) (port : Number)
      → open_if_allowed d at user t decision ≡ opened address port
      → (decision ≡ ok allow) × (port ≡ t.port) × IsAllowedAddress d t.host address
  unfolding open_if_allowed tunnel_error
  opened_allowed t (err blocked_destination) address port h = absurd (cc)
  opened_allowed t (err (http _ _)) address port h = absurd (cc)
  opened_allowed t (err (axios _)) address port h = absurd (cc)
  opened_allowed t (err (failure _)) address port h = absurd (cc)
  opened_allowed t (ok block) address port h = absurd (cc)
  opened_allowed t (ok warn) address port h = absurd (cc)
  opened_allowed t (ok allow) address port h =
      let (r, e, same) = go (resolve_allowed_destination d.is_ip d.lookup t.host) h in
      (refl, cc, rw (← same.0) (allowed_address d t.host r e))
    where
      go :
          (x : Result ResolvedDestination)
          → (elim x [ err e ↦ tunnel_error e | ok r ↦ opened r.address t.port ])
            ≡ opened address port
          → (r : ResolvedDestination) × (x ≡ ok r) × ((r.address ≡ address) × (t.port ≡ port))
      go (ok r) k = (r, refl, (cc, cc))
      go (err blocked_destination) k = absurd (cc)
      go (err (http _ _)) k = absurd (cc)
      go (err (axios _)) k = absurd (cc)
      go (err (failure _)) k = absurd (cc)

  -- A CONNECT request gets a tunnel only to the port of its target, and to an address that the
  -- target's host resolves to and that is not a refused one, where the host itself is not refused
  -- and a rule of the user allows the target, or no rule matches and the decision on the scan of
  -- its URL is to allow it: a warning opens no tunnel.
  pub handle_connect-opens :
      (to_number : Text → Number) (url ip : Text) (table : List FirewallRule) (s : ProxyState)
      (address : Text) (port : Number)
      → (handle_connect d at user to_number url ip table s).0 ≡ opened address port
      → (t : ConnectTarget) × (parse_connect_target to_number url ≡ some t)
        × (port ≡ t.port)
        × IsConnectPermitted t table s
        × (is_blocked_destination_host d.is_ip t.host ≡ false)
        × IsAllowedAddress d t.host address
  handle_connect-opens to_number url ip table s address port h =
      elim (Option-cases (parse_connect_target to_number url)) [
        | inl e ↦ absurd (unfold handle_connect in ground arith)
        | inr (t, e) ↦
            let (allowed, same, reached) =
              opened_allowed t (evaluate_connect d at user t.host t.port ip table s).0 address port
                (ap (λ (x : Tunnel × ProxyState). x.0) (sym (parsed t e)) ∙ h) in
            let (permitted, free) = evaluate_allow t ip table s allowed in
            (t, e, same, permitted, free, reached)
      ]
    where
      parsed :
          (t : ConnectTarget)
          → parse_connect_target to_number url ≡ some t
          → handle_connect d at user to_number url ip table s ≡ (
            open_if_allowed d at user t (evaluate_connect d at user t.host t.port ip table s).0,
            (evaluate_connect d at user t.host t.port ip table s).1,
          )
      parsed t e = unfold handle_connect in rw (e, handle_connect)
