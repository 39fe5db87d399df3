-- ===== src/Proxy/Pipeline/Safety.antt =====
-- When the pipeline lets a request through, and to which address.
use guard_me.Prelude.{
  ℕ, ◌≡◌, refl, sym, ap, ◌∙◌, ◌≢◌, ◌⊎◌, inl, inr, true, false, none, some, List, Result, ok, err,
  Result-cases, http, axios, blocked_destination, failure, ◌>>=◌, await-ok, arith, In, All-in,
  str_eq_iff, Bool-cases, Option-cases,
}
use guard_me.Text.{Text}
use guard_me.Rules.{FirewallRule, RuleMatchContext, RuleMatchResult}
use guard_me.Rules.Evaluation.{full_context, blocks, evaluate_rules-blocks}
use guard_me.Siem.{allow}
use guard_me.Threat.{ThreatScanResult}
use guard_me.Proxy.Url.{is_blocked_destination_host}
use guard_me.Proxy.Dns.{
  ResolvedDestination, resolve_destination_ip, resolve_allowed_destination, resolve_addresses,
  resolve_allowed_destination_sound,
}
use guard_me.Proxy.Inspection.{Request, InspectionResult, inspect}
use guard_me.Proxy.Inspection.FileScan.{simulate_file_scan}
use guard_me.Proxy.Policy.{PolicyResult, decide}
use guard_me.Proxy.Pipeline.{
  AuthenticatedUser, Moments, ProxyState, Response, upstream, block_page, Services,
  policy_from_user_rule, user_rule_match, scan_with_cache, forward,
}
use guard_me.Proxy.Pipeline.Steps.{
  http-inspected, http-refused, inspected-bypass, inspected-no_bypass, checked-no_rule,
  checked-rule,
}
use guard_me.Proxy.Pipeline.Handler.{
  bypass, respond_policy, respond_rule, respond_scanned, respond_checked, respond_inspected,
  try_http, recover, handle_http,
}

module _ {lifetime : ℕ} (d : Services lifetime) where
  -- The address is one that the host resolves to, and it is not refused.
  abbrev pub IsAllowedAddress : Text → Text → Type 0
  IsAllowedAddress host address =
      (l : List ResolvedDestination) × (resolve_addresses d.is_ip d.lookup host ≡ ok l)
      × ((r : ResolvedDestination) × In r l × (r.address ≡ address))
      × (is_blocked_destination_host d.is_ip address ≡ false)

  pub allowed_address :
      (host : Text) (r : ResolvedDestination)
      → resolve_allowed_destination d.is_ip d.lookup host ≡ ok r
      → IsAllowedAddress host r.address
  allowed_address host r h =
      let (l, e, n, free) = resolve_allowed_destination_sound d.is_ip d.lookup host r h in
      (
        l,
        e,
        (r, n, refl),
        All-in (λ x. is_blocked_destination_host d.is_ip x.address ≡ false) l free n,
      )

  abbrev IsForwarded : InspectionResult → InspectionResult → ResolvedDestination → Type 0
  IsForwarded i j r =
      (i ≡ j) × (resolve_allowed_destination d.is_ip d.lookup i.destination_host ≡ ok r)

  forward_upstream :
      (i j : InspectionResult) (status : ℕ) (r : ResolvedDestination)
      → forward d i ≡ ok (upstream status r j)
      → IsForwarded i j r
  unfolding forward
  forward_upstream i j status r h =
      let (r', e, k) =
        await-ok (resolve_allowed_destination d.is_ip d.lookup i.destination_host)
          (λ x. d.request x i >>= λ n. ok (upstream n x i)) h in
      let (n, f, l) = await-ok (d.request r' i) (λ n. ok (upstream n r' i)) k in
      let same : r' ≡ r = cc in (cc, e ∙ ap (λ x. ok x) same)

module _ {lifetime : ℕ} (d : Services lifetime) (at : Moments) (user : AuthenticatedUser) where
  -- The three ways a request is let through: by a bypass token that was accepted, by a rule of the
  -- user that does not block, or, where no rule matches, by the decision on the scans.
  abbrev pub IsPermitted : InspectionResult → List FirewallRule → ProxyState → Type 0
  IsPermitted i table s =
      ((bypass d at user i s).0 ≡ true)
      ⊎ ((m : RuleMatchResult) × (user_rule_match d user i.destination_host table ≡ some m)
          × (m.action ≢ "BLOCK"))
      ⊎ ((user_rule_match d user i.destination_host table ≡ none)
          × ((decide d.fail_closed
                (scan_with_cache d at i.normalized_url user (bypass d at user i s).1).0
                (simulate_file_scan i)).decision
              ≡ allow))

  recover_upstream :
      (req : Request) (r : Result Response × ProxyState) (status : ℕ) (a : ResolvedDestination)
      (i : InspectionResult)
      → (recover d at user req r).0 ≡ upstream status a i
      → r.0 ≡ ok (upstream status a i)
  unfolding recover
  recover_upstream req (ok response, s) status a i h = ap (λ x. ok x) h
  recover_upstream req (err blocked_destination, s) status a i h = absurd (cc)
  recover_upstream req (err (http _ _), s) status a i h = absurd (cc)
  recover_upstream req (err (axios _), s) status a i h = absurd (cc)
  recover_upstream req (err (failure _), s) status a i h = absurd (cc)

  policy_upstream :
      (i j : InspectionResult) (policy : PolicyResult) (scan : ThreatScanResult) (status : ℕ)
      (a : ResolvedDestination)
      → respond_policy d at user i policy scan ≡ ok (upstream status a j)
      → (policy.decision ≡ allow) × (forward d i ≡ ok (upstream status a j))
  unfolding respond_policy
  policy_upstream i j policy scan status a h = ground arith

  rule_upstream :
      (i j : InspectionResult) (m : RuleMatchResult) (status : ℕ) (a : ResolvedDestination)
      → respond_rule d at user i (policy_from_user_rule m) ≡ ok (upstream status a j)
      → (m.action ≢ "BLOCK") × (forward d i ≡ ok (upstream status a j))
  unfolding respond_rule policy_from_user_rule
  rule_upstream i j m status a h = ground (arith, str_eq_iff m.action "BLOCK")

  abbrev Through :
      Result Response × ProxyState → ℕ → ResolvedDestination → InspectionResult → Type 0
  Through r status a j = r.0 ≡ ok (upstream status a j)

  scanned_upstream :
      (ip : Text) (i j : InspectionResult) (s : ProxyState) (status : ℕ) (a : ResolvedDestination)
      → Through (respond_scanned d at user ip i s) status a j
      → ((decide d.fail_closed
            (scan_with_cache d at i.normalized_url user s).0
            (simulate_file_scan i)).decision
          ≡ allow)
        × (forward d i ≡ ok (upstream status a j))
  unfolding respond_scanned
  scanned_upstream ip i j s status a h =
      let scan = (scan_with_cache d at i.normalized_url user s).0 in
      policy_upstream i j (decide d.fail_closed scan (simulate_file_scan i)) scan status a h

  checked_upstream :
      (ip : Text) (i j : InspectionResult) (table : List FirewallRule) (s : ProxyState) (status : ℕ)
      (a : ResolvedDestination)
      → Through (respond_checked d at user ip i table (bypass d at user i s).1) status a j
      → IsPermitted i table s × (forward d i ≡ ok (upstream status a j))
  checked_upstream ip i j table s status a h =
      elim (Option-cases (user_rule_match d user i.destination_host table)) [
        | inl e ↦
            let r =
              ap (λ (x : Result Response × ProxyState). x.0)
                (checked-no_rule d at user ip i table (bypass d at user i s).1 e) in
            let (allowed, f) =
              scanned_upstream ip i j (bypass d at user i s).1 status a (sym r ∙ h) in
            (inr (inr (e, allowed)), f)
        | inr (m, e) ↦
            let r =
              ap (λ (x : Result Response × ProxyState). x.0)
                (checked-rule d at user ip i table (bypass d at user i s).1 m e) in
            let (free, f) = rule_upstream i j m status a (sym r ∙ h) in (inr (inl (m, e, free)), f)
      ]

  inspected_upstream :
      (ip : Text) (i j : InspectionResult) (table : List FirewallRule) (s : ProxyState) (status : ℕ)
      (a : ResolvedDestination)
      → Through (respond_inspected d at user ip i table s) status a j
      → IsPermitted i table s × (forward d i ≡ ok (upstream status a j))
  inspected_upstream ip i j table s status a h = elim (Bool-cases (bypass d at user i s).0) [
    | inl e ↦ (
      inl e,
      sym (
            ap (λ (x : Result Response × ProxyState). x.0)
              (inspected-bypass d at user ip i table s e))
          ∙ h,
    )
    | inr e ↦ checked_upstream ip i j table s status a (
        sym (
          ap (λ (x : Result Response × ProxyState). x.0)
            (inspected-no_bypass d at user ip i table s e))
        ∙ h)
  ]

  -- A request reaches an upstream server only if it passed inspection, and was permitted: by a
  -- bypass token that was accepted, by a matching rule of the user that does not block, or by the
  -- decision on the scans where no rule matches. The address that it reaches is one the host
  -- resolves to and is not a refused one.
  pub handle_http-forwards :
      (req : Request) (table : List FirewallRule) (s : ProxyState) (status : ℕ)
      (a : ResolvedDestination) (i : InspectionResult)
      → (handle_http d at user req table s).0 ≡ upstream status a i
      → (inspect d.is_ip d.urls req ≡ ok i)
        × IsPermitted i table s
        × IsAllowedAddress d i.destination_host a.address
  unfolding handle_http
  handle_http-forwards req table s status a i h = elim (Result-cases (inspect d.is_ip d.urls req)) [
    | inr (e, r) ↦
        let k =
          ap (λ (x : Result Response × ProxyState). x.0) (http-refused d at user req table s e r) in
        absurd (cc (k, through))
    | inl (j, r) ↦
        let k =
          ap (λ (x : Result Response × ProxyState). x.0)
            (http-inspected d at user req table s j r) in
        let (permitted, f) =
          inspected_upstream req.client_ip j i table s status a (sym k ∙ through) in
        let (same, allowed) = forward_upstream d j i status a f in
        rw (← same) (r, permitted, allowed_address d j.destination_host a allowed)
  ]
    where
      through : Through (try_http d at user req table s) status a i
      through = recover_upstream req (try_http d at user req table s) status a i h

  -- The host with the address that the rules are asked about.
  abbrev pub rule_context : Text → RuleMatchContext
  rule_context host =
      full_context (record { destination_host = host; destination_ip = none })
        (some (resolve_destination_ip d.is_ip d.lookup host))

  blocking_match :
      (host : Text) (table : List FirewallRule) (r : FirewallRule)
      → In r table
      → blocks user.user_id (rule_context host) r ≡ true
      → (m : RuleMatchResult) × (user_rule_match d user host table ≡ some m) × (m.action ≡ "BLOCK")
  unfolding user_rule_match
  blocking_match host table r n b =
      evaluate_rules-blocks d.db user.user_id
        (record { destination_host = host; destination_ip = none })
        (some (resolve_destination_ip d.is_ip d.lookup host)) table r n b

  blocked_response :
      (i : InspectionResult) (m : RuleMatchResult)
      → m.action ≡ "BLOCK"
      → (reason : Text) × (respond_rule d at user i (policy_from_user_rule m)
          ≡ ok (block_page 403 i.normalized_url reason 100))
  unfolding respond_rule policy_from_user_rule
  blocked_response i m e = rw e (_, refl)

  -- A request whose destination an enabled rule of the user blocks is answered with the block page
  -- and status 403, whatever other rules, the cache, the scanner and the upstream say, unless it
  -- comes with a bypass token that is accepted.
  pub handle_http-block_rule :
      (req : Request) (table : List FirewallRule) (s : ProxyState) (i : InspectionResult)
      (r : FirewallRule)
      → inspect d.is_ip d.urls req ≡ ok i
      → (bypass d at user i s).0 ≡ false
      → In r table
      → blocks user.user_id (rule_context i.destination_host) r ≡ true
      → (reason : Text) × ((handle_http d at user req table s).0
          ≡ block_page 403 i.normalized_url reason 100)
  unfolding handle_http recover
  handle_http-block_rule req table s i r inspected no_bypass n b =
      let (m, e, blocking) = blocking_match i.destination_host table r n b in
      let (reason, page) = blocked_response i m blocking in
      let steps =
        http-inspected d at user req table s i inspected
        ∙ inspected-no_bypass d at user req.client_ip i table s no_bypass
        ∙ checked-rule d at user req.client_ip i table (bypass d at user i s).1 m e in
      (reason, rw (steps, page) refl)
