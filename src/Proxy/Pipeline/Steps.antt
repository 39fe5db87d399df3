-- ===== src/Proxy/Pipeline/Steps.antt =====
-- The handlers where a rule of the user matches, and where none does.
use guard_me.Prelude.{
  ℕ, ◌≡◌, ap, true, false, Option, none, some, List, ok, err, Exception, arith, str_eq,
  if◌then◌else◌,
}
use guard_me.Text.{Text}
use guard_me.Rules.{FirewallRule, RuleMatchResult}
use guard_me.Siem.{PolicyDecision, allow, block}
use guard_me.Proxy.Inspection.{Request, InspectionResult, inspect}
use guard_me.Proxy.Policy.{PolicyResult}
use guard_me.Proxy.Pipeline.{
  AuthenticatedUser, Moments, ProxyState, Services, log, log_rule_match, policy_from_user_rule,
  user_rule_match, evaluate_user_rules, log_traffic, forward,
}
use guard_me.Proxy.Pipeline.Handler.{
  bypass, log_bypass, respond_inspected, try_http, respond_rule, respond_scanned, respond_checked,
  connect_scanned, connect_checked,
}

-- What a matching rule means for a tunnel.
abbrev pub rule_decision : RuleMatchResult → PolicyDecision
rule_decision m = if str_eq m.action "BLOCK" then block else allow

module _ {lifetime : ℕ} (d : Services lifetime) (at : Moments) (user : AuthenticatedUser)
    (ip : Text) (i : InspectionResult) (table : List FirewallRule) (s : ProxyState) where
  no_rule :
      user_rule_match d user i.destination_host table ≡ none
      → evaluate_user_rules d user i table s ≡ (none, s)
  unfolding evaluate_user_rules
  no_rule e = rw (e, evaluate_user_rules)

  one_rule :
      (m : RuleMatchResult)
      → user_rule_match d user i.destination_host table ≡ some m
      → evaluate_user_rules d user i table s
        ≡ (some (policy_from_user_rule m), log (log_rule_match m i.normalized_url user) s)
  unfolding evaluate_user_rules
  one_rule m e = rw (e, evaluate_user_rules)

  pub checked-no_rule :
      user_rule_match d user i.destination_host table ≡ none
      → respond_checked d at user ip i table s ≡ respond_scanned d at user ip i s
  unfolding respond_checked
  checked-no_rule e =
      rw (no_rule e, respond_checked)
        (ap (λ (r : Option PolicyResult × ProxyState). respond_scanned d at user ip i r.1)
          (no_rule e))

  pub checked-rule :
      (m : RuleMatchResult)
      → user_rule_match d user i.destination_host table ≡ some m
      → respond_checked d at user ip i table s ≡ (
        respond_rule d at user i (policy_from_user_rule m),
        log_traffic d at user ip i
            (policy_from_user_rule m)
            (log (log_rule_match m i.normalized_url user) s),
      )
  unfolding respond_checked
  checked-rule m e =
      rw (one_rule m e, respond_checked)
        (ap
          (λ (r : Option PolicyResult × ProxyState). (
            respond_rule d at user i (policy_from_user_rule m),
            log_traffic d at user ip i (policy_from_user_rule m) r.1,
          ))
          (one_rule m e))

  pub connect-no_rule :
      user_rule_match d user i.destination_host table ≡ none
      → connect_checked d at user ip i table s ≡ connect_scanned d at user ip i s
  unfolding connect_checked
  connect-no_rule e =
      rw (no_rule e, connect_checked)
        (ap (λ (r : Option PolicyResult × ProxyState). connect_scanned d at user ip i r.1)
          (no_rule e))

  verdict :
      (m : RuleMatchResult)
      → (elim (policy_from_user_rule m).decision as (λ _. PolicyDecision) [
        | allow ↦ allow
        | _ ↦ block
      ])
        ≡ rule_decision m
  unfolding policy_from_user_rule
  verdict m = ground arith

  pub connect-rule :
      (m : RuleMatchResult)
      → user_rule_match d user i.destination_host table ≡ some m
      → connect_checked d at user ip i table s ≡ (
        rule_decision m,
        log_traffic d at user ip i
            (policy_from_user_rule m)
            (log (log_rule_match m i.normalized_url user) s),
      )
  unfolding connect_checked
  connect-rule m e = rw (one_rule m e, connect_checked) (cc (verdict m, one_rule m e))

  pub inspected-bypass :
      (bypass d at user i s).0 ≡ true
      → respond_inspected d at user ip i table s
        ≡ (forward d i, log_bypass d at user ip i (bypass d at user i s).1)
  unfolding respond_inspected
  inspected-bypass e = rw (e, respond_inspected)

  pub inspected-no_bypass :
      (bypass d at user i s).0 ≡ false
      → respond_inspected d at user ip i table s
        ≡ respond_checked d at user ip i table (bypass d at user i s).1
  unfolding respond_inspected
  inspected-no_bypass e = rw (e, respond_inspected)

module _ {lifetime : ℕ} (d : Services lifetime) (at : Moments) (user : AuthenticatedUser)
    (req : Request) (table : List FirewallRule) (s : ProxyState) where
  pub http-inspected :
      (i : InspectionResult)
      → inspect d.is_ip d.urls req ≡ ok i
      → try_http d at user req table s ≡ respond_inspected d at user req.client_ip i table s
  unfolding try_http
  http-inspected i e = rw (e, try_http)

  pub http-refused :
      (e : Exception)
      → inspect d.is_ip d.urls req ≡ err e
      → try_http d at user req table s ≡ (err e, s)
  unfolding try_http
  http-refused e h = rw (h, try_http)
