-- ===== src/Proxy/Pipeline/History.antt =====
-- Any sequence of requests and tunnels, of any users, on one proxy.
use guard_me.Prelude.{
  ℕ, ◌≡◌, sym, ap, ◌∙◌, ◌⊎◌, inl, inr, true, Option, none, some, List, [], ◌∷◌, String, Result, ok,
  err, Result-cases, blocked_destination, http, axios, failure, Bool-cases, Option-cases,
}
use mathlib.Core.Path.{subst}
use guard_me.Text.{Text}
use guard_me.Text.Printing.{Number}
use guard_me.Rules.{FirewallRule}
use guard_me.Siem.{PolicyDecision}
use guard_me.Threat.VirusTotal.Polling.{IsScanOf}
use guard_me.Proxy.Inspection.{Request, InspectionResult, inspect, build_connect_inspection}
use guard_me.Proxy.ConnectTarget.{ConnectTarget, parse_connect_target}
use guard_me.Proxy.Pipeline.{
  AuthenticatedUser, Moments, ProxyState, Response, Services, log, log_rule_match, user_rule_match,
  policy_from_user_rule, scan_with_cache, log_traffic,
}
use guard_me.Proxy.Pipeline.Steps.{
  http-inspected, http-refused, inspected-bypass, inspected-no_bypass, checked-no_rule,
  checked-rule, connect-no_rule, connect-rule,
}
use guard_me.Proxy.Pipeline.Handler.{
  bypass, log_bypass, respond_checked, respond_inspected, try_http, recover, handle_http,
  connect_checked, evaluate_connect, Tunnel, rejected, open_if_allowed, handle_connect,
}
use guard_me.Proxy.Pipeline.CacheSafety.{
  IsSound, cached-IsGood, scanned-cache, connect_scanned-cache, bypass-cache, logged-cache,
}

-- A request of a user, at its moments, with the table of the rules as it is then.
pub data Event : Type 0 where
  request : Moments → AuthenticatedUser → Request → List FirewallRule → Event
  connect : Moments → AuthenticatedUser → (url ip : Text) → List FirewallRule → Event

module _ {lifetime : ℕ} (d : Services lifetime) (at : Moments) (user : AuthenticatedUser) where
  checked-keeps :
      (ip : Text) (i : InspectionResult) (table : List FirewallRule) (s : ProxyState)
      → IsSound s.cache
      → IsSound (respond_checked d at user ip i table s).1.cache
  checked-keeps ip i table s h =
      elim (Option-cases (user_rule_match d user i.destination_host table)) [
        | inl e ↦
            subst IsSound
              (sym (
                ap (λ (x : Result Response × ProxyState). x.1.cache)
                  (checked-no_rule d at user ip i table s e)
                ∙ scanned-cache d at user ip i s))
              (cached-IsGood d at user i.normalized_url s h).0
        | inr (m, e) ↦
            subst IsSound
              (sym (
                ap (λ (x : Result Response × ProxyState). x.1.cache)
                  (checked-rule d at user ip i table s m e)
                ∙ logged-cache d at user ip i (policy_from_user_rule m)
                    (log (log_rule_match m i.normalized_url user) s)))
              h
      ]

  connect_checked-keeps :
      (ip : Text) (i : InspectionResult) (table : List FirewallRule) (s : ProxyState)
      → IsSound s.cache
      → IsSound (connect_checked d at user ip i table s).1.cache
  connect_checked-keeps ip i table s h =
      elim (Option-cases (user_rule_match d user i.destination_host table)) [
        | inl e ↦
            subst IsSound
              (sym (
                ap (λ (x : PolicyDecision × ProxyState). x.1.cache)
                  (connect-no_rule d at user ip i table s e)
                ∙ connect_scanned-cache d at user ip i s))
              (cached-IsGood d at user i.normalized_url s h).0
        | inr (m, e) ↦
            subst IsSound
              (sym (
                ap (λ (x : PolicyDecision × ProxyState). x.1.cache)
                  (connect-rule d at user ip i table s m e)
                ∙ logged-cache d at user ip i (policy_from_user_rule m)
                    (log (log_rule_match m i.normalized_url user) s)))
              h
      ]

  inspected-keeps :
      (ip : Text) (i : InspectionResult) (table : List FirewallRule) (s : ProxyState)
      → IsSound s.cache
      → IsSound (respond_inspected d at user ip i table s).1.cache
  inspected-keeps ip i table s h =
      let checked = subst IsSound (sym (bypass-cache d at user i s)) h in
      elim (Bool-cases (bypass d at user i s).0) [
        | inl e ↦
            subst IsSound
              (sym (
                ap (λ (x : Result Response × ProxyState). x.1.cache)
                  (inspected-bypass d at user ip i table s e)))
              (unfold log_bypass log_traffic in checked)
        | inr e ↦
            subst IsSound
              (sym (
                ap (λ (x : Result Response × ProxyState). x.1.cache)
                  (inspected-no_bypass d at user ip i table s e)))
              (checked-keeps ip i table (bypass d at user i s).1 checked)
      ]

  try-keeps :
      (req : Request) (table : List FirewallRule) (s : ProxyState)
      → IsSound s.cache
      → IsSound (try_http d at user req table s).1.cache
  try-keeps req table s h = elim (Result-cases (inspect d.is_ip d.urls req)) [
    | inl (i, e) ↦
        subst IsSound
          (sym (
            ap (λ (x : Result Response × ProxyState). x.1.cache)
              (http-inspected d at user req table s i e)))
          (inspected-keeps req.client_ip i table s h)
    | inr (x, e) ↦
        subst IsSound
          (sym (
            ap (λ (x : Result Response × ProxyState). x.1.cache)
              (http-refused d at user req table s x e)))
          h
  ]

  recover-keeps :
      (req : Request) (r : Result Response × ProxyState)
      → IsSound r.1.cache
      → IsSound (recover d at user req r).1.cache
  unfolding recover
  recover-keeps req (ok response, s) h = h
  recover-keeps req (err blocked_destination, s) h = h
  recover-keeps req (err (http _ _), s) h = h
  recover-keeps req (err (axios _), s) h = h
  recover-keeps req (err (failure _), s) h = h

  evaluate-keeps :
      (host : Text) (port : Number) (ip : Text) (table : List FirewallRule) (s : ProxyState)
      → IsSound s.cache
      → IsSound (evaluate_connect d at user host port ip table s).1.cache
  unfolding evaluate_connect
  evaluate-keeps host port ip table s h =
      go (build_connect_inspection d.is_ip d.print_number host port)
    where
      go :
          (i : Result InspectionResult)
          → IsSound
              (elim i as (λ _. Result PolicyDecision × ProxyState) [
                | err e ↦ (err e, s)
                | ok i ↦ (
                  ok (connect_checked d at user ip i table s).0,
                  (connect_checked d at user ip i table s).1,
                )
              ]).1.cache
      go (err e) = h
      go (ok i) = connect_checked-keeps ip i table s h

module _ {lifetime : ℕ} (d : Services lifetime) (to_number : Text → Number) where
  unfoldable pub run_event : Event → ProxyState → ProxyState
  run_event (request at user req table) s = (handle_http d at user req table s).1
  run_event (connect at user url ip table) s = (handle_connect d at user to_number url ip table s).1

  unfoldable pub run_events : List Event → ProxyState → ProxyState
  run_events [] s = s
  run_events (e ∷ es) s = run_events es (run_event e s)

  event-keeps : (e : Event) (s : ProxyState) → IsSound s.cache → IsSound (run_event e s).cache
  unfolding run_event handle_http handle_connect
  event-keeps (request at user req table) s h =
      recover-keeps d at user req (try_http d at user req table s)
        (try-keeps d at user req table s h)
  event-keeps (connect at user url ip table) s h = go (parse_connect_target to_number url)
    where
      go :
          (t : Option ConnectTarget)
          → IsSound
              (elim t as (λ _. Tunnel × ProxyState) [
                | none ↦ (rejected 400, s)
                | some t ↦ (
                  open_if_allowed d at user t
                      (evaluate_connect d at user t.host t.port ip table s).0,
                  (evaluate_connect d at user t.host t.port ip table s).1,
                )
              ]).1.cache
      go none = h
      go (some t) = evaluate-keeps d at user t.host t.port ip table s h

  -- The cache stays sound: after any sequence of requests and tunnels, of any users, every entry is
  -- the result of a scan of its own URL, with the risk score of its verdict, and never one that
  -- stands in for a failed scan; and so what the next scan answers is such a result or is marked as
  -- one that failed.
  pub run_events-IsSound :
      (es : List Event) (s : ProxyState)
      → IsSound s.cache
      → IsSound (run_events es s).cache
        × ((at : Moments) (user : AuthenticatedUser) (url : String)
            → IsScanOf url (scan_with_cache d at url user (run_events es s)).0
              ⊎ ((scan_with_cache d at url user (run_events es s)).0.metadata.fail_safe ≡ true))
  unfolding run_events
  run_events-IsSound [] s h = (h, λ at user url. (cached-IsGood d at user url s h).1)
  run_events-IsSound (e ∷ es) s h = run_events-IsSound es (run_event e s) (event-keeps e s h)
