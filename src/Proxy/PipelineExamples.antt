-- ===== src/Proxy/PipelineExamples.antt =====
-- Requests through the whole pipeline at concrete services, and the theorems applied there.
use guard_me.Prelude.{
  ◌≡◌, refl, ◌⊎◌, inl, true, false, none, some, List, [], ◌∷◌, String, ok, find, filter,
}
use guard_me.Text.{
  Text, text, ◌==◌, starts_with, ends_with, trim, trim_start, trim_end, has_unit, cut_first,
  cut_last, to_lower_case, to_upper_case, split,
}
use guard_me.Text.Printing.{integer, decimal, to_string}
use guard_me.Database.Memory.{memory}
use guard_me.Rules.{FirewallRule}
use guard_me.Rules.Matcher.{
  matches_domain_rule, matches_ip_rule, rule_matches_context, is_block_rule, is_allow_rule,
  to_rule_match_result,
}
use guard_me.Rules.Service.{evaluate_rules, first_match, with_resolved_ip, needs_resolved_ip}
use guard_me.Rules.Evaluation.{blocks}
use guard_me.Siem.{safe}
use guard_me.Threat.{ThreatScanResult}
use guard_me.Threat.VirusTotal.{threat_risk_score, plain_metadata}
use guard_me.Threat.VirusTotal.Polling.{IsScanOf}
use guard_me.Threat.Service.{ThreatScanner}
use guard_me.Proxy.Url.{
  is_blocked_destination_host, is_blocked_normalized, strip_ipv6_brackets,
  is_private_or_loopback_ipv4, is_second_octet, default_port_for_scheme,
}
use guard_me.Proxy.Url.Examples.{sample_is_ip}
use guard_me.Proxy.Dns.{resolve_addresses, resolve_allowed_destination, resolve_destination_ip}
use guard_me.Proxy.ConnectTarget.{
  ConnectTarget, is_port, colon_count, host_and_port, port_number, accept_target,
  parse_connect_target,
}
use guard_me.Proxy.Inspection.{
  UrlApi, Request, InspectionResult, inspect, inspection_of, check_destination,
  resolve_absolute_url, extract_file_name, last_part, build_connect_inspection,
}
use guard_me.Proxy.Inspection.FileScan.{simulate_file_scan}
use guard_me.Proxy.Policy.{decide, decide_from_file_scan, decide_from_threat_scan}
use guard_me.Proxy.ThreatScanCache.{get, put, purge_expired}
use guard_me.Proxy.Pipeline.{
  AuthenticatedUser, Moments, ProxyState, upstream, block_page, Services, rule_label,
  policy_from_user_rule, log_malicious_blocked, log_traffic, user_rule_match, evaluate_user_rules,
  scan_anew, scan_with_cache, forward,
}
use guard_me.Proxy.Pipeline.Handler.{
  bypass, respond_policy, respond_rule, respond_scanned, respond_checked, respond_inspected,
  try_http, recover, handle_http, connect_scanned, connect_checked, evaluate_connect, opened,
  open_if_allowed, handle_connect,
}
use guard_me.Proxy.Pipeline.Safety.{
  IsPermitted, IsAllowedAddress, rule_context, handle_http-forwards, handle_http-block_rule,
}
use guard_me.Proxy.Pipeline.Tunnels.{IsConnectPermitted, handle_connect-opens}
use guard_me.Proxy.Pipeline.CacheSafety.{IsSound}
use guard_me.Proxy.Pipeline.History.{Event, request, connect, run_events, run_events-IsSound}
use guard_me.Proxy.Examples.{public_address, sample_lookup, sample_to_number, sample_jwt}

-- A URL class that knows one page.
abbrev urls : UrlApi
urls = record {
  parse = λ url. some (record {
    scheme = text "http";
    hostname = text "example.com";
    port = none;
    pathname = text "/a";
  });
  search_param = λ url name. none;
  delete_param = λ url name. url;
  set_param = λ url name value. url;
}

abbrev scan_result : String → ThreatScanResult
scan_result url = record {
  verdict = safe;
  risk_score = threat_risk_score safe;
  scanned_url = url;
  metadata = plain_metadata;
}

-- A scanner that finds everything safe.
abbrev scanner : ThreatScanner
scanner = record {
  scan = λ now url actor. (scan_result url, []);
  scan_result = λ now url actor. (refl, refl, inl (refl, refl));
}

abbrev services : Services 100
services = record {
  is_ip = sample_is_ip;
  lookup = sample_lookup;
  urls = urls;
  print_number = λ n. text "8443";
  jwt = sample_jwt;
  db = memory;
  scanner = scanner;
  request = λ destination i. ok 200;
  fail_closed = true;
  cache_ttl = 1000;
}

abbrev at : Moments
at = record {
  token_checked = 1;
  cache_read = 2;
  scanned = 3;
  cached = 4;
  token_signed = 5;
  logged = 6;
  token_id = "t1";
}

abbrev ann : AuthenticatedUser
ann = record { user_id = "ann"; username = "Ann"; session_id = "s1" }

abbrev fresh : ProxyState
fresh = record { consumed = λ _. none; cache = λ _. none; logs = [] }

abbrev page : Request
page = record {
  method = text "get";
  url = "http://example.com/a";
  is_absolute = true;
  host = none;
  client_ip = [];
}

unfoldable inspected : InspectionResult
unfolding to_upper_case
inspected = record {
  method = to_upper_case (text "get");
  normalized_url = "http://example.com/a";
  destination_host = text "example.com";
  destination_port = integer 80;
  destination_scheme = text "http";
  is_file_download = false;
  file_name = none;
  bypass_token = none;
}

abbrev block_example : FirewallRule
block_example = record {
  id = "r1";
  user_id = "ann";
  name = none;
  rule_type = "DOMAIN";
  pattern = text "example.com";
  action = "BLOCK";
  enabled = true;
  created_at = 1;
  updated_at = 1;
}

run_pipeline : Unit {0}
unfolding inspected sample_is_ip text ◌==◌ starts_with ends_with trim trim_start trim_end has_unit
    cut_first cut_last to_lower_case to_upper_case split decimal to_string find filter memory
    evaluate_rules first_match with_resolved_ip needs_resolved_ip matches_domain_rule
    matches_ip_rule rule_matches_context is_block_rule is_allow_rule to_rule_match_result
    threat_risk_score is_blocked_destination_host is_blocked_normalized strip_ipv6_brackets
    is_private_or_loopback_ipv4 is_second_octet resolve_addresses resolve_allowed_destination
    resolve_destination_ip is_port colon_count host_and_port port_number accept_target
    parse_connect_target inspect inspection_of check_destination resolve_absolute_url
    extract_file_name default_port_for_scheme last_part build_connect_inspection simulate_file_scan
    decide decide_from_file_scan decide_from_threat_scan get put purge_expired rule_label
    policy_from_user_rule user_rule_match evaluate_user_rules scan_anew scan_with_cache forward
    bypass respond_policy respond_rule respond_scanned respond_checked respond_inspected try_http
    recover handle_http connect_scanned connect_checked evaluate_connect open_if_allowed
    handle_connect log_traffic log_malicious_blocked
run_pipeline = tt

page_forwarded :
    (handle_http services at ann page [] fresh).0 ≡ upstream 200 public_address inspected
unfolding run_pipeline
page_forwarded = refl

handle_http-forwards_example :
    (inspect sample_is_ip urls page ≡ ok inspected)
    × IsPermitted services at ann inspected [] fresh
    × IsAllowedAddress services inspected.destination_host public_address.address
handle_http-forwards_example =
    handle_http-forwards services at ann page [] fresh 200 public_address inspected page_forwarded

abbrev table : List FirewallRule
table = block_example ∷ []

page_blocked :
    (inspect sample_is_ip urls page ≡ ok inspected)
    × ((bypass services at ann inspected fresh).0 ≡ false)
    × (blocks "ann" (rule_context services at ann inspected.destination_host) block_example ≡ true)
unfolding run_pipeline
page_blocked = (refl, refl, refl)

handle_http-block_rule_example :
    (reason : Text) × ((handle_http services at ann page table fresh).0
      ≡ block_page 403 inspected.normalized_url reason 100)
handle_http-block_rule_example =
    handle_http-block_rule services at ann page table fresh inspected block_example page_blocked.0
      page_blocked.1 (inl refl) page_blocked.2

target_opened :
    (handle_connect services at ann sample_to_number (text "example.com:8443") [] [] fresh).0
    ≡ opened public_address.address (integer 8443)
unfolding run_pipeline
target_opened = refl

handle_connect-opens_example :
    (t : ConnectTarget) × (parse_connect_target sample_to_number (text "example.com:8443") ≡ some t)
    × (integer 8443 ≡ t.port)
    × IsConnectPermitted services at ann t [] fresh
    × (is_blocked_destination_host sample_is_ip t.host ≡ false)
    × IsAllowedAddress services t.host public_address.address
handle_connect-opens_example =
    handle_connect-opens services at ann sample_to_number (text "example.com:8443") [] [] fresh
      public_address.address (integer 8443) target_opened

abbrev morning : List Event
morning =
    request at ann page []
    ∷ connect at ann (text "example.com:8443") [] []
    ∷ request at ann page table
    ∷ []

fresh-IsSound : IsSound fresh.cache
fresh-IsSound url entry e = cc

run_events-IsSound_example :
    IsSound (run_events services sample_to_number morning fresh).cache
    × ((at : Moments) (user : AuthenticatedUser) (url : String)
        → IsScanOf url
            (scan_with_cache services at url user
              (run_events services sample_to_number morning fresh)).0
          ⊎ ((scan_with_cache services at url user
                (run_events services sample_to_number morning fresh)).0.metadata.fail_safe
              ≡ true))
run_events-IsSound_example =
    run_events-IsSound services sample_to_number morning fresh fresh-IsSound
