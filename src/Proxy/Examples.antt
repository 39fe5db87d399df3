-- ===== src/Proxy/Examples.antt =====
-- The parts of the proxy at concrete inputs, and the theorems applied there.
use guard_me.Prelude.{
  ℕ, ◌+◌, ◌≤◌, ◌<◌, ◌≡◌, refl, ◌≢◌, ◌⊎◌, inl, ◌↔◌, Bool, true, false, ◌&&◌, none, some, List, [],
  ◌∷◌, ◌++◌, String, Result, ok, arith, All, leb, ltb, str_eq, str_eq_iff, Option, sym, ◌∙◌,
  Option-cases, inr, if◌then◌else◌, string_eq,
}
use guard_me.Text.{Text, text, ◌==◌, starts_with, trim, has_unit, to_lower_case}
use guard_me.Text.Laws.{text_eq}
use guard_me.Text.Splitting.{IsFree}
use guard_me.Text.Printing.{Number, integer, not_finite}
use guard_me.Siem.{allow, ThreatVerdict, safe, suspicious, malicious, unverified}
use guard_me.Threat.{ThreatScanResult}
use guard_me.Threat.VirusTotal.{plain_metadata}
use guard_me.Proxy.Url.{
  is_blocked_destination_host, is_blocked_normalized, strip_ipv6_brackets,
  is_private_or_loopback_ipv4, is_second_octet,
}
use guard_me.Proxy.Url.Examples.{sample_is_ip}
use guard_me.Proxy.Dns.{ResolvedDestination, resolve_addresses, resolve_allowed_destination}
use guard_me.Proxy.ConnectTarget.{is_port, parse_connect_target}
use guard_me.Proxy.ConnectTarget.RoundTrip.{format_target, parse_connect_target-format_target}
use guard_me.Proxy.RateLimit.{Failures, is_blocked, record_failure}
use guard_me.Proxy.RateLimit.Lockout.{
  check, failed, succeeded, At, run, failures_of, IsWithin, is_blocked-run,
}
use guard_me.Proxy.BypassToken.{
  BypassTokenPayload, BypassJwt, Consumed, verify_and_consume, consume, has, purge_consumed, sign,
}
use guard_me.Proxy.BypassToken.OneShot.{Attempt, attempt, attempts, bypass_once}
use guard_me.Proxy.ThreatScanCache.{get}
use guard_me.Proxy.ThreatScanCache.Freshness.{Op, read, store, fresh_result, last_stored, get-run}
use guard_me.Proxy.ThreatScanCache.Freshness.{run as run_cache}
use guard_me.Proxy.Inspection.{InspectionResult}
use guard_me.Proxy.Inspection.FileScan.{FileScanResult}
use guard_me.Proxy.Headers.{HeaderValue, one}
use guard_me.Proxy.Forward.{
  TargetUrl, ForwardRequest, request_to, forward_request, IsSafe, forward_request_sound,
}
use guard_me.Proxy.Policy.{decide}
use guard_me.Proxy.Policy.Decisions.{IsHarmless, decide-allow_iff}

abbrev pub public_address : ResolvedDestination
public_address = record { address = text "93.184.216.34"; family = 4 }

abbrev pub sample_lookup : Text → Result (List ResolvedDestination)
sample_lookup host = ok (public_address ∷ [])

run_proxy : Unit {0}
unfolding sample_is_ip resolve_allowed_destination resolve_addresses is_blocked_destination_host
    is_blocked_normalized strip_ipv6_brackets is_private_or_loopback_ipv4 is_second_octet text ◌==◌
    starts_with trim has_unit to_lower_case is_port format_target record_failure is_blocked
    verify_and_consume consume has purge_consumed
run_proxy = tt

public_is_allowed :
    resolve_allowed_destination sample_is_ip sample_lookup (text "example.com") ≡ ok public_address
unfolding run_proxy
public_is_allowed = refl

-- `Number` at the port that the example has.
abbrev pub sample_to_number : Text → Number
sample_to_number s = if s == text "8443" then integer 8443 else not_finite

abbrev bracketed : Text
bracketed = text "2001:db8::1"

bracketed_target :
    (bracketed ≢ [])
    × IsFree b'[' bracketed
    × IsFree b']' bracketed
    × (text "8443" ≢ [])
    × IsFree b':' (text "8443")
    × (is_port (sample_to_number (text "8443")) ≡ true)
    × (trim (format_target bracketed (text "8443")) ≡ format_target bracketed (text "8443"))
unfolding run_proxy
bracketed_target = (λ e. cc, ground arith, ground arith, λ e. cc, ground arith, refl, refl)

parse_connect_target-format_target_example :
    parse_connect_target sample_to_number (format_target bracketed (text "8443"))
    ≡ some (record { host = bracketed; port = sample_to_number (text "8443") })
parse_connect_target-format_target_example =
    parse_connect_target-format_target sample_to_number bracketed (text "8443") bracketed_target.0
      bracketed_target.1 bracketed_target.2 bracketed_target.3 bracketed_target.4 bracketed_target.5
      bracketed_target.6

abbrev client : Text
client = 1 ∷ []

abbrev other_client : Text
other_client = 2 ∷ []

abbrev no_failures : Failures
no_failures key = none

-- Two more failures of the client, with a failure and a success of another one between them.
abbrev attacks : List At
attacks =
    (12, failed client)
    ∷ (13, failed other_client)
    ∷ (14, succeeded other_client)
    ∷ (15, failed client)
    ∷ (16, check client)
    ∷ []

attacks-IsWithin : All (IsWithin 100 client 10) attacks
attacks-IsWithin = ground arith

is_blocked-run_example :
    (is_blocked 3 100 20 client (run 3 100 attacks (record_failure 3 100 10 client no_failures))).0
    ≡ leb 3 (failures_of client attacks + 1)
is_blocked-run_example =
    is_blocked-run 3 100 client 10 no_failures attacks 20 (inl refl) attacks-IsWithin (omega arith)

abbrev pub sample_payload : BypassTokenPayload
sample_payload = record {
  typ = "guardme_bypass";
  sub = "ann";
  sid = "s1";
  url = "http://example.com/";
  jti = "t1";
}

abbrev is_sample : BypassTokenPayload → Bool
is_sample p =
    str_eq p.typ "guardme_bypass"
    && str_eq p.sub "ann"
    && str_eq p.sid "s1"
    && str_eq p.url "http://example.com/"
    && str_eq p.jti "t1"

sample_fields :
    (typ sub sid url jti : String)
    → typ ≡ "guardme_bypass"
    → sub ≡ "ann"
    → sid ≡ "s1"
    → url ≡ "http://example.com/"
    → jti ≡ "t1"
    → ◌≡◌ {A = BypassTokenPayload}
        (record { typ = typ; sub = sub; sid = sid; url = url; jti = jti })
        sample_payload
sample_fields typ sub sid url jti a b c d e = rw (a, b, c, d, e) refl

pub is_sample-eq : (p : BypassTokenPayload) → is_sample p ≡ true → p ≡ sample_payload
is_sample-eq p h =
    sample_fields p.typ p.sub p.sid p.url p.jti (ground (arith, str_eq_iff p.typ "guardme_bypass"))
      (ground (arith, str_eq_iff p.sub "ann")) (ground (arith, str_eq_iff p.sid "s1"))
      (ground (arith, str_eq_iff p.url "http://example.com/"))
      (ground (arith, str_eq_iff p.jti "t1"))

abbrev is_time : Option ℕ → ℕ → Bool
is_time none signed = false
is_time (some e) signed = leb 100 e && leb e 100 && leb 10 signed && leb signed 10

-- The one token that this library makes: of the payload above, at the time 10, for 100.
abbrev pub made : Bool → String
made b = if b then "token" else ""

abbrev pub sample_verify : ℕ → String → Option BypassTokenPayload
sample_verify now token = if str_eq token "token" && ltb now 110 then some sample_payload else none

pub sample_verify-made :
    (b : Bool) (now : ℕ) (q : BypassTokenPayload)
    → sample_verify now (made b) ≡ some q
    → (b ≡ true) × (now < 110) × (q ≡ sample_payload)
sample_verify-made true now q h = ground arith
sample_verify-made false now q h = ground arith

pub both : (b c : Bool) → b && c ≡ true → (b ≡ true) × (c ≡ true)
both b c h = ground arith

pub is_time-eq : (e signed : ℕ) → is_time (some e) signed ≡ true → signed + e ≡ 110
is_time-eq e signed h = ground arith

abbrev pub sample_jwt : BypassJwt
sample_jwt = record {
  sign = λ expires_in signed p. made (is_time expires_in signed && is_sample p);
  verify = sample_verify;
  verify-sign = λ expires_in signed now p q h.
      let (b, _, e) = sample_verify-made (is_time expires_in signed && is_sample p) now q h in
      e ∙ sym (is_sample-eq p (both _ _ b).1);
  verify_expired = λ e signed now p over.
      elim (Option-cases (sample_verify now (made (is_time (some e) signed && is_sample p)))) [
        | inl none_found ↦ none_found
        | inr (q, found) ↦
            let (b, early, _) =
              sample_verify-made (is_time (some e) signed && is_sample p) now q found in
            absurd (omega (arith, is_time-eq e signed (both _ _ b).0))
      ];
}

abbrev first_try : Attempt
first_try = record {
  now = 20;
  token = "token";
  url = "http://example.com/";
  user_id = "ann";
  session_id = "s1";
}

abbrev second_try : Attempt
second_try = record first_try { now = 30 }

abbrev none_consumed : Consumed
none_consumed jti = none

first_accepted : (attempt 100 sample_jwt first_try none_consumed).0 ≡ true
unfolding run_proxy
first_accepted = refl

sample_token : "token" ≡ sign 100 sample_jwt 10 "t1" "http://example.com/" "ann" "s1"
unfolding sign
sample_token = refl

bypass_once_example :
    (attempt 100 sample_jwt second_try (
      attempts 100 sample_jwt
        (first_try ∷ [])
        (attempt 100 sample_jwt first_try none_consumed).1)).0
    ≡ false
bypass_once_example =
    bypass_once 100 sample_jwt 10 "t1" "http://example.com/" "ann" "s1" first_try second_try
      none_consumed (first_try ∷ []) sample_token sample_token (omega arith) first_accepted
      (omega arith, tt)

abbrev pub scan_of : ThreatVerdict → ThreatScanResult
scan_of verdict = record {
  verdict = verdict;
  risk_score = 40;
  scanned_url = "http://example.com/";
  metadata = plain_metadata;
}

abbrev cache_history : List (ℕ × Op)
cache_history =
    (9, read "http://other/")
    ∷ (5, store "http://example.com/" (scan_of safe))
    ∷ (4, store "http://example.com/" (scan_of malicious))
    ∷ []

cache_history_before : All (λ o. o.0 ≤ 12) cache_history
cache_history_before = ground arith

get-run_example :
    (get 12 "http://example.com/" (run_cache 10 cache_history)).0
    ≡ fresh_result 10 12 (last_stored 10 "http://example.com/" cache_history)
get-run_example = get-run 10 12 "http://example.com/" cache_history cache_history_before

abbrev pub download : InspectionResult
download = record {
  method = text "GET";
  normalized_url = "http://example.com/Setup.v2.EXE";
  destination_host = text "example.com";
  destination_port = integer 80;
  destination_scheme = text "http";
  is_file_download = true;
  file_name = some (text "Setup.v2" ++ (b'.' ∷ text "EXE"));
  bypass_token = none;
}

exe-IsFree : IsFree b'.' (text "EXE")
unfolding run_proxy
exe-IsFree = ground arith

abbrev zip_scan : FileScanResult
zip_scan = record { file_name = []; verdict = suspicious; risk_score = 55; reason = [] }

decide-allow_iff_example : ((decide true (scan_of unverified) none).decision ≡ allow) ↔ (
    IsHarmless none
    × ((unverified ≡ safe) ⊎ ((unverified ≡ unverified) × ((false && true) ≡ false))))
decide-allow_iff_example = decide-allow_iff true (scan_of unverified) none

abbrev sample_urls : TargetUrl
sample_urls = record {
  host_of = λ url. ok (text "example.com");
  is_https = λ url. true;
  with_hostname = λ url host. "https://93.184.216.34/";
}

abbrev inspected : InspectionResult
inspected = record {
  method = text "GET";
  normalized_url = "https://example.com/";
  destination_host = text "example.com";
  destination_port = integer 443;
  destination_scheme = text "https";
  is_file_download = false;
  file_name = none;
  bypass_token = none;
}

abbrev proxy_headers : List (Text × HeaderValue)
proxy_headers =
    (text "Proxy-Authorization", one (text "Basic x")) ∷ (text "Accept", one (text "a")) ∷ []

abbrev sent_request : ForwardRequest
sent_request =
    request_to sample_is_ip sample_lookup sample_urls 30000 proxy_headers inspected public_address
      (text "example.com")

request_sent :
    forward_request sample_is_ip sample_lookup sample_urls 30000 proxy_headers inspected
    ≡ ok sent_request
unfolding run_proxy forward_request
request_sent = refl

forward_request_sound_example :
    IsSafe sample_is_ip sample_lookup sample_urls 30000 inspected sent_request
forward_request_sound_example =
    forward_request_sound sample_is_ip sample_lookup sample_urls 30000 proxy_headers inspected
      sent_request request_sent
