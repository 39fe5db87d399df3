-- ===== src/Proxy/Forward.antt =====
-- proxy/proxy-forward.service.ts: what is asked of the HTTP client for a request that is let through.
use guard_me.Prelude.{
  ok_inj, ℕ, ◌≡◌, refl, ◌⊎◌, inl, inr, Bool, false, not, ◌||◌, Option, none, some, List, [], ◌∷◌,
  ◌++◌, String, Result, ok, ◌>>=◌, await-ok, In, All-in, any, arith, nat_beq, if◌then◌else◌,
}
use mathlib.Core.Path.{subst}
use guard_me.Text.{Text, text, ◌==◌, to_lower_case, to_upper_case}
use guard_me.Proxy.Headers.{HeaderValue, is_hop_by_hop, sanitize_forward_request_headers}
use guard_me.Proxy.Headers.Kept.{sanitize_request_iff}
use guard_me.Proxy.Url.{is_blocked_destination_host}
use guard_me.Proxy.Dns.{
  ResolvedDestination, resolve_allowed_destination, resolve_allowed_destination_sound,
}
use guard_me.Proxy.Inspection.{InspectionResult}

-- The URL class: the host with its port, whether the protocol is https, and the URL with another
-- host name; `new URL` may fail.
pub record TargetUrl : Type 0 where
  pub host_of : String → Result Text
  pub is_https : String → Bool
  pub with_hostname : String → Text → String

pub record ForwardRequest : Type 0 where
  pub method : Text
  pub url : String
  pub headers : List (Text × Text)
  pub has_body : Bool
  pub server_name : Option Text
  pub timeout : ℕ
  pub max_redirects : ℕ

unfoldable pub should_forward_body : Text → Bool
should_forward_body method =
    not (any (λ m. m == to_upper_case method) (text "GET" ∷ text "HEAD" ∷ text "CONNECT" ∷ []))

-- An address as the host name of a URL.
unfoldable pub address_hostname : ResolvedDestination → Text
address_hostname d = if nat_beq d.family 6 then (b'[' ∷ d.address) ++ b']' ∷ [] else d.address

module _ (is_ip : Text → ℕ) (lookup : Text → Result (List ResolvedDestination)) (urls : TargetUrl)
    (forward_timeout_ms : ℕ) where
  -- No header that is kept is named host in any case, so that setting it adds one.
  abbrev pub request_to :
      List (Text × HeaderValue) → InspectionResult → ResolvedDestination → Text → ForwardRequest
  request_to headers inspection destination host = record {
    method = inspection.method;
    url = urls.with_hostname inspection.normalized_url (address_hostname destination);
    headers = (text "host", host) ∷ sanitize_forward_request_headers headers;
    has_body = should_forward_body inspection.method;
    server_name =
        if urls.is_https inspection.normalized_url then some inspection.destination_host else none;
    timeout = forward_timeout_ms;
    max_redirects = 0;
  }

  unfoldable pub forward_request :
      List (Text × HeaderValue) → InspectionResult → Result ForwardRequest
  unfolding should_forward_body address_hostname
  forward_request headers inspection = do
    destination ← resolve_allowed_destination is_ip lookup inspection.destination_host
    host ← urls.host_of inspection.normalized_url
    ok (request_to headers inspection destination host)

  kept-private :
      (headers : List (Text × HeaderValue)) (h : Text × Text)
      → In h (sanitize_forward_request_headers headers)
      → (is_hop_by_hop h.0 ≡ false) × ((to_lower_case h.0 == text "host") ≡ false)
  kept-private headers h m =
      let (w, _, passed, _) = (sanitize_request_iff headers h).0 m in
      not_or (is_hop_by_hop h.0) (to_lower_case h.0 == text "host") passed
    where
      not_or : (a b : Bool) → (a || b) ≡ false → (a ≡ false) × (b ≡ false)
      not_or a b e = ground arith

  -- What is safe to ask of the client.
  abbrev pub IsSafe : InspectionResult → ForwardRequest → Type 0
  IsSafe inspection r =
      (d : ResolvedDestination) × (is_blocked_destination_host is_ip d.address ≡ false)
      × (r.url ≡ urls.with_hostname inspection.normalized_url (address_hostname d))
      × (host : Text) × (urls.host_of inspection.normalized_url ≡ ok host)
      × In (text "host", host) r.headers
      × ((h : Text × Text)
          → In h r.headers
          → (h ≡ (text "host", host))
            ⊎ ((is_hop_by_hop h.0 ≡ false) × ((to_lower_case h.0 == text "host") ≡ false)))

  request_to-IsSafe :
      (headers : List (Text × HeaderValue)) (inspection : InspectionResult)
      (d : ResolvedDestination) (host : Text)
      → is_blocked_destination_host is_ip d.address ≡ false
      → urls.host_of inspection.normalized_url ≡ ok host
      → IsSafe inspection (request_to headers inspection d host)
  request_to-IsSafe headers inspection d host open_address named = (
    d,
    open_address,
    refl,
    host,
    named,
    inl refl,
    λ h m. elim m [ inl same ↦ inl same | inr there ↦ inr (kept-private headers h there) ],
  )

  -- A request is made only to an address that is not refused, which replaces the host name of the
  -- URL. It carries a host header with the host of the URL, no other header of that name in any case,
  -- and no header that is meant for the proxy: none that is hop-by-hop, as proxy-authorization is.
  pub forward_request_sound :
      (headers : List (Text × HeaderValue)) (inspection : InspectionResult) (r : ForwardRequest)
      → forward_request headers inspection ≡ ok r
      → IsSafe inspection r
  unfolding forward_request
  forward_request_sound headers inspection r h =
      let (d, resolved, next) =
        await-ok (resolve_allowed_destination is_ip lookup inspection.destination_host) _ h in
      let (host, named, built) = await-ok (urls.host_of inspection.normalized_url) _ next in
      let (all, _, there, checked) =
        resolve_allowed_destination_sound is_ip lookup inspection.destination_host d resolved in
      let open_address : is_blocked_destination_host is_ip d.address ≡ false =
        All-in (λ (x : ResolvedDestination). is_blocked_destination_host is_ip x.address ≡ false)
          all checked there in
      subst (IsSafe inspection) (ok_inj built)
        (request_to-IsSafe headers inspection d host open_address named)
