-- ===== src/Websocket/Examples.antt =====
-- The theorems on the websocket at work: a cookie header, two users and a verifier of one token.
use guard_me.Prelude.{
  ℕ, ◌≡◌, refl, inl, Bool, true, false, Option, none, some, List, [], ◌∷◌, ◌++◌, String, ok, In,
  arith, filter, str_eq, if◌then◌else◌,
}
use guard_me.Text.{trim_start, trim_end, Text, text, ◌==◌, trim, split, join, has_unit}
use guard_me.Database.Memory.{memory}
use guard_me.Users.Memory.{user_table}
use guard_me.Sessions.{SessionState, JwtPayload, Identity}
use guard_me.Siem.{malicious_blocked, high}
use guard_me.Siem.Service.{SecurityEvent}
use guard_me.Auth.{SessionJwt, AuthDeps}
use guard_me.Auth.Strategy.{handle_request}
use guard_me.Websocket.{UriDecoder, extract_cookie_token, authenticate_socket}
use guard_me.Websocket.Doors.{AreAlike, IsPlainCookie, store_of, services_of, doors_alike}
use guard_me.Sessions.ProxyAuth.Request.{ProxyRequest, client_of, authenticate_request}
use guard_me.Text.Printing.{to_string}
use guard_me.Websocket.Gateway.{
  Delivery, Inbound, connection, on_security_event, handle, connected, user_room, security_event,
  to_security_event_payload, handle_connection, handle_security_event, emit_to, authenticated_room,
}
use guard_me.Health.{SystemStatusPayload, fine}
use guard_me.Websocket.Isolation.{IsOf, after, handle_isolated}

abbrev payload : JwtPayload
payload = record { sub = "ann"; jti = "j1" }

abbrev verify : Bool → ℕ → Text → Option JwtPayload
verify ignore_expiration now token = if token == (116 ∷ []) then some payload else none

not_empty_token : (later : ℕ) → verify false later [] ≡ none
unfolding ◌==◌
not_empty_token later = refl

-- A service whose own tokens expire at once.
abbrev jwt : SessionJwt Text
jwt = record {
  seconds = λ _. 0;
  sign = λ expires_in now p. [];
  verify = verify;
  verify-sign = λ expires_in now later p behind live. absurd (omega arith);
  verify_expired = λ expires_in now later p over. not_empty_token later;
  verify_ignoring = λ ignore_expiration now later token p h. h;
}

abbrev deps : AuthDeps Text
deps = record {
  users = user_table;
  sessions = memory;
  jwt = jwt;
  hash = λ password. password;
  password_matches = λ password_hash password. str_eq password_hash password;
  strict = true;
  expires_in = text "30m";
  re_auth_timeout_minutes = 15;
}

-- A decoder that knows no escapes.
abbrev uri : UriDecoder
uri = record {
  decode = λ t. if has_unit 37 t then none else some t;
  decode_plain = λ t h. rw (h) refl;
}

abbrev header : Option Text
header = some (text "a=b; sid=t")

her_cookie : extract_cookie_token uri (text "sid") header ≡ ok (some (116 ∷ []))
unfolding extract_cookie_token text split join trim ◌==◌ has_unit
her_cookie = refl

abbrev empty_store : SessionState
empty_store = record { sessions = []; events = [] }

abbrev by_string : ℕ → String → Option JwtPayload
by_string now token = if str_eq token "t" then some payload else none

abbrev from_browser : ProxyRequest
from_browser = record {
  cookie = some (text "sid" ++ (61 ∷ 116 ∷ []));
  proxy_authorization = none;
  forwarded = none;
  ip = some (1 ∷ []);
  user_agent = some (2 ∷ []);
}

plain_cookie : IsPlainCookie (text "sid") (116 ∷ [])
unfolding text trim trim_start trim_end has_unit
plain_cookie = (ground arith, refl, ground arith, refl, λ e. cc)

not_empty : str_eq (to_string (116 ∷ [])) "" ≡ false
unfolding to_string
not_empty = refl

same_payload : by_string 5 (to_string (116 ∷ [])) ≡ jwt.verify false 5 (116 ∷ [])
unfolding ◌==◌ to_string
same_payload = refl

doors_alike_example :
    AreAlike
      (authenticate_socket uri
        (text "sid")
        deps
        5
        []
        from_browser.cookie
        (client_of from_browser)
        empty_store)
      (handle_request deps 5 [] (some (116 ∷ [])) (client_of from_browser) empty_store)
    × AreAlike
        (store_of (
          authenticate_request
            (λ t. t)
            uri
            (text "sid")
            (services_of deps by_string 3 50)
            5
            []
            from_browser
            (record { store = empty_store; failures = λ _. none })))
        (handle_request deps 5 [] (some (116 ∷ [])) (client_of from_browser) empty_store)
doors_alike_example =
    doors_alike deps 5 [] empty_store (λ _. none) (λ t. t) uri (text "sid") (116 ∷ []) from_browser
      by_string 3 50 plain_cookie refl not_empty same_payload

abbrev ann : Identity
ann = record {
  user_id = "ann";
  session_id = "s1";
  jwt_id = "j1";
  username = "Ann";
  fingerprint_matched = true;
}

abbrev blocked : SecurityEvent
blocked = record {
  id = "e1";
  user_id = some "ann";
  type = malicious_blocked;
  severity = high;
  message = "blocked";
  metadata = [];
  created_at = 5;
}

abbrev status : SystemStatusPayload
status = record { db = fine; virus_total = fine; timestamp = 1 }

abbrev heard : List Inbound
heard = connection "c1" (ok ann) (some status) ∷ []

abbrev sent : Delivery
sent = record {
  socket = connected "c1" ann;
  event = security_event (to_security_event_payload blocked);
}

was_sent :
    In sent
      (handle (on_security_event blocked) (after heard (record { ready = true; sockets = [] }))).0
unfolding handle handle_connection handle_security_event emit_to user_room authenticated_room filter
was_sent = inl refl

handle_isolated_example : IsOf "ann" sent.socket
handle_isolated_example =
    handle_isolated heard (on_security_event blocked) true sent "ann" refl was_sent
