-- ===== src/Sessions/ProxyAuth/Admitted.antt =====
-- That proxy/proxy-auth.service.ts lets in whom it means to.
use guard_me.Prelude.{ℕ, ◌≡◌, refl, ap, ◌∙◌, true, false, none, some, List, ◌∷◌, ◌++◌, ok, String}
use guard_me.Text.{Text, text}
use guard_me.Text.Printing.{to_string}
use guard_me.Text.Splitting.{IsFree}
use guard_me.Users.{User, find_by_username, verify_password_timing_safe}
use guard_me.Sessions.{Session, Fingerprint, find_latest_active_for_user}
use guard_me.Sessions.Fingerprints.{verify_session_for_request-same_client}
use guard_me.Proxy.RateLimit.{is_blocked}
use guard_me.Websocket.{UriDecoder, extract_cookie_token}
use guard_me.Sessions.ProxyAuth.{
  BasicCredentials, AuthServices, AuthState, finish_basic, log_in, check_credentials,
  authenticate_with_basic_credentials, authenticate,
}
use guard_me.Sessions.ProxyAuth.Request.{
  ProxyRequest, client_of, parse_proxy_authorization_basic, parse_proxy_authorization_basic-header,
  authenticate_request,
}

module _ (d : AuthServices) (now : ℕ) (table : List User) where
  log_in-admits :
      (name : String) (user : User) (session : Session) (client : Fingerprint) (s : AuthState)
      → find_latest_active_for_user d.sessions now user.id s.store.sessions ≡ some session
      → session.ip_address ≡ client.client_ip
      → session.user_agent ≡ client.user_agent
      → (log_in d now table name user client s).0
        ≡ ok (record {
          user_id = user.id;
          session_id = session.id;
          jwt_id = session.jwt_id;
          username = user.username;
          fingerprint_matched = true;
        })
  unfolding log_in finish_basic
  log_in-admits name user session client s latest ip agent =
      let checked =
        verify_session_for_request-same_client d.users d.sessions d.strict now table session client
          s.store ip agent in
      rw (log_in, latest, checked) refl

  credentials-admit :
      (c : BasicCredentials) (user : User) (session : Session) (client : Fingerprint)
      (s : AuthState)
      → find_by_username d.users c.username table ≡ some user
      → verify_password_timing_safe d.password_matches c.password (some user.password_hash) ≡ true
      → (is_blocked d.limit d.ttl now client.client_ip s.failures).0 ≡ false
      → find_latest_active_for_user d.sessions now user.id s.store.sessions ≡ some session
      → session.ip_address ≡ client.client_ip
      → session.user_agent ≡ client.user_agent
      → (authenticate_with_basic_credentials d now table c client s).0
        ≡ ok (record {
          user_id = user.id;
          session_id = session.id;
          jwt_id = session.jwt_id;
          username = user.username;
          fingerprint_matched = true;
        })
  unfolding authenticate_with_basic_credentials check_credentials
  credentials-admit c user session client s known right free latest ip agent =
      let unblocked : AuthState = record s {
        failures = (is_blocked d.limit d.ttl now client.client_ip s.failures).1;
      } in
      rw (authenticate_with_basic_credentials, free, check_credentials, known, right)
        (log_in-admits c.username user session client unblocked latest ip agent)

  -- A right password in the header gets a request in: it is let in as its user, by the user's latest
  -- active session, if it has no cookie, its address is not locked out, the session was opened from
  -- the same address and browser, and the name has no colon.
  pub authenticate_request-admits :
      (decode : Text → Text) (uri : UriDecoder) (cookie_name encoded username password : Text)
      (req : ProxyRequest) (user : User) (session : Session) (s : AuthState)
      → req.cookie ≡ none
      → req.proxy_authorization ≡ some (text "Basic " ++ encoded)
      → decode encoded ≡ username ++ (b':' ∷ password)
      → IsFree b':' username
      → find_by_username d.users (to_string username) table ≡ some user
      → verify_password_timing_safe d.password_matches
          (to_string password)
          (some user.password_hash)
        ≡ true
      → (is_blocked d.limit d.ttl now (client_of req).client_ip s.failures).0 ≡ false
      → find_latest_active_for_user d.sessions now user.id s.store.sessions ≡ some session
      → session.ip_address ≡ (client_of req).client_ip
      → session.user_agent ≡ (client_of req).user_agent
      → (authenticate_request decode uri cookie_name d now table req s).0
        ≡ ok (record {
          user_id = user.id;
          session_id = session.id;
          jwt_id = session.jwt_id;
          username = user.username;
          fingerprint_matched = true;
        })
  unfolding authenticate_request authenticate extract_cookie_token
  authenticate_request-admits decode uri cookie_name encoded username password req user session s
        no_cookie header content free known right unblocked latest ip agent =
      let parsed : parse_proxy_authorization_basic decode req.proxy_authorization
          ≡ some (record { username = to_string username; password = to_string password }) =
        ap (parse_proxy_authorization_basic decode) header
        ∙ parse_proxy_authorization_basic-header decode encoded username password content free in
      rw (authenticate_request, no_cookie, parsed, authenticate)
        (credentials-admit (record { username = to_string username; password = to_string password })
          user session (client_of req) s known right unblocked latest ip agent)
