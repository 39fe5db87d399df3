-- ===== src/Sessions/ProxyAuth.antt =====
-- proxy/proxy-auth.service.ts: who a proxy request is from. The JWT library, the cookie of the
-- request, the decoder of the proxy-authorization header and the password hash are parameters.
pub mod Authenticated
pub mod Request
pub mod Admitted
use guard_me.Prelude.{
  ℕ, Bool, true, false, not, ◌||◌, Option, none, some, List, [], ◌∷◌, ◌++◌, String, Result, ok, err,
  http, Exception, ◌>>=◌, str_eq, if◌then◌else◌,
}
use guard_me.Text.{Text}
use guard_me.Database.{Prisma}
use guard_me.Users.{User, find_by_id, find_by_username, verify_password_timing_safe}
use guard_me.Siem.{MetaValue, string, walked, SecurityEventInput, auth_failure}
use guard_me.Sessions.{
  JwtPayload, Identity, Session, Fingerprint, SessionState, find_active_by_jwt_id,
  find_latest_active_for_user, update_last_verified_at, verify_session_for_request,
}
use guard_me.Proxy.RateLimit.{Failures, is_blocked, record_failure, record_success}

pub record BasicCredentials : Type 0 where
  pub username : String
  pub password : String

-- What the source reads of a request: the token in its cookie, the credentials in its header, and
-- the client.
pub record AuthRequest : Type 0 where
  pub cookie_token : Option String
  pub credentials : Option BasicCredentials
  pub client : Fingerprint

pub record AuthState : Type 0 where
  pub store : SessionState
  pub failures : Failures

-- `verify` is `verifyAsync` at a time, `password_matches` is `argon2.verify` on a hash.
pub record AuthServices : Type 0 where
  pub verify : ℕ → String → Option JwtPayload
  pub password_matches : String → String → Bool
  pub users : Prisma User
  pub sessions : Prisma Session
  pub strict : Bool
  pub limit : ℕ
  pub ttl : ℕ

abbrev auth_event : String → Option String → Fingerprint → String → SecurityEventInput
auth_event username user_id client reason = record {
  type = auth_failure;
  message = "Proxy authentication failed";
  severity = none;
  user_id = user_id;
  metadata =
      ("reason", string reason)
      ∷ ("attemptedUsername", string username)
      ∷ ("clientIp", walked client.client_ip)
      ∷ ("userAgent", walked client.user_agent)
      ∷ [];
}

unfoldable pub log_proxy_auth_failure :
    String → Option String → Fingerprint → String → AuthState → AuthState
log_proxy_auth_failure username user_id client reason s = record s {
  store = record s.store {
    events = s.store.events ++ auth_event username user_id client reason ∷ [];
  };
}

abbrev unauthorized : String → Exception
unauthorized message = http 401 message

-- Every reading of the clock in one request gives `now`.
module _ (d : AuthServices) (now : ℕ) (table : List User) where
  abbrev identity : User → Session → Bool → Identity
  identity user session matched = record {
    user_id = user.id;
    session_id = session.id;
    jwt_id = session.jwt_id;
    username = user.username;
    fingerprint_matched = matched;
  }

  abbrev touched : Session → SessionState → SessionState
  touched session s = record s {
    sessions = update_last_verified_at d.sessions now session.id s.sessions;
  }

  -- The end of the log-in by token: the user, and the session's time.
  unfoldable pub finish_token :
      JwtPayload → Session → Result Bool × SessionState → Result Identity × SessionState
  finish_token payload session (err e, s) = (err e, s)
  finish_token payload session (ok matched, s) = elim (find_by_id d.users payload.sub table) [
    | none ↦ (err (unauthorized "User not found"), s)
    | some user ↦
        (ok (record (identity user session matched) { jwt_id = payload.jti }), touched session s)
  ]

  unfoldable pub authenticate_with_session_token :
      String → Fingerprint → SessionState → Result Identity × SessionState
  unfolding finish_token
  authenticate_with_session_token token client s = elim (d.verify now token) [
    | none ↦ (err (unauthorized "Invalid session token"), s)
    | some payload ↦ elim (find_active_by_jwt_id d.sessions now payload.jti s.sessions) [
      | none ↦ (err (unauthorized "Session is invalid or expired"), s)
      | some session ↦
          let checked =
            verify_session_for_request d.users d.sessions d.strict now table session client s in
          if not (str_eq session.user_id payload.sub)
          then (err (unauthorized "Session is invalid or expired"), s)
          else finish_token payload session checked
    ]
  ]

  -- The end of the log-in by password, behind a password that was right.
  unfoldable pub finish_basic :
      User → Session → Text → Failures → Result Bool × SessionState → Result Identity × AuthState
  finish_basic user session key failures (err e, s) =
      (err e, record { store = s; failures = failures })
  finish_basic user session key failures (ok matched, s) = (
    ok (identity user session matched),
    record { store = touched session s; failures = record_success d.limit d.ttl key failures },
  )

  unfoldable pub log_in : String → User → Fingerprint → AuthState → Result Identity × AuthState
  unfolding finish_basic
  log_in username user client s =
      elim (find_latest_active_for_user d.sessions now user.id s.store.sessions) [
        | none ↦ (
          err (unauthorized "Sign in to the dashboard before using the proxy"),
          log_proxy_auth_failure username (some user.id) client "no_active_dashboard_session" s,
        )
        | some session ↦ finish_basic user session client.client_ip s.failures (
            verify_session_for_request d.users d.sessions d.strict now table session client s.store)
      ]

  unfoldable pub fail :
      String → Option String → Fingerprint → String → AuthState → Result Identity × AuthState
  fail username user_id client reason s = (
    err (unauthorized "Invalid proxy credentials"),
    log_proxy_auth_failure username user_id client reason
        (record s { failures = record_failure d.limit d.ttl now client.client_ip s.failures }),
  )

  -- Behind the rate limit.
  unfoldable pub check_credentials :
      BasicCredentials → Fingerprint → AuthState → Result Identity × AuthState
  check_credentials c client s = elim (find_by_username d.users c.username table) [
    | none ↦ fail c.username none client "unknown_user" s
    | some user ↦
        if verify_password_timing_safe d.password_matches c.password (some user.password_hash)
        then log_in c.username user client s
        else fail c.username (some user.id) client "invalid_password" s
  ]

  unfoldable pub authenticate_with_basic_credentials :
      BasicCredentials → Fingerprint → AuthState → Result Identity × AuthState
  authenticate_with_basic_credentials c client s =
      let (blocked, failures) = is_blocked d.limit d.ttl now client.client_ip s.failures in
      let unblocked : AuthState = record s { failures = failures } in
      let rest = check_credentials c client unblocked in
      if blocked
      then (err (http 429 "Too many failed proxy authentication attempts"), unblocked)
      else rest

  unfoldable pub authenticate : AuthRequest → AuthState → Result Identity × AuthState
  authenticate req s =
      let by_basic : Result Identity × AuthState = elim req.credentials [
        | none ↦ (err (unauthorized "Proxy authentication required"), s)
        | some c ↦ authenticate_with_basic_credentials c req.client s
      ] in
      elim req.cookie_token [
        | none ↦ by_basic
        | some token ↦
            let (result, store) = authenticate_with_session_token token req.client s.store in
            if str_eq token "" then by_basic else (result, record s { store = store })
      ]
