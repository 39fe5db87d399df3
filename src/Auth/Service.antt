-- ===== src/Auth/Service.antt =====
-- auth/auth.service.ts: registering, logging in and out, and the check of the password. One request
-- reads the clock once; new identifiers are arguments. A cookie that is missing or empty is `none`.
use guard_me.Prelude.{
  ℕ, ◌+◌, Bool, true, Option, none, some, List, [], ◌∷◌, ◌++◌, String, Result, ok, err, http,
  str_eq, if◌then◌else◌,
}
use guard_me.Siem.{string, walked, SecurityEventInput, auth_failure, reauth_failure}
use guard_me.Users.{
  User, UserTable, CreateUserInput, PublicUserProfile, find_by_id, find_by_username,
  update_last_auth_at, set_last_auth_at, to_public_profile, verify_password_hash,
  verify_password_timing_safe,
}
use guard_me.Users
use guard_me.Sessions
use guard_me.Sessions.{Session, SessionState, Fingerprint, JwtPayload, Identity, revoke_by_jwt_id}
use guard_me.Vault.{clear_key}
use guard_me.Auth.{
  LoginDto, CookieChange, set_cookie, clear_cookie, SessionEventType, login, logout, DashboardState,
  AuthDeps, resolve_expiry_date,
}

pub record AuthProfile : Type 0 where
  pub id : String
  pub username : String
  pub fingerprint_matched : Bool
  pub last_auth_at : Option ℕ

abbrev login_failure :
    (attempted_username : String)
    → (user_id : Option String) → Fingerprint
    → (reason : String) → SecurityEventInput
login_failure attempted_username user_id client reason = record {
  type = auth_failure;
  message = "Dashboard login failed";
  severity = none;
  user_id = user_id;
  metadata =
      ("source", string "dashboard")
      ∷ ("reason", string reason)
      ∷ ("attemptedUsername", string attempted_username)
      ∷ ("clientIp", walked client.client_ip)
      ∷ ("userAgent", walked client.user_agent)
      ∷ [];
}

abbrev re_auth_failure : Identity → Fingerprint → SecurityEventInput
re_auth_failure user client = record {
  type = reauth_failure;
  message = "Re-authentication failed";
  severity = none;
  user_id = none;
  metadata =
      ("userId", string user.user_id)
      ∷ ("username", string user.username)
      ∷ ("clientIp", walked client.client_ip)
      ∷ ("userAgent", walked client.user_agent)
      ∷ [];
}

module _ {Buffer : Type 0} where
  abbrev pub log_event : SecurityEventInput → DashboardState Buffer → DashboardState Buffer
  log_event event s = record s { store = record s.store { events = s.store.events ++ event ∷ [] } }

  -- proxy-realm.service.ts
  unfoldable pub rotate : DashboardState Buffer → DashboardState Buffer
  rotate s = record s { nonce = s.nonce + 1 }

  unfoldable pub emit_session_event :
      SessionEventType
      → (user_id username : String) → ℕ
      → DashboardState Buffer
      → DashboardState Buffer
  emit_session_event type user_id username now s = record s {
    emitted =
        s.emitted
        ++ record { type = type; user_id = user_id; username = username; timestamp = now } ∷ [];
  }

  unfoldable pub log_login_failure :
      String → Option String → Fingerprint → String → DashboardState Buffer → DashboardState Buffer
  log_login_failure attempted_username user_id client reason s =
      log_event (login_failure attempted_username user_id client reason) s

module _ {Token : Type 0} (d : AuthDeps Token) where
  unfoldable pub payload_user : Option JwtPayload → List User → Option User
  payload_user none table = none
  payload_user (some payload) table =
      if str_eq payload.sub "" then none else find_by_id d.users.rows payload.sub table

module _ {Token Buffer : Type 0} (d : AuthDeps Token) where
  unfoldable pub register :
      CreateUserInput
      → (new_id kdf_salt : String) → ℕ
      → DashboardState Buffer
      → Result PublicUserProfile × DashboardState Buffer
  register dto new_id kdf_salt now s =
      let (result, users) = Users.create d.users d.hash dto new_id kdf_salt now s.users in
      (
        elim result [ err e ↦ err e | ok user ↦ ok (to_public_profile user) ],
        record s { users = users },
      )

  -- The session's row, and the cookie with the token.
  unfoldable pub issue_session_cookie :
      (user_id : String)
      → Fingerprint
      → (jwt_id session_id : String) → ℕ
      → DashboardState Buffer
      → CookieChange Token × DashboardState Buffer
  issue_session_cookie user_id client jwt_id session_id now s =
      let expires_at = resolve_expiry_date d.expires_in now in
      (
        set_cookie (d.jwt.sign d.expires_in now (record { sub = user_id; jti = jwt_id }))
            expires_at,
        record s {
          store = record s.store {
            sessions =
                Sessions.create d.sessions
                  (record {
                    user_id = user_id;
                    jwt_id = jwt_id;
                    ip_address = client.client_ip;
                    user_agent = client.user_agent;
                    expires_at = expires_at;
                  })
                  session_id now s.store.sessions;
          };
        },
      )

  -- The rest of a log-in, behind a password that was right.
  unfoldable pub logged_in :
      User
      → Fingerprint
      → (jwt_id session_id : String) → ℕ
      → DashboardState Buffer
      → (PublicUserProfile × CookieChange Token) × DashboardState Buffer
  unfolding issue_session_cookie rotate emit_session_event
  logged_in user client jwt_id session_id now s =
      let touched : DashboardState Buffer = record s {
        users = update_last_auth_at d.users.rows user.id now s.users;
      } in
      let (cookie, issued) = issue_session_cookie user.id client jwt_id session_id now touched in
      (
        (to_public_profile (set_last_auth_at d.users.rows now user), cookie),
        emit_session_event login user.id user.username now (rotate issued),
      )

  unfoldable pub log_in :
      LoginDto
      → Fingerprint
      → (jwt_id session_id : String) → ℕ
      → DashboardState Buffer
      → Result (PublicUserProfile × CookieChange Token) × DashboardState Buffer
  log_in dto client jwt_id session_id now s =
      elim (find_by_username d.users.rows dto.username s.users) [
        | none ↦ (
          err (http 401 "Invalid username or password"),
          log_login_failure dto.username none client "unknown_user" s,
        )
        | some user ↦
            let (done, end) = logged_in user client jwt_id session_id now s in
            if verify_password_timing_safe d.password_matches dto.password (some user.password_hash)
            then (ok done, end)
            else (
              err (http 401 "Invalid username or password"),
              log_login_failure dto.username (some user.id) client "invalid_password" s,
            )
      ]

  -- What the payload of the cookie's token ends, if it can be verified at all.
  unfoldable pub revoke_payload :
      Option JwtPayload → ℕ → DashboardState Buffer → DashboardState Buffer
  revoke_payload none now s = s
  revoke_payload (some payload) now s = if str_eq payload.jti "" then s else record s {
    store = record s.store {
      sessions = revoke_by_jwt_id d.sessions now payload.jti s.store.sessions;
    };
  }

  unfoldable pub forget_user : Option User → ℕ → DashboardState Buffer → DashboardState Buffer
  unfolding emit_session_event
  forget_user none now s = s
  forget_user (some user) now s =
      let cleared : DashboardState Buffer = record s { keys = clear_key user.id s.keys } in
      if str_eq user.id ""
      then s
      else if str_eq user.username ""
      then cleared
      else emit_session_event logout user.id user.username now cleared

  unfoldable pub log_out :
      (token : Option Token)
      → ℕ
      → DashboardState Buffer
      → CookieChange Token × DashboardState Buffer
  unfolding revoke_payload payload_user forget_user rotate
  log_out token now s =
      let payload : Option JwtPayload = elim token [
        | none ↦ none
        | some t ↦ d.jwt.verify true now t
      ] in
      (
        clear_cookie,
        forget_user (payload_user d payload s.users) now (rotate (revoke_payload payload now s)),
      )

  unfoldable pub get_profile : Identity → DashboardState Buffer → AuthProfile
  get_profile user s = record {
    id = user.user_id;
    username = user.username;
    fingerprint_matched = user.fingerprint_matched;
    last_auth_at = elim (find_by_id d.users.rows user.user_id s.users) [
      | none ↦ none
      | some row ↦ row.last_auth_at
    ];
  }

  -- The time of the answer, or the exception.
  unfoldable pub verify_password :
      Identity
      → (password : String) → Fingerprint
      → ℕ
      → DashboardState Buffer
      → Result ℕ × DashboardState Buffer
  verify_password user password client now s = elim (find_by_id d.users.rows user.user_id s.users) [
    | none ↦ (err (http 401 "Invalid password"), s)
    | some row ↦
        if verify_password_hash d.password_matches password row.password_hash
        then (
          ok now,
          record s { users = update_last_auth_at d.users.rows user.user_id now s.users },
        )
        else (err (http 401 "Invalid password"), log_event (re_auth_failure user client) s)
  ]
