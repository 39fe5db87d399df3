-- ===== src/Websocket.antt =====
-- The websocket: apps/gateway-backend/src/modules/websocket. Here is who a socket is from, which
-- ws-auth.service.ts finds; its children have the gateway and what it keeps apart.
pub mod Gateway
pub mod Doors
pub mod Isolation
mod Examples
use guard_me.Prelude.{
  ℕ, ◌≡◌, Bool, true, false, not, Option, none, some, List, [], ◌∷◌, Result, ok, err, http, failure,
  String, str_eq, if◌then◌else◌,
}
use guard_me.Text.{Text, ◌==◌, trim, split, join, has_unit}
use guard_me.Users.{User, find_by_id}
use guard_me.Sessions.{
  Session, SessionState, Fingerprint, Identity, JwtPayload, find_active_by_jwt_id,
  update_last_verified_at, verify_session_for_request,
}
use guard_me.Auth.{AuthDeps, SessionJwt}

-- `decodeURIComponent`, where `none` is the URIError. What is relied on: a text without % is left
-- as it is.
pub record UriDecoder : Type 0 where
  pub decode : Text → Option Text
  pub decode_plain : (t : Text) → has_unit 37 t ≡ false → decode t ≡ some t

-- A cookie's name and its value, around the first =.
abbrev pub cookie_parts : Text → Text × Text
cookie_parts part = elim (split 61 (trim part)) [
  | [] ↦ ([], [])
  | name ∷ value ↦ (name, join 61 value)
]

abbrev decoded : Option Text → Result (Option Text)
decoded none = err (failure "URI malformed")
decoded (some token) = ok (some token)

module _ (d : AuthDeps Text) (now : ℕ) (table : List User) where
  -- Behind the check of the fingerprint: the user, and the session's time.
  unfoldable pub finish_socket :
      JwtPayload → Session → Result Bool × SessionState → Result Identity × SessionState
  finish_socket payload session (err e, s) = (err e, s)
  finish_socket payload session (ok fingerprint_matched, s) =
      elim (find_by_id d.users.rows payload.sub table) [
        | none ↦ (err (http 401 "User not found"), s)
        | some user ↦ (
          ok (record {
            user_id = user.id;
            session_id = session.id;
            jwt_id = payload.jti;
            username = user.username;
            fingerprint_matched = fingerprint_matched;
          }),
          record s { sessions = update_last_verified_at d.sessions now session.id s.sessions },
        )
      ]

  -- What follows on a payload that was verified.
  unfoldable pub check_socket_session :
      JwtPayload → Fingerprint → SessionState → Result Identity × SessionState
  unfolding finish_socket
  check_socket_session payload client s =
      elim (find_active_by_jwt_id d.sessions now payload.jti s.sessions) [
        | none ↦ (err (http 401 "Session is invalid or expired"), s)
        | some session ↦
            let checked =
              verify_session_for_request d.users.rows d.sessions d.strict now table session client
                s in
            if not (str_eq session.user_id payload.sub)
            then (err (http 401 "Session is invalid or expired"), s)
            else finish_socket payload session checked
      ]

module _ (uri : UriDecoder) (cookie_name : Text) where
  -- The first cookie with the name.
  unfoldable pub find_cookie : List Text → Result (Option Text)
  find_cookie [] = ok none
  find_cookie (part ∷ parts) =
      let rest = find_cookie parts in
      let (name, value) = cookie_parts part in
      if name == cookie_name then decoded (uri.decode value) else rest

  unfoldable pub extract_cookie_token : Option Text → Result (Option Text)
  unfolding find_cookie
  extract_cookie_token none = ok none
  extract_cookie_token (some []) = ok none
  extract_cookie_token (some (c ∷ header)) = find_cookie (split 59 (c ∷ header))

  unfoldable pub authenticate_socket :
      AuthDeps Text
      → ℕ
      → List User
      → (cookie_header : Option Text) → Fingerprint
      → SessionState
      → Result Identity × SessionState
  unfolding extract_cookie_token check_socket_session
  authenticate_socket d now table cookie_header client s =
      elim (extract_cookie_token cookie_header) [
        | err e ↦ (err e, s)
        | ok none ↦ (err (http 401 "Missing session cookie"), s)
        | ok (some []) ↦ (err (http 401 "Missing session cookie"), s)
        | ok (some (c ∷ token)) ↦ elim (d.jwt.verify false now (c ∷ token)) [
          | none ↦ (err (http 401 "Invalid session token"), s)
          | some payload ↦ check_socket_session d now table payload client s
        ]
      ]
