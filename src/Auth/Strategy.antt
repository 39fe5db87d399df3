-- ===== src/Auth/Strategy.antt =====
-- auth/strategies/jwt.strategy.ts and common/guards/jwt-session.guard.ts: who a request of the
-- dashboard is from. Passport takes the token from the cookie and has it verified.
use guard_me.Prelude.{
  ℕ, Bool, false, not, Option, none, some, List, Result, ok, err, http, str_eq, if◌then◌else◌,
}
use guard_me.Users.{User, find_by_id}
use guard_me.Sessions.{
  Session, SessionState, Fingerprint, JwtPayload, Identity, find_active_by_jwt_id,
  verify_session_for_request, update_last_verified_at,
}
use guard_me.Auth.{AuthDeps}

module _ {Token : Type 0} (d : AuthDeps Token) (now : ℕ) (table : List User) where
  -- Behind the check of the fingerprint.
  unfoldable pub finish_validate :
      JwtPayload → Session → Result Bool × SessionState → Result Identity × SessionState
  finish_validate payload session (err e, s) = (err e, s)
  finish_validate payload session (ok fingerprint_matched, s) =
      elim (find_by_id d.users.rows payload.sub table) [
        | none ↦ (err (http 401 "User not found"), s)
        | some user ↦ (
          ok (record {
            user_id = user.id;
            session_id = session.id;
            jwt_id = payload.jti;
            username = user.username;
            fingerprint_matched = fingerprint_matched;
          }),
          record s { sessions = update_last_verified_at d.sessions now session.id s.sessions },
        )
      ]

  unfoldable pub validate : JwtPayload → Fingerprint → SessionState → Result Identity × SessionState
  unfolding finish_validate
  validate payload client s = elim (find_active_by_jwt_id d.sessions now payload.jti s.sessions) [
    | none ↦ (err (http 401 "Session is invalid or expired"), s)
    | some session ↦
        let checked =
          verify_session_for_request d.users.rows d.sessions d.strict now table session client s in
        if not (str_eq session.user_id payload.sub)
        then (err (http 401 "Session is invalid or expired"), s)
        else finish_validate payload session checked
  ]

  -- The guard of a route: what Passport found of the token, and what `validate` says of its payload.
  unfoldable pub handle_request :
      (cookie : Option Token) → Fingerprint → SessionState → Result Identity × SessionState
  unfolding validate
  handle_request cookie client s = elim cookie [
    | none ↦ (err (http 401 "No auth token"), s)
    | some token ↦ elim (d.jwt.verify false now token) [
      | none ↦ (err (http 401 "Unauthorized"), s)
      | some payload ↦ validate payload client s
    ]
  ]
