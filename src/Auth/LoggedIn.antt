-- ===== src/Auth/LoggedIn.antt =====
-- What logging in opens: auth/auth.service.ts with the guard of auth/strategies/jwt.strategy.ts.
use guard_me.Prelude.{
  ℕ, ◌+◌, ◌/◌, ◌≤◌, ◌<◌, ◌≡◌, ◌≢◌, refl, ap, ◌∙◌, inl, inr, Bool, true, false, ◌&&◌, none, some,
  List, In, String, ok, Option-cases, and_parts, and_true, str_eq, str_eq_iff, lt→ltb,
}
use guard_me.Database.{Prisma}
use guard_me.Users.{
  User, PublicUserProfile, find_by_id, find_by_username, set_last_auth_at, update_last_auth_at,
  to_public_profile, verify_password_timing_safe,
}
use guard_me.Users.Registered.{HasUniqueIds, updated_found, find_by_id-In, find_by_username-In}
use guard_me.Sessions.Fingerprints.{verify_session_for_request-same_client}
use guard_me.Sessions.{
  Session, SessionState, Fingerprint, JwtPayload, is_active, find_active_by_jwt_id, create,
}
use guard_me.Auth.{DashboardState, AuthDeps, set_cookie, LoginDto, resolve_expiry_date}
use guard_me.Auth.Service.{log_in, logged_in}
use guard_me.Auth.Strategy.{handle_request, validate, finish_validate}

-- The identifier of a new session's token is one that no row has.
abbrev pub IsFreshJwt : String → List Session → Type 0
IsFreshJwt jwt_id table = (s : Session) → In s table → s.jwt_id ≢ jwt_id

module _ (db : Prisma Session) where
  -- A row with a fresh identifier, not yet expired, is the one found.
  find_active-created :
      (row : Session) (later : ℕ) (table : List Session)
      → IsFreshJwt row.jwt_id table
      → is_active later row ≡ true
      → find_active_by_jwt_id db later row.jwt_id (db.create row table) ≡ some row
  unfolding find_active_by_jwt_id
  find_active-created row later table fresh active =
      let p : Session → Bool = λ s. str_eq s.jwt_id row.jwt_id && is_active later s in
      elim (Option-cases (db.find_first p (db.create row table))) [
        | inl e ↦
            let hit : p row ≡ true =
              and_true (str_eq row.jwt_id row.jwt_id) (is_active later row)
                ((str_eq_iff row.jwt_id row.jwt_id).1 refl) active in
            let miss : p row ≡ false =
              db.find_first_none p (db.create row table) row e (db.to_create_self row table) in
            absurd (cc (hit, miss))
        | inr (s, e) ↦
            let (test, m) = db.find_first_some p (db.create row table) s e in
            let (mine, _) = and_parts (str_eq s.jwt_id row.jwt_id) (is_active later s) test in
            elim (db.of_create row table s m) [
              | inl same ↦ e ∙ ap some same
              | inr old ↦ absurd (fresh s old ((str_eq_iff s.jwt_id row.jwt_id).0 mine))
            ]
      ]

module _ {Token : Type 0} (d : AuthDeps Token) (later : ℕ) (table : List User) where
  validate-active :
      (p : JwtPayload) (session : Session) (user : User) (client : Fingerprint) (s : SessionState)
      → find_active_by_jwt_id d.sessions later p.jti s.sessions ≡ some session
      → session.user_id ≡ p.sub
      → session.ip_address ≡ client.client_ip
      → session.user_agent ≡ client.user_agent
      → find_by_id d.users.rows p.sub table ≡ some user
      → (validate d later table p client s).0
        ≡ ok (record {
          user_id = user.id;
          session_id = session.id;
          jwt_id = p.jti;
          username = user.username;
          fingerprint_matched = true;
        })
  unfolding validate finish_validate
  validate-active p session user client s e own ip agent f =
      let same : str_eq session.user_id p.sub ≡ true = (str_eq_iff session.user_id p.sub).1 own in
      let checked =
        verify_session_for_request-same_client d.users.rows d.sessions d.strict later table session
          client s ip agent in
      rw (validate, e, same, checked, finish_validate, f) refl

module _ {Token : Type 0} (d : AuthDeps Token) where
  handle_request-verified :
      (later : ℕ) (table : List User) (token : Token) (p : JwtPayload) (client : Fingerprint)
      (s : SessionState)
      → d.jwt.verify false later token ≡ some p
      → (handle_request d later table (some token) client s).0
        ≡ (validate d later table p client s).0
  unfolding handle_request
  handle_request-verified later table token p client s e = rw (handle_request, e) refl

  -- The row of the user is found again behind the log-in, with its name.
  found_again :
      (user : User) (now : ℕ) (table : List User)
      → In user table
      → HasUniqueIds table
      → (v : User) × (find_by_id d.users.rows user.id
            (update_last_auth_at d.users.rows user.id now table)
          ≡ some v)
        × (v.id ≡ user.id)
        × (v.username ≡ user.username)
  found_again user now table m unique =
      let (w, e) = find_by_id-In d.users.rows user table m in
      let (v, f, r, k, own, same) = updated_found d.users.rows user.id now table w e in
      let row : r ≡ user = unique r user k m own in
      (
        v,
        f,
        ap (λ (u : User). u.id) same ∙ own,
        ap (λ (u : User). u.username) same ∙ ap (λ (u : User). u.username) row,
      )

module _ {Token Buffer : Type 0} (d : AuthDeps Token) where
  -- Logging in with the right password works: it gives a cookie with which the guard lets in the
  -- same user from the same client, with a matching fingerprint, until the session's row or the
  -- token has expired. User identifiers are unique, and the new session's identifier is fresh.
  pub log_in-handle_request :
      (dto : LoginDto) (client : Fingerprint) (jwt_id session_id : String) (now later : ℕ)
      (s : DashboardState Buffer) (user : User)
      → find_by_username d.users.rows dto.username s.users ≡ some user
      → verify_password_timing_safe d.password_matches dto.password (some user.password_hash) ≡ true
      → HasUniqueIds s.users
      → IsFreshJwt jwt_id s.store.sessions
      → now ≤ later
      → later < resolve_expiry_date d.expires_in now
      → later / 1000 < now / 1000 + d.jwt.seconds d.expires_in
      → (profile : PublicUserProfile) × (token : Token) × (after : DashboardState Buffer) × (log_in
            d dto client jwt_id session_id now s
          ≡ (ok (profile, set_cookie token (resolve_expiry_date d.expires_in now)), after))
        × ((handle_request d later after.users (some token) client after.store).0
            ≡ ok (record {
              user_id = user.id;
              session_id = session_id;
              jwt_id = jwt_id;
              username = user.username;
              fingerprint_matched = true;
            }))
  unfolding log_in logged_in create
  log_in-handle_request dto client jwt_id session_id now later s user e right unique fresh behind
        early live =
      let m = find_by_username-In d.users.rows dto.username s.users user e in
      let payload : JwtPayload = record { sub = user.id; jti = jwt_id } in
      let after : DashboardState Buffer = (logged_in d user client jwt_id session_id now s).1 in
      let (v, f, own, name) = found_again d user now s.users m unique in
      let row : Session = record {
        id = session_id;
        user_id = user.id;
        jwt_id = jwt_id;
        ip_address = client.client_ip;
        user_agent = client.user_agent;
        expires_at = resolve_expiry_date d.expires_in now;
        revoked_at = none;
        last_verified_at = now;
        created_at = now;
      } in
      let active =
        find_active-created d.sessions row later s.store.sessions fresh (lt→ltb later _ early) in
      let valid =
        validate-active d later after.users payload row v client after.store active refl refl refl
          f in
      (
        to_public_profile (set_last_auth_at d.users.rows now user),
        d.jwt.sign d.expires_in now payload,
        after,
        rw (log_in, e, right) refl,
        handle_request-verified d later after.users (d.jwt.sign d.expires_in now payload) payload
              client after.store (d.jwt.verify-sign d.expires_in now later payload behind live)
            ∙ valid
            ∙ rw (own, name) refl,
      )
