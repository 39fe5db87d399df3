-- ===== src/Sessions/ProxyAuth/Authenticated.antt =====
-- Who gets in, and who does not.
use guard_me.Prelude.{
  ℕ, ◌≡◌, refl, sym, ◌∙◌, ◌⊎◌, inl, inr, Bool, true, false, Option, none, some, List, [], ◌∷◌,
  String, Result, ok, err, http, arith, In, ◌≢◌, Bool-cases, Option-cases, and_parts, head?, str_eq,
  str_eq_iff,
}
use guard_me.Text.{Text}
use guard_me.Text.Laws.{eq_iff}
use guard_me.Users.{User, find_by_id, find_by_username, verify_password_timing_safe}
use guard_me.Sessions.{
  JwtPayload, Identity, Session, Fingerprint, SessionState, is_active, is_later,
  find_active_by_jwt_id, find_latest_active_for_user, verify_session_for_request,
}
use guard_me.Proxy.RateLimit.{Failures, is_blocked}
use guard_me.Sessions.ProxyAuth.{
  BasicCredentials, AuthRequest, AuthState, AuthServices, finish_token,
  authenticate_with_session_token, finish_basic, log_in, fail, check_credentials,
  authenticate_with_basic_credentials, authenticate,
}

module _ (d : AuthServices) (now : ℕ) (table : List User) where
  -- Where the fingerprint matched, the client has the address and the browser that the session was
  -- opened from; where it did not, they differ, and the program does not insist on it.
  abbrev pub IsMatched : Fingerprint → Session → Bool → Type 0
  IsMatched client session matched =
      ((matched ≡ true)
        × (session.ip_address ≡ client.client_ip)
        × (session.user_agent ≡ client.user_agent))
      ⊎ ((matched ≡ false)
          × (d.strict ≡ false)
          × ((session.ip_address ≡ client.client_ip) → session.user_agent ≢ client.user_agent))

  -- An active session of the user stands behind the identity, and the client is the one that the
  -- session was opened from, unless the program does not insist on that.
  abbrev pub IsBacked : Fingerprint → List Session → Identity → Type 0
  IsBacked client sessions u =
      (s : Session) × In s sessions
      × (is_active now s ≡ true)
      × (s.id ≡ u.session_id)
      × (s.user_id ≡ u.user_id)
      × IsMatched client s u.fingerprint_matched

  verify_session_for_request-IsMatched :
      (session : Session) (client : Fingerprint) (s : SessionState) (matched : Bool)
      → (verify_session_for_request d.users d.sessions d.strict now table session client s).0
        ≡ ok matched
      → IsMatched client session matched
  unfolding verify_session_for_request
  verify_session_for_request-IsMatched session client s matched h = ground (
    arith,
    eq_iff session.ip_address client.client_ip,
    eq_iff session.user_agent client.user_agent,
  )

  find_by_id-id : (id : String) (u : User) → find_by_id d.users id table ≡ some u → u.id ≡ id
  unfolding find_by_id
  find_by_id-id id u h = (str_eq_iff u.id id).0 (d.users.find_first_some _ table u h).0

  finish_token-IsBacked :
      (client : Fingerprint) (payload : JwtPayload) (session : Session)
      (checked : Result Bool × SessionState) (sessions : List Session) (u : Identity)
      → In session sessions
      → is_active now session ≡ true
      → session.user_id ≡ payload.sub
      → ((matched : Bool) → checked.0 ≡ ok matched → IsMatched client session matched)
      → (finish_token d now table payload session checked).0 ≡ ok u
      → IsBacked client sessions u
  unfolding finish_token
  finish_token-IsBacked client payload session (err e, s) sessions u m active mine matched h =
      absurd (cc)
  finish_token-IsBacked client payload session (ok b, s) sessions u m active mine matched h =
      elim (Option-cases (find_by_id d.users payload.sub table)) [
        | inl e ↦ absurd (ground arith)
        | inr (user, e) ↦
            let same : u ≡ record {
              user_id = user.id;
              session_id = session.id;
              jwt_id = payload.jti;
              username = user.username;
              fingerprint_matched = b;
            } =
              ground arith in
            rw same (
              session,
              m,
              active,
              refl,
              mine ∙ sym (find_by_id-id payload.sub user e),
              matched b refl,
            )
      ]

  finish_basic-IsBacked :
      (client : Fingerprint) (user : User) (session : Session) (key : Text) (failures : Failures)
      (checked : Result Bool × SessionState) (sessions : List Session) (u : Identity)
      → In session sessions
      → is_active now session ≡ true
      → session.user_id ≡ user.id
      → ((matched : Bool) → checked.0 ≡ ok matched → IsMatched client session matched)
      → (finish_basic d now table user session key failures checked).0 ≡ ok u
      → IsBacked client sessions u
  unfolding finish_basic
  finish_basic-IsBacked client user session key failures (err e, s) sessions u m active mine matched
        h =
      absurd (cc)
  finish_basic-IsBacked client user session key failures (ok b, s) sessions u m active mine matched
        h =
      let same : u ≡ record {
        user_id = user.id;
        session_id = session.id;
        jwt_id = session.jwt_id;
        username = user.username;
        fingerprint_matched = b;
      } =
        cc in
      rw same (session, m, active, refl, mine, matched b refl)

  active_found :
      (jwt_id : String) (sessions : List Session) (s : Session)
      → find_active_by_jwt_id d.sessions now jwt_id sessions ≡ some s
      → In s sessions × (is_active now s ≡ true)
  unfolding find_active_by_jwt_id
  active_found jwt_id sessions s h =
      let (test, m) = d.sessions.find_first_some _ sessions s h in
      (m, (and_parts (str_eq s.jwt_id jwt_id) (is_active now s) test).1)

  head-In : (xs : List Session) (s : Session) → head? xs ≡ some s → In s xs
  head-In [] s h = cc
  head-In (x ∷ xs) s h = inl (cc)

  latest_found :
      (user_id : String) (sessions : List Session) (s : Session)
      → find_latest_active_for_user d.sessions now user_id sessions ≡ some s
      → In s sessions × (is_active now s ≡ true) × (s.user_id ≡ user_id)
  unfolding find_latest_active_for_user
  latest_found user_id sessions s h =
      let (test, m) = d.sessions.of_find_many _ is_later sessions s (head-In _ s h) in
      let (mine, active) = and_parts (str_eq s.user_id user_id) (is_active now s) test in
      (m, active, (str_eq_iff s.user_id user_id).0 mine)

  token_step :
      (token : String) (client : Fingerprint) (s : SessionState) (payload : JwtPayload)
      (session : Session) {u : Identity}
      → d.verify now token ≡ some payload
      → find_active_by_jwt_id d.sessions now payload.jti s.sessions ≡ some session
      → str_eq session.user_id payload.sub ≡ true
      → (authenticate_with_session_token d now table token client s).0 ≡ ok u
      → (finish_token d now table payload session
          (verify_session_for_request d.users d.sessions d.strict now table session client s)).0
        ≡ ok u
  unfolding authenticate_with_session_token
  token_step token client s payload session e f g h = ground arith

  token-IsBacked :
      (token : String) (client : Fingerprint) (s : SessionState) (u : Identity)
      → (authenticate_with_session_token d now table token client s).0 ≡ ok u
      → IsBacked client s.sessions u
  token-IsBacked token client s u h = elim (Option-cases (d.verify now token)) [
    | inl e ↦ absurd (unfold authenticate_with_session_token in ground arith)
    | inr (payload, e) ↦
        elim (Option-cases (find_active_by_jwt_id d.sessions now payload.jti s.sessions)) [
          | inl f ↦ absurd (unfold authenticate_with_session_token in ground arith)
          | inr (session, f) ↦ elim (Bool-cases (str_eq session.user_id payload.sub)) [
            | inr g ↦ absurd (unfold authenticate_with_session_token in ground arith)
            | inl g ↦
                let (m, active) = active_found payload.jti s.sessions session f in
                finish_token-IsBacked client payload session
                  (verify_session_for_request d.users d.sessions d.strict now table session client
                    s)
                  s.sessions u m active ((str_eq_iff session.user_id payload.sub).0 g)
                  (verify_session_for_request-IsMatched session client s)
                  (token_step token client s payload session e f g h)
          ]
        ]
  ]

  log_in_step :
      (name : String) (user : User) (client : Fingerprint) (s : AuthState) (session : Session)
      {u : Identity}
      → find_latest_active_for_user d.sessions now user.id s.store.sessions ≡ some session
      → (log_in d now table name user client s).0 ≡ ok u
      → (finish_basic d now table user session client.client_ip s.failures (
          verify_session_for_request d.users d.sessions d.strict now table session client
            s.store)).0
        ≡ ok u
  unfolding log_in
  log_in_step name user client s session e h = ground arith

  log_in-IsBacked :
      (name : String) (user : User) (client : Fingerprint) (s : AuthState) (u : Identity)
      → (log_in d now table name user client s).0 ≡ ok u
      → IsBacked client s.store.sessions u
  log_in-IsBacked name user client s u h =
      elim (Option-cases (find_latest_active_for_user d.sessions now user.id s.store.sessions)) [
        | inl e ↦ absurd (unfold log_in in ground arith)
        | inr (session, e) ↦
            let (m, active, mine) = latest_found user.id s.store.sessions session e in
            finish_basic-IsBacked client user session client.client_ip s.failures
              (verify_session_for_request d.users d.sessions d.strict now table session client
                s.store)
              s.store.sessions u m active mine
              (verify_session_for_request-IsMatched session client s.store)
              (log_in_step name user client s session e h)
      ]

  credentials-IsBacked :
      (c : BasicCredentials) (client : Fingerprint) (s : AuthState) (u : Identity)
      → (check_credentials d now table c client s).0 ≡ ok u
      → IsBacked client s.store.sessions u
  credentials-IsBacked c client s u h =
      elim (Option-cases (find_by_username d.users c.username table)) [
        | inl e ↦ absurd (unfold check_credentials fail in ground arith)
        | inr (user, e) ↦
            elim (Bool-cases (
              verify_password_timing_safe d.password_matches c.password
                (some user.password_hash))) [
                  | inr f ↦ absurd (unfold check_credentials fail in ground arith)
                  | inl f ↦
                      log_in-IsBacked c.username user client s u
                        (unfold check_credentials in ground arith)
                ]
      ]

  basic_step :
      (c : BasicCredentials) (client : Fingerprint) (s : AuthState) {u : Identity}
      → (is_blocked d.limit d.ttl now client.client_ip s.failures).0 ≡ false
      → (authenticate_with_basic_credentials d now table c client s).0 ≡ ok u
      → (check_credentials d now table c client
          (record s { failures = (is_blocked d.limit d.ttl now client.client_ip s.failures).1 })).0
        ≡ ok u
  unfolding authenticate_with_basic_credentials
  basic_step c client s e h = rw (e, authenticate_with_basic_credentials) at h

  basic-IsBacked :
      (c : Option BasicCredentials) (client : Fingerprint) (s : AuthState) (u : Identity)
      → (elim c as (λ _. Result Identity × AuthState) [
        | none ↦ (err (http 401 "Proxy authentication required"), s)
        | some c ↦ authenticate_with_basic_credentials d now table c client s
      ]).0
        ≡ ok u
      → IsBacked client s.store.sessions u
  basic-IsBacked none client s u h = cc
  basic-IsBacked (some c) client s u h =
      elim (Bool-cases (is_blocked d.limit d.ttl now client.client_ip s.failures).0) [
        | inl e ↦ absurd (unfold authenticate_with_basic_credentials in ground arith)
        | inr e ↦
            let unblocked : AuthState = record s {
              failures = (is_blocked d.limit d.ttl now client.client_ip s.failures).1;
            } in
            credentials-IsBacked c client unblocked u (basic_step c client s e h)
      ]

  -- While a client's address is locked out, no password gets it in: a request without a session
  -- token in its cookie is refused, with status 429 if it has credentials.
  pub authenticate-locked_out :
      (req : AuthRequest) (s : AuthState)
      → (is_blocked d.limit d.ttl now req.client.client_ip s.failures).0 ≡ true
      → req.cookie_token ≡ none
      → ((authenticate d now table req s).0
          ≡ err (http 429 "Too many failed proxy authentication attempts"))
        ⊎ ((req.credentials ≡ none)
            × ((authenticate d now table req s).0 ≡ err (http 401 "Proxy authentication required")))
  unfolding authenticate authenticate_with_basic_credentials
  authenticate-locked_out req s blocked no_cookie = ground arith

  -- A request that is let in belongs to a session that is in the table, neither revoked nor expired,
  -- and to the user of that session. Its client is said to have matched exactly if it has the address
  -- and the browser that the session was opened from; and it has them, unless fingerprints are not
  -- enforced.
  pub authenticate-IsBacked :
      (req : AuthRequest) (s : AuthState) (u : Identity)
      → (authenticate d now table req s).0 ≡ ok u
      → IsBacked req.client s.store.sessions u
  unfolding authenticate
  authenticate-IsBacked req s u h = elim (Option-cases req.cookie_token) [
    | inl e ↦ basic-IsBacked req.credentials req.client s u (rw (e, authenticate) at h)
    | inr (token, e) ↦ elim (Bool-cases (str_eq token "")) [
      | inl f ↦ basic-IsBacked req.credentials req.client s u (rw (e, f, authenticate) at h)
      | inr f ↦ token-IsBacked token req.client s.store u (rw (e, f, authenticate) at h)
    ]
  ]
