-- ===== src/Auth/LoggedOut.antt =====
-- What logging out ends: auth/auth.service.ts with the guard of auth/strategies/jwt.strategy.ts.
use guard_me.Prelude.{
  ℕ, ◌≡◌, ◌≢◌, refl, ap, ◌∙◌, inl, inr, Bool, true, false, Option, none, some, List, All, ok, arith,
  Option-cases, str_ne, if◌then◌else◌,
}
use guard_me.Users.{User}
use guard_me.Sessions.{
  Session, SessionState, Fingerprint, JwtPayload, Identity, find_active_by_jwt_id, revoke_by_jwt_id,
}
use guard_me.Sessions.Revocation.{SessionOp, IsOther, apply_ops, revoke_by_jwt_id-final}
use guard_me.Auth.{DashboardState, AuthDeps}
use guard_me.Auth.Service.{log_out, forget_user, payload_user, revoke_payload, rotate}
use guard_me.Auth.Strategy.{handle_request, validate}

module _ {Token Buffer : Type 0} (d : AuthDeps Token) where
  forget_user-store :
      (user : Option User) (now : ℕ) (s : DashboardState Buffer)
      → (forget_user d user now s).store ≡ s.store
  unfolding forget_user
  forget_user-store none now s = refl
  forget_user-store (some user) now s = ground arith

  revoke_payload-sessions :
      (p : JwtPayload) (now : ℕ) (s : DashboardState Buffer)
      → p.jti ≢ ""
      → (revoke_payload d (some p) now s).store.sessions
        ≡ revoke_by_jwt_id d.sessions now p.jti s.store.sessions
  unfolding revoke_payload
  revoke_payload-sessions p now s ne =
      let full = str_ne p.jti "" ne in
      ap
        (λ (b : Bool).
          (if b then s else record s {
            store = record s.store {
              sessions = revoke_by_jwt_id d.sessions now p.jti s.store.sessions;
            };
          }).store.sessions)
        full

  log_out-sessions :
      (token : Token) (now : ℕ) (s : DashboardState Buffer) (p : JwtPayload)
      → d.jwt.verify true now token ≡ some p
      → p.jti ≢ ""
      → (log_out d (some token) now s).1.store.sessions
        ≡ revoke_by_jwt_id d.sessions now p.jti s.store.sessions
  unfolding log_out rotate
  log_out-sessions token now s p e ne =
      let payload = d.jwt.verify true now token in
      ap (λ (st : SessionState). st.sessions)
        (forget_user-store (payload_user d payload s.users) now
          (rotate (revoke_payload d payload now s)))
      ∙ ap (λ q. (rotate (revoke_payload d q now s)).store.sessions) e
      ∙ revoke_payload-sessions p now s ne

module _ {Token : Type 0} (d : AuthDeps Token) (now : ℕ) (table : List User) where
  validate-revoked :
      (p : JwtPayload) (client : Fingerprint) (s : SessionState) (u : Identity)
      → find_active_by_jwt_id d.sessions now p.jti s.sessions ≡ none
      → (validate d now table p client s).0 ≢ ok u
  unfolding validate
  validate-revoked p client s u e h = cc

  -- A request that the guard lets in shows a token that is verified, and `validate` accepted it.
  pub handle_request-ok :
      (token : Token) (client : Fingerprint) (s : SessionState) (u : Identity)
      → (handle_request d now table (some token) client s).0 ≡ ok u
      → (p : JwtPayload) × (d.jwt.verify false now token ≡ some p)
        × ((validate d now table p client s).0 ≡ ok u)
  unfolding handle_request
  handle_request-ok token client s u h = elim (Option-cases (d.jwt.verify false now token)) [
    | inl e ↦ absurd (cc)
    | inr (p, e) ↦ (p, e, cc)
  ]

module _ {Token Buffer : Type 0} (d : AuthDeps Token) where
  -- The sessions after a log-out and other operations on them.
  abbrev pub store_after : Token → ℕ → DashboardState Buffer → List SessionOp → SessionState
  store_after token now s ops =
      let store = (log_out d (some token) now s).1.store in
      record store { sessions = apply_ops d.sessions ops store.sessions }

  -- Logging out is final: the guard never lets in the cookie that a user has logged out with, also
  -- one that had expired, at any time and from any client, after any operations on the sessions
  -- that create none with the same identifier anew, if that identifier is not empty.
  pub log_out-final :
      (token : Token) (now later : ℕ) (client : Fingerprint) (ops : List SessionOp)
      (s : DashboardState Buffer) (table : List User) (u : Identity)
      → ((p : JwtPayload)
          → d.jwt.verify true now token ≡ some p
          → (p.jti ≢ "") × All (IsOther p.jti) ops)
      → (handle_request d later table (some token) client (store_after token now s ops)).0 ≢ ok u
  log_out-final token now later client ops s table u named h =
      let (p, verified, valid) =
        handle_request-ok d later table token client (store_after token now s ops) u h in
      let known = d.jwt.verify_ignoring false later now token p verified in
      let (ne, others) = named p known in
      let ended =
        ap
          (λ (t : List Session).
            find_active_by_jwt_id d.sessions later p.jti (apply_ops d.sessions ops t))
          (log_out-sessions d token now s p known ne)
        ∙ revoke_by_jwt_id-final d.sessions now later p.jti ops s.store.sessions others in
      validate-revoked d later table p client (store_after token now s ops) u ended valid
