-- ===== src/Sessions.antt =====
-- Sessions: apps/gateway-backend/src/modules/sessions/sessions.service.ts. The tables are lists of rows behind the database interface; the
-- clock is an argument, and so is what `extractClientIp` and `extractUserAgent` read of a request.
pub mod Revocation
pub mod Fingerprints
pub mod ProxyAuth
mod Examples
use guard_me.Prelude.{
  ℕ, Bool, true, false, not, ◌&&◌, Option, none, some, List, [], ◌∷◌, ◌++◌, String, Result, ok, err,
  http, head?, ltb, str_eq, if◌then◌else◌,
}
use guard_me.Text.{Text, ◌==◌}
use guard_me.Database.{Prisma}
use guard_me.Users.{User, find_by_id}
use guard_me.Siem.{
  Metadata, MetaValue, string, walked, SecurityEventInput, fingerprint_mismatch, session_revoked,
  build_security_event_actor_metadata,
}

-- common/types/auth.types.ts
pub record JwtPayload : Type 0 where
  pub sub : String
  pub jti : String

-- AuthenticatedUser
pub record Identity : Type 0 where
  pub user_id : String
  pub session_id : String
  pub jwt_id : String
  pub username : String
  pub fingerprint_matched : Bool

pub record Session : Type 0 where
  pub id : String
  pub user_id : String
  pub jwt_id : String
  pub ip_address : Text
  pub user_agent : Text
  pub expires_at : ℕ
  pub revoked_at : Option ℕ
  pub last_verified_at : ℕ
  pub created_at : ℕ

pub record CreateSessionInput : Type 0 where
  pub user_id : String
  pub jwt_id : String
  pub ip_address : Text
  pub user_agent : Text
  pub expires_at : ℕ

-- What a request shows of the client.
pub record Fingerprint : Type 0 where
  pub client_ip : Text
  pub user_agent : Text

-- The table of the sessions, and the security events that were logged.
pub record SessionState : Type 0 where
  pub sessions : List Session
  pub events : List SecurityEventInput

abbrev pub is_not_revoked : Session → Bool
is_not_revoked s = elim s.revoked_at [ none ↦ true | some _ ↦ false ]

-- `revokedAt: null, expiresAt: { gt: now }`
abbrev pub is_active : ℕ → Session → Bool
is_active now s = is_not_revoked s && ltb now s.expires_at

-- `orderBy: { createdAt: 'desc' }`
abbrev pub is_later : Session → Session → Bool
is_later s t = ltb t.created_at s.created_at

abbrev pub revoke_at : ℕ → Session → Session
revoke_at now s = record s { revoked_at = some now }

module _ (db : Prisma Session) where
  unfoldable pub create : CreateSessionInput → String → ℕ → List Session → List Session
  create input new_id now table =
      db.create
        (record {
          id = new_id;
          user_id = input.user_id;
          jwt_id = input.jwt_id;
          ip_address = input.ip_address;
          user_agent = input.user_agent;
          expires_at = input.expires_at;
          revoked_at = none;
          last_verified_at = now;
          created_at = now;
        })
        table

  unfoldable pub find_active_by_jwt_id : ℕ → String → List Session → Option Session
  find_active_by_jwt_id now jwt_id table =
      db.find_first (λ s. str_eq s.jwt_id jwt_id && is_active now s) table

  -- `findFirst` with an order takes the first row of that order.
  unfoldable pub find_latest_active_for_user : ℕ → String → List Session → Option Session
  find_latest_active_for_user now user_id table =
      head? (db.find_many (λ s. str_eq s.user_id user_id && is_active now s) is_later table)

  unfoldable pub revoke_by_jwt_id : ℕ → String → List Session → List Session
  revoke_by_jwt_id now jwt_id table =
      db.update_many (λ s. str_eq s.jwt_id jwt_id && is_not_revoked s) (revoke_at now) table

  unfoldable pub revoke_all_for_user : ℕ → String → List Session → List Session
  revoke_all_for_user now user_id table =
      db.update_many (λ s. str_eq s.user_id user_id && is_not_revoked s) (revoke_at now) table

  unfoldable pub update_last_verified_at : ℕ → String → List Session → List Session
  update_last_verified_at now session_id table =
      db.update_many (λ s. str_eq s.id session_id) (λ s. record s { last_verified_at = now }) table

module _ (users : Prisma User) (db : Prisma Session) (strict : Bool) where
  unfoldable pub actor_metadata : String → List User → Metadata
  actor_metadata user_id table =
      build_security_event_actor_metadata user_id
        (elim (find_by_id users user_id table) [ none ↦ none | some u ↦ some u.username ])

  abbrev mismatch_event : Metadata → Session → Fingerprint → SecurityEventInput
  mismatch_event actor session seen = record {
    type = fingerprint_mismatch;
    message = "Session device fingerprint mismatch";
    severity = none;
    user_id = none;
    metadata =
        actor
        ++ ("sessionId", string session.id)
          ∷ ("jwtId", string session.jwt_id)
          ∷ ("expectedIp", walked session.ip_address)
          ∷ ("actualIp", walked seen.client_ip)
          ∷ ("expectedUserAgent", walked session.user_agent)
          ∷ ("actualUserAgent", walked seen.user_agent)
          ∷ [];
  }

  abbrev revoked_event : Metadata → Session → SecurityEventInput
  revoked_event actor session = record {
    type = session_revoked;
    message = "Session revoked due to fingerprint mismatch";
    severity = none;
    user_id = none;
    metadata = actor ++ ("sessionId", string session.id) ∷ ("jwtId", string session.jwt_id) ∷ [];
  }

  -- `fingerprintMatched`, or the exception behind the revocation.
  unfoldable pub verify_session_for_request :
      ℕ → List User → Session → Fingerprint → SessionState → Result Bool × SessionState
  verify_session_for_request now user_table session seen s =
      let actor = actor_metadata session.user_id user_table in
      let matched =
        session.ip_address == seen.client_ip && (session.user_agent == seen.user_agent) in
      let logged : SessionState = record s {
        events = s.events ++ mismatch_event actor session seen ∷ [];
      } in
      if matched
      then (ok true, s)
      else if strict
      then (
        err (http 401 "Session invalidated due to device mismatch"),
        record {
          sessions = revoke_by_jwt_id db now session.jwt_id s.sessions;
          events = s.events ++ mismatch_event actor session seen ∷ revoked_event actor session ∷ [];
        },
      )
      else (ok false, logged)
