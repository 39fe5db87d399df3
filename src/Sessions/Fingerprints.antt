-- ===== src/Sessions/Fingerprints.antt =====
-- sessions/sessions.service.ts: a request from where the session was opened.
use guard_me.Prelude.{ℕ, ◌≡◌, refl, Bool, true, List, ok}
use guard_me.Text.Laws.{eq_iff}
use guard_me.Database.{Prisma}
use guard_me.Users.{User}
use guard_me.Sessions.{Session, Fingerprint, SessionState, verify_session_for_request}

-- The check of the fingerprint passes and changes nothing.
pub verify_session_for_request-same_client :
    (users : Prisma User) (db : Prisma Session) (strict : Bool) (now : ℕ) (table : List User)
    (session : Session) (client : Fingerprint) (s : SessionState)
    → session.ip_address ≡ client.client_ip
    → session.user_agent ≡ client.user_agent
    → verify_session_for_request users db strict now table session client s ≡ (ok true, s)
unfolding verify_session_for_request
verify_session_for_request-same_client users db strict now table session client s ip agent =
    let same_ip = (eq_iff session.ip_address client.client_ip).1 ip in
    let same_agent = (eq_iff session.user_agent client.user_agent).1 agent in
    rw (same_ip, same_agent) refl
