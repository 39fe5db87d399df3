-- ===== src/Auth/ReAuth.antt =====
-- common/guards/re-auth.guard.ts: what is sensitive wants a password that was given lately. A time
-- in the row of a user is never later than the clock.
pub mod Window
use guard_me.Prelude.{
  ℕ, ◌+◌, ◌-◌, ◌*◌, Bool, true, false, Option, none, some, List, [], ◌∷◌, ◌++◌, String, Result, ok,
  err, http, ltb, if◌then◌else◌,
}
use guard_me.Siem.{MetaValue, string, number, null_value, SecurityEventInput, reauth_required}
use guard_me.Users.{User, find_by_id}
use guard_me.Sessions.{Identity}
use guard_me.Auth.{DashboardState, AuthDeps}
use guard_me.Auth.Service.{log_event}

abbrev elapsed_value : Option ℕ → MetaValue
elapsed_value none = null_value
elapsed_value (some elapsed) = number elapsed

module _ {Token : Type 0} (d : AuthDeps Token) where
  abbrev pub timeout_ms : ℕ
  timeout_ms = d.re_auth_timeout_minutes * 60 * 1000

module _ {Token Buffer : Type 0} (d : AuthDeps Token) where
  unfoldable pub log_re_auth_required :
      Identity → (elapsed : Option ℕ) → DashboardState Buffer → DashboardState Buffer
  log_re_auth_required user elapsed s =
      log_event
        (record {
          type = reauth_required;
          message = "Re-authentication required for sensitive action";
          severity = none;
          user_id = none;
          metadata =
              ("userId", string user.user_id)
              ∷ ("username", string user.username)
              ∷ ("elapsedMs", elapsed_value elapsed)
              ∷ ("timeoutMinutes", number d.re_auth_timeout_minutes)
              ∷ [];
        })
        s

  abbrev refused : Identity → Option ℕ → DashboardState Buffer → Result Bool × DashboardState Buffer
  refused user elapsed s =
      (err (http 401 "Re-authentication required"), log_re_auth_required user elapsed s)

  unfoldable pub can_activate :
      (user : Option Identity) → ℕ → DashboardState Buffer → Result Bool × DashboardState Buffer
  unfolding log_re_auth_required
  can_activate none now s = (err (http 401 "Authentication required"), s)
  can_activate (some user) now s = elim (find_by_id d.users.rows user.user_id s.users) [
    | none ↦ refused user none s
    | some row ↦ elim row.last_auth_at [
      | none ↦ refused user none s
      | some last_auth_at ↦
          if ltb (timeout_ms d) (now - last_auth_at)
          then refused user (some (now - last_auth_at)) s
          else (ok true, s)
    ]
  ]
