-- ===== src/Auth.antt =====
-- Logging in to the dashboard: apps/gateway-backend/src/modules/auth. Its data, what it takes from
-- others, and when a session expires.
pub mod Service
pub mod Strategy
pub mod ReAuth
pub mod Expiry
pub mod LoggedIn
pub mod LoggedOut
mod Examples
use guard_me.Prelude.{
  ℕ, ◌+◌, ◌-◌, ◌*◌, ◌/◌, ◌≤◌, ◌<◌, ◌≡◌, Bool, true, false, ◌&&◌, ◌||◌, Option, none, some, List, [],
  ◌∷◌, String, Map, leb, nat_beq, if◌then◌else◌,
}
use guard_me.Text.{Text}
use guard_me.Database.{Prisma}
use guard_me.Users.{User, UserTable}
use guard_me.Sessions.{Session, SessionState, JwtPayload}

pub record LoginDto : Type 0 where
  pub username : String
  pub password : String

-- What a response does to the cookie of the session.
pub data CookieChange (Token : Type 0) : Type 0 where
  set_cookie : (value : Token) → (expires : ℕ) → CookieChange Token
  clear_cookie : CookieChange Token

pub data SessionEventType : Type 0 where
  login logout : SessionEventType

pub record SessionEventPayload : Type 0 where
  pub type : SessionEventType
  pub user_id : String
  pub username : String
  pub timestamp : ℕ

-- The state behind the handlers: the users, the sessions with the security events, the keys of the
-- vaults, the nonce of the proxy's realm, and the session events that were emitted.
pub record DashboardState (Buffer : Type 0) : Type 0 where
  pub users : List User
  pub store : SessionState
  pub keys : Map String Buffer
  pub nonce : ℕ
  pub emitted : List SessionEventPayload

-- JwtService, over what it takes for a token: `seconds` is the lifetime that `expiresIn` stands for. What is relied on: a token that
-- was signed is verified until the second in which its lifetime is over and not after it, and
-- `ignoreExpiration` leaves out that test and no other.
pub record SessionJwt (Token : Type 0) : Type 0 where
  pub seconds : Text → ℕ
  pub sign : (expires_in : Text) → (now : ℕ) → JwtPayload → Token
  pub verify : (ignore_expiration : Bool) → (now : ℕ) → Token → Option JwtPayload
  pub verify-sign :
      (expires_in : Text) (now later : ℕ) (p : JwtPayload)
      → now ≤ later
      → later / 1000 < now / 1000 + seconds expires_in
      → verify false later (sign expires_in now p) ≡ some p
  pub verify_expired :
      (expires_in : Text) (now later : ℕ) (p : JwtPayload)
      → now / 1000 + seconds expires_in ≤ later / 1000
      → verify false later (sign expires_in now p) ≡ none
  pub verify_ignoring :
      (ignore_expiration : Bool) (now later : ℕ) (token : Token) (p : JwtPayload)
      → verify ignore_expiration now token ≡ some p
      → verify true later token ≡ some p

pub record AuthDeps (Token : Type 0) : Type 0 where
  pub users : UserTable
  pub sessions : Prisma Session
  pub jwt : SessionJwt Token
  pub hash : String → String
  pub password_matches : String → String → Bool
  pub strict : Bool
  pub expires_in : Text
  pub re_auth_timeout_minutes : ℕ

-- s, m, h and d
abbrev pub is_unit : ℕ → Bool
is_unit c = nat_beq c 115 || nat_beq c 109 || nat_beq c 104 || nat_beq c 100

abbrev is_digit : ℕ → Bool
is_digit c = leb 48 c && leb c 57

-- The groups of ^(\d+)([smhd])$, behind digits that stand for `value`.
unfoldable pub match_duration : (value : ℕ) → (seen : Bool) → Text → Option (ℕ × ℕ)
match_duration value seen [] = none
match_duration value seen (c ∷ []) = if seen && is_unit c then some (value, c) else none
match_duration value seen (c ∷ d ∷ s) =
    let rest = match_duration (value * 10 + (c - 48)) true (d ∷ s) in
    if is_digit c then rest else none

unfoldable pub multipliers : ℕ → ℕ
multipliers unit =
    if nat_beq unit 115
    then 1000
    else if nat_beq unit 109
    then 60000
    else if nat_beq unit 104
    then 3600000
    else 86400000

unfoldable pub resolve_expiry_date : (expires_in : Text) → (now : ℕ) → ℕ
unfolding match_duration multipliers
resolve_expiry_date expires_in now = elim (match_duration 0 false expires_in) [
  | none ↦ now + 900000
  | some (value, unit) ↦ now + value * multipliers unit
]
