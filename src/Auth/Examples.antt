-- ===== src/Auth/Examples.antt =====
-- The theorems on logging in and out at work: one user, and tokens that anyone could write.
use mathlib.Core.Option.{some-injective}
use guard_me.Prelude.{
  ℕ, ◌+◌, ◌/◌, ◌≤◌, ◌<◌, ◌≡◌, ◌≢◌, ◌↔◌, refl, ap, ◌∙◌, inl, inr, Bool, true, false, ◌||◌, Option,
  none, some, [], ◌∷◌, String, ok, find, In, All, arith, ltb, str_eq, str_eq_iff, if◌then◌else◌,
}
use guard_me.Text.{Text, text}
use guard_me.Database.Memory.{memory}
use guard_me.Users.{
  User, PublicUserProfile, find_by_id, find_by_username, verify_password_timing_safe,
  verify_password_hash, update_last_auth_at,
}
use guard_me.Users.Memory.{user_table}
use guard_me.Sessions.{Fingerprint, JwtPayload, Identity}
use guard_me.Sessions.Revocation.{IsOther, revoked_user}
use guard_me.Auth.{LoginDto, set_cookie, DashboardState, SessionJwt, AuthDeps, resolve_expiry_date}
use guard_me.Auth.Service.{log_in, verify_password}
use guard_me.Auth.Strategy.{handle_request}
use guard_me.Auth.ReAuth.{can_activate, timeout_ms}
use guard_me.Auth.ReAuth.Window.{verify_password-can_activate}
use guard_me.Auth.LoggedIn.{log_in-handle_request}
use guard_me.Auth.LoggedOut.{store_after, log_out-final}

-- A token is its payload with the second in which it expires.
abbrev Token : Type 0
Token = JwtPayload × ℕ

abbrev verify : Bool → ℕ → Token → Option JwtPayload
verify ignore_expiration now (p, end) =
    if ignore_expiration || ltb (now / 1000) end then some p else none

verify_ignoring :
    (ignore_expiration : Bool) (now later : ℕ) (token : Token) (p : JwtPayload)
    → verify ignore_expiration now token ≡ some p
    → verify true later token ≡ some p
verify_ignoring ignore_expiration now later (q, end) p h = ground arith

verify-sign :
    (expires_in : Text) (now later : ℕ) (p : JwtPayload)
    → now ≤ later
    → later / 1000 < now / 1000 + 1800
    → verify false later (p, now / 1000 + 1800) ≡ some p
verify-sign expires_in now later p behind live = ground arith

verify_expired :
    (expires_in : Text) (now later : ℕ) (p : JwtPayload)
    → now / 1000 + 1800 ≤ later / 1000
    → verify false later (p, now / 1000 + 1800) ≡ none
verify_expired expires_in now later p over = ground arith

abbrev jwt : SessionJwt Token
jwt = record {
  seconds = λ _. 1800;
  sign = λ expires_in now p. (p, now / 1000 + 1800);
  verify = verify;
  verify-sign = verify-sign;
  verify_expired = verify_expired;
  verify_ignoring = verify_ignoring;
}

abbrev deps : AuthDeps Token
deps = record {
  users = user_table;
  sessions = memory;
  jwt = jwt;
  hash = λ password. password;
  password_matches = λ password_hash password. str_eq password_hash password;
  strict = true;
  expires_in = text "30m";
  re_auth_timeout_minutes = 15;
}

abbrev ann : User
ann = record {
  id = "ann";
  username = "Ann";
  password_hash = "secret";
  kdf_salt = "salt";
  last_auth_at = none;
  created_at = 1;
}

abbrev client : Fingerprint
client = record { client_ip = 1 ∷ []; user_agent = 2 ∷ [] }

abbrev start : DashboardState ℕ
start = record {
  users = ann ∷ [];
  store = record { sessions = []; events = [] };
  keys = λ _. none;
  nonce = 0;
  emitted = [];
}

abbrev her_name : LoginDto
her_name = record { username = "Ann"; password = "secret" }

found : find_by_username memory "Ann" (ann ∷ []) ≡ some ann
unfolding find_by_username memory find
found = refl

right : verify_password_timing_safe deps.password_matches "secret" (some "secret") ≡ true
unfolding verify_password_timing_safe verify_password_hash
right = refl

one_user : (x y : User) → In x (ann ∷ []) → In y (ann ∷ []) → x ≡ y
one_user x y (inl e) (inl f) = cc
one_user x y (inr m) n = elim m [ ]
one_user x y (inl e) (inr n) = elim n [ ]

half_an_hour : resolve_expiry_date (text "30m") 1000 ≡ 1801000
unfolding resolve_expiry_date text
half_an_hour = refl

log_in-handle_request_example :
    (profile : PublicUserProfile) × (token : Token) × (after : DashboardState ℕ) × (log_in deps
        her_name client "j1" "s1" 1000 start
      ≡ (ok (profile, set_cookie token (resolve_expiry_date (text "30m") 1000)), after))
    × ((handle_request deps 60000 after.users (some token) client after.store).0
        ≡ ok (record {
          user_id = "ann";
          session_id = "s1";
          jwt_id = "j1";
          username = "Ann";
          fingerprint_matched = true;
        }))
log_in-handle_request_example =
    log_in-handle_request deps her_name client "j1" "s1" 1000 60000 start ann found right
      (λ x y m n _. one_user x y m n) (λ s m. elim m [ ]) (omega arith)
      (rw (half_an_hour) (omega arith)) (omega arith)

abbrev her_token : Token
her_token = (record { sub = "ann"; jti = "j1" }, 5)

not_empty : ◌≢◌ {A = String} "j1" ""
not_empty h = ground (arith, str_eq_iff "j1" "")

named :
    (p : JwtPayload)
    → some her_token.0 ≡ some p
    → (p.jti ≢ "") × All (IsOther p.jti) (revoked_user 3000 "bob" ∷ [])
named p e =
    let same : ◌≡◌ {A = String} "j1" p.jti =
      ap (λ (q : JwtPayload). q.jti) (some-injective her_token.0 p e) in
    ((λ h. not_empty (same ∙ h)), (tt, tt))

log_out-final_example :
    (handle_request deps 4000
      (ann ∷ [])
      (some her_token)
      client
      (store_after deps her_token 2000 start (revoked_user 3000 "bob" ∷ []))).0
    ≢ ok (record {
      user_id = "ann";
      session_id = "s1";
      jwt_id = "j1";
      username = "Ann";
      fingerprint_matched = true;
    })
log_out-final_example =
    log_out-final deps her_token 2000 4000 client (revoked_user 3000 "bob" ∷ []) start (ann ∷ []) _
      named

abbrev her : Identity
her = record {
  user_id = "ann";
  session_id = "s1";
  jwt_id = "j1";
  username = "Ann";
  fingerprint_matched = true;
}

abbrev verified : DashboardState ℕ
verified = record start { users = record ann { last_auth_at = some 1000 } ∷ [] }

her_password : verify_password deps her "secret" client 1000 start ≡ (ok 1000, verified)
unfolding verify_password verify_password_hash update_last_auth_at find_by_id memory find
her_password = refl

verify_password-can_activate_example :
    ((can_activate deps (some her) 2000 verified).0 ≡ ok true) ↔ (2000 ≤ 1000 + timeout_ms deps)
verify_password-can_activate_example =
    verify_password-can_activate deps her "secret" client 1000 2000 1000 start verified her_password
      (omega arith)
