-- ===== src/Sessions/Examples.antt =====
-- Log-ins at a concrete table, and the theorems applied there.
use guard_me.Prelude.{
  ◌≡◌, refl, ◌≢◌, true, none, some, List, [], ◌∷◌, String, ok, arith, find, filter, str_eq,
  str_eq_iff, if◌then◌else◌,
}
use guard_me.Text.{Text, text, ◌==◌, split, trim, trim_start, trim_end, starts_with, to_lower_case}
use guard_me.Text.Printing.{to_string}
use guard_me.Websocket.{UriDecoder}
use guard_me.Database.Memory.{memory, sort_by}
use guard_me.Users.{User, find_by_id, find_by_username, verify_password_timing_safe}
use guard_me.Sessions.{
  Identity, Session, CreateSessionInput, Fingerprint, find_active_by_jwt_id,
  find_latest_active_for_user, revoke_by_jwt_id, update_last_verified_at,
  verify_session_for_request,
}
use guard_me.Sessions.Revocation.{
  SessionOp, created, revoked_user, verified, apply_ops, revoke_by_jwt_id-final,
}
use guard_me.Proxy.RateLimit.{is_blocked, is_expired}
use guard_me.Sessions.ProxyAuth.{
  AuthRequest, AuthState, AuthServices, finish_token, authenticate_with_session_token, finish_basic,
  log_in, check_credentials, authenticate_with_basic_credentials, authenticate,
}
use guard_me.Sessions.ProxyAuth.Request.{
  ProxyRequest, is_dotted_quad, normalize_ip, extract_client_ip, extract_user_agent, client_of,
  authenticate_request,
}
use guard_me.Sessions.ProxyAuth.Admitted.{authenticate_request-admits}
use guard_me.Sessions.ProxyAuth.Authenticated.{IsBacked, authenticate-IsBacked}

abbrev ann : User
ann = record {
  id = "ann";
  username = "Ann";
  password_hash = "h";
  kdf_salt = "salt";
  last_auth_at = none;
  created_at = 1;
}

abbrev desk : Session
desk = record {
  id = "s1";
  user_id = "ann";
  jwt_id = "j1";
  ip_address = 1 ∷ [];
  user_agent = 2 ∷ [];
  expires_at = 100;
  revoked_at = none;
  last_verified_at = 1;
  created_at = 1;
}

abbrev client : Fingerprint
client = record { client_ip = 1 ∷ []; user_agent = 2 ∷ [] }

abbrev services : AuthServices
services = record {
  verify =
      λ now token. if str_eq token "t" then some (record { sub = "ann"; jti = "j1" }) else none;
  password_matches = λ hash password. str_eq password "secret";
  users = memory;
  sessions = memory;
  strict = true;
  limit = 3;
  ttl = 50;
}

abbrev start : AuthState
start = record { store = record { sessions = desk ∷ []; events = [] }; failures = λ _. none }

abbrev by_token : AuthRequest
by_token = record { cookie_token = some "t"; credentials = none; client = client }

abbrev by_password : AuthRequest
by_password = record {
  cookie_token = none;
  credentials = some (record { username = "Ann"; password = "secret" });
  client = client;
}

abbrev let_in : Identity
let_in = record {
  user_id = "ann";
  session_id = "s1";
  jwt_id = "j1";
  username = "Ann";
  fingerprint_matched = true;
}

run_log_ins : Unit {0}
unfolding memory sort_by find filter find_by_id find_by_username find_active_by_jwt_id
    find_latest_active_for_user update_last_verified_at verify_session_for_request finish_token
    authenticate_with_session_token finish_basic log_in check_credentials
    authenticate_with_basic_credentials authenticate verify_password_timing_safe is_blocked
    is_expired ◌==◌
run_log_ins = tt

token_accepted : (authenticate services 10 (ann ∷ []) by_token start).0 ≡ ok let_in
unfolding run_log_ins
token_accepted = refl

password_accepted : (authenticate services 10 (ann ∷ []) by_password start).0 ≡ ok let_in
unfolding run_log_ins
password_accepted = refl

authenticate-IsBacked_example : IsBacked services 10 (ann ∷ []) client (desk ∷ []) let_in
authenticate-IsBacked_example =
    authenticate-IsBacked services 10 (ann ∷ []) by_password start let_in password_accepted

abbrev guessed : AuthState
guessed = record start { failures = λ _. some (record { count = 3; first_attempt_at = 5 }) }

guessed_blocked : (is_blocked 3 50 10 (1 ∷ []) guessed.failures).0 ≡ true
unfolding run_log_ins
guessed_blocked = refl

abbrev other_input : CreateSessionInput
other_input = record {
  user_id = "ann";
  jwt_id = "j2";
  ip_address = [];
  user_agent = [];
  expires_at = 200;
}

abbrev later_ops : List SessionOp
later_ops = verified 20 "s1" ∷ created other_input "s2" 30 ∷ revoked_user 40 "bob" ∷ []

later_ops_other : ◌≢◌ {A = String} "j2" "j1"
later_ops_other = ground (arith, str_eq_iff "j2" "j1")

revoke_by_jwt_id-final_example :
    find_active_by_jwt_id memory 50 "j1"
      (apply_ops memory later_ops (revoke_by_jwt_id memory 10 "j1" (desk ∷ [])))
    ≡ none
revoke_by_jwt_id-final_example =
    revoke_by_jwt_id-final memory 10 50 "j1" later_ops (desk ∷ []) (tt, (later_ops_other, (tt, tt)))

abbrev uri : UriDecoder
uri = record { decode = some; decode_plain = λ t h. refl }

-- The decoder of a header that holds what it says.
abbrev plain : Text → Text
plain t = t

abbrev with_header : ProxyRequest
with_header = record {
  cookie = none;
  proxy_authorization = some (text "Basic Ann:secret");
  forwarded = none;
  ip = some (1 ∷ []);
  user_agent = some (2 ∷ []);
}

authenticate_request-admits_example :
    (authenticate_request plain uri [] services 10 (ann ∷ []) with_header start).0 ≡ ok let_in
unfolding run_log_ins client_of normalize_ip extract_client_ip extract_user_agent text to_string
    split trim trim_start trim_end starts_with to_lower_case is_dotted_quad
authenticate_request-admits_example =
    authenticate_request-admits services 10 (ann ∷ []) plain uri [] (text "Ann:secret") (text "Ann")
      (text "secret") with_header ann desk start refl refl refl (refl, (refl, (refl, tt))) refl refl
      refl refl refl refl
