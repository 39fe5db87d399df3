-- ===== src/Websocket/Doors.antt =====
-- Three ways in, one rule: ws-auth.service.ts, the dashboard's guard of jwt.strategy.ts, and the log-in
-- by token of modules/proxy/proxy-auth.service.ts.
use guard_me.Prelude.{
  ℕ, ◌≡◌, ◌≢◌, ◌↔◌, refl, sym, ap, ◌∙◌, ◌++◌, inl, inr, Bool, false, not, Option, none, some, List,
  [], ◌∷◌, String, Result, ok, err, http, Exception, Option-cases, str_eq, if◌then◌else◌,
}
use mathlib.Core.Path.{subst}
use guard_me.Text.{Text, split, trim, has_unit}
use guard_me.Text.Laws.{eq_refl}
use guard_me.Text.Printing.{to_string}
use guard_me.Text.Splitting.{IsFree, split-append, join-split}
use guard_me.Proxy.RateLimit.{Failures}
use guard_me.Sessions.ProxyAuth.Request.{ProxyRequest, client_of, authenticate_request}
use guard_me.Users.{User}
use guard_me.Sessions.{
  Session, SessionState, Fingerprint, JwtPayload, Identity, find_active_by_jwt_id,
  verify_session_for_request,
}
use guard_me.Sessions.ProxyAuth.{
  AuthServices, AuthState, authenticate, authenticate_with_session_token, finish_token,
}
use guard_me.Auth.{AuthDeps}
use guard_me.Auth.Strategy.{handle_request, validate, finish_validate}
use guard_me.Websocket.{
  UriDecoder, finish_socket, check_socket_session, find_cookie, cookie_parts, extract_cookie_token,
  authenticate_socket,
}

-- Two ends let in the same user, and leave the same state.
abbrev pub AreAlike : Result Identity × SessionState → Result Identity × SessionState → Type 0
AreAlike a b = ((u : Identity) → (a.0 ≡ ok u) ↔ (b.0 ≡ ok u)) × (a.1 ≡ b.1)

abbrev pub Outcome : Type 0
Outcome = Result Identity × SessionState

alike-refused :
    (a b : Outcome) (e f : Exception) (s : SessionState)
    → a ≡ (err e, s)
    → b ≡ (err f, s)
    → AreAlike a b
alike-refused a b e f s h k = let both : a.1 ≡ b.1 = cc in ((λ u. ((λ p. cc), (λ p. cc))), both)

alike-same : (a b c : Outcome) → a ≡ c → b ≡ c → AreAlike a b
alike-same a b c h k = let both : a.1 ≡ b.1 = cc in ((λ u. ((λ p. cc), (λ p. cc))), both)

-- The services of the proxy that share the tables, and take a token for what the dashboard does.
abbrev pub services_of :
    AuthDeps Text → (verify : ℕ → String → Option JwtPayload) → (limit ttl : ℕ) → AuthServices
services_of d verify limit ttl = record {
  verify = verify;
  password_matches = d.password_matches;
  users = d.users.rows;
  sessions = d.sessions;
  strict = d.strict;
  limit = limit;
  ttl = ttl;
}

module _ (d : AuthDeps Text) (now : ℕ) (table : List User) (client : Fingerprint)
    (s : SessionState) where
  guard_refused :
      (token : Text)
      → d.jwt.verify false now token ≡ none
      → handle_request d now table (some token) client s ≡ (err (http 401 "Unauthorized"), s)
  unfolding handle_request
  guard_refused token f = rw (handle_request, f) refl

  guard_validates :
      (token : Text) (p : JwtPayload)
      → d.jwt.verify false now token ≡ some p
      → handle_request d now table (some token) client s ≡ validate d now table p client s
  unfolding handle_request
  guard_validates token p f = rw (handle_request, f) refl

  finish_socket-eq :
      (p : JwtPayload) (session : Session) (checked : Result Bool × SessionState)
      → finish_socket d now table p session checked ≡ finish_validate d now table p session checked
  unfolding finish_socket finish_validate
  finish_socket-eq p session (err e, store) = refl
  finish_socket-eq p session (ok matched, store) = refl

  -- The websocket's own checks on a payload let in whom those of the guard do.
  socket_checks :
      (p : JwtPayload)
      → check_socket_session d now table p client s ≡ validate d now table p client s
  unfolding check_socket_session validate
  socket_checks p = elim (Option-cases (find_active_by_jwt_id d.sessions now p.jti s.sessions)) [
    | inl e ↦ rw (check_socket_session, e, validate) refl
    | inr (session, e) ↦
        rw (check_socket_session, e, validate)
          (ap
            (λ (rest : Outcome).
              if not (str_eq session.user_id p.sub)
              then (err (http 401 "Session is invalid or expired"), s)
              else rest)
            (finish_socket-eq p session (
              verify_session_for_request d.users.rows d.sessions d.strict now table session client
                s)))
  ]

  module _ (uri : UriDecoder) (cookie_name : Text) (header : Option Text) where
    socket_refused :
        (c : ℕ) (token : Text)
        → extract_cookie_token uri cookie_name header ≡ ok (some (c ∷ token))
        → d.jwt.verify false now (c ∷ token) ≡ none
        → authenticate_socket uri cookie_name d now table header client s
          ≡ (err (http 401 "Invalid session token"), s)
    unfolding authenticate_socket
    socket_refused c token e f = rw (authenticate_socket, e, f) refl

    socket_validates :
        (c : ℕ) (token : Text) (p : JwtPayload)
        → extract_cookie_token uri cookie_name header ≡ ok (some (c ∷ token))
        → d.jwt.verify false now (c ∷ token) ≡ some p
        → authenticate_socket uri cookie_name d now table header client s
          ≡ validate d now table p client s
    unfolding authenticate_socket
    socket_validates c token p e f = rw (authenticate_socket, e, f) (socket_checks p)

    socket-alike :
        (token : Text)
        → extract_cookie_token uri cookie_name header ≡ ok (some token)
        → token ≢ []
        → AreAlike
            (authenticate_socket uri cookie_name d now table header client s)
            (handle_request d now table (some token) client s)
    socket-alike [] e ne = absurd (ne refl)
    socket-alike (c ∷ token) e ne = elim (Option-cases (d.jwt.verify false now (c ∷ token))) [
      | inl f ↦ alike-refused _ _ _ _ s (socket_refused c token e f) (guard_refused (c ∷ token) f)
      | inr (p, f) ↦
          alike-same _ _ _ (socket_validates c token p e f) (guard_validates (c ∷ token) p f)
    ]

  module _ (verify : ℕ → String → Option JwtPayload) (limit ttl : ℕ) where
    finish_token-eq :
        (p : JwtPayload) (session : Session) (checked : Result Bool × SessionState)
        → finish_token (services_of d verify limit ttl) now table p session checked
          ≡ finish_validate d now table p session checked
    unfolding finish_token finish_validate
    finish_token-eq p session (err e, store) = refl
    finish_token-eq p session (ok matched, store) = refl

    proxy_validates :
        (proxy_token : String) (p : JwtPayload)
        → verify now proxy_token ≡ some p
        → authenticate_with_session_token
            (services_of d verify limit ttl)
            now
            table
            proxy_token
            client
            s
          ≡ validate d now table p client s
    unfolding authenticate_with_session_token validate
    proxy_validates proxy_token p f =
        elim (Option-cases (find_active_by_jwt_id d.sessions now p.jti s.sessions)) [
          | inl e ↦ rw (authenticate_with_session_token, f, validate, e) refl
          | inr (session, e) ↦
              rw (authenticate_with_session_token, f, validate, e)
                (ap
                  (λ (rest : Outcome).
                    if not (str_eq session.user_id p.sub)
                    then (err (http 401 "Session is invalid or expired"), s)
                    else rest)
                  (finish_token-eq p session (
                    verify_session_for_request d.users.rows d.sessions d.strict now table session
                      client s)))
        ]

    proxy_refused :
        (proxy_token : String)
        → verify now proxy_token ≡ none
        → authenticate_with_session_token
            (services_of d verify limit ttl)
            now
            table
            proxy_token
            client
            s
          ≡ (err (http 401 "Invalid session token"), s)
    unfolding authenticate_with_session_token
    proxy_refused proxy_token f = rw (authenticate_with_session_token, f) refl

    proxy-alike :
        (token : Text) (proxy_token : String)
        → verify now proxy_token ≡ d.jwt.verify false now token
        → AreAlike
            (authenticate_with_session_token
              (services_of d verify limit ttl)
              now
              table
              proxy_token
              client
              s)
            (handle_request d now table (some token) client s)
    proxy-alike token proxy_token e = elim (Option-cases (d.jwt.verify false now token)) [
      | inl f ↦ alike-refused _ _ _ _ s (proxy_refused proxy_token (e ∙ f)) (guard_refused token f)
      | inr (p, f) ↦
          alike-same _ _ _ (proxy_validates proxy_token p (e ∙ f)) (guard_validates token p f)
    ]

-- The result of the proxy, and the sessions and events that it leaves.
abbrev pub store_of : Result Identity × AuthState → Outcome
store_of end = (end.0, end.1.store)

-- A token in its cookie is all that the proxy looks at.
by_cookie :
    (services : AuthServices) (now : ℕ) (table : List User) (s : SessionState) (failures : Failures)
    (decode : Text → Text) (uri : UriDecoder) (cookie_name token : Text) (req : ProxyRequest)
    → extract_cookie_token uri cookie_name req.cookie ≡ ok (some token)
    → str_eq (to_string token) "" ≡ false
    → store_of (
        authenticate_request decode uri cookie_name services now table req
          (record { store = s; failures = failures }))
      ≡ authenticate_with_session_token services now table (to_string token) (client_of req) s
unfolding authenticate_request authenticate
by_cookie services now table s failures decode uri cookie_name token req e full =
    rw (authenticate_request, e, authenticate, full) refl

split_free : (sep : ℕ) (s : Text) → IsFree sep s → split sep s ≡ s ∷ []
unfolding split
split_free sep [] f = refl
split_free sep (c ∷ s) (e, f) = rw (e, split_free sep s f) refl

-- A header whose only cookie is the session's: its text has no semicolon and no space around it, its
-- name no =, and the token, which is not empty, no %.
abbrev pub IsPlainCookie : (cookie_name token : Text) → Type 0
IsPlainCookie cookie_name token =
    IsFree 59 (cookie_name ++ (61 ∷ token))
    × (trim (cookie_name ++ (61 ∷ token)) ≡ cookie_name ++ (61 ∷ token))
    × IsFree 61 cookie_name
    × (has_unit 37 token ≡ false)
    × (token ≢ [])

full_header :
    (uri : UriDecoder) (cookie_name name token : Text)
    → extract_cookie_token uri cookie_name (some (name ++ (61 ∷ token)))
      ≡ find_cookie uri cookie_name (split 59 (name ++ (61 ∷ token)))
unfolding extract_cookie_token
full_header uri cookie_name [] token = refl
full_header uri cookie_name (c ∷ name) token = refl

extract_cookie_token-plain :
    (uri : UriDecoder) (cookie_name token : Text)
    → IsPlainCookie cookie_name token
    → extract_cookie_token uri cookie_name (some (cookie_name ++ (61 ∷ token))) ≡ ok (some token)
unfolding find_cookie
extract_cookie_token-plain uri cookie_name token (one_cookie, trimmed, named, plain, _) =
    let parts : split 61 (cookie_name ++ (61 ∷ token)) ≡ cookie_name ∷ split 61 token =
      split-append 61 cookie_name token
      ∙ ap (λ (l : List Text). l ++ split 61 token) (split_free 61 cookie_name named) in
    full_header uri cookie_name cookie_name token
    ∙ rw
        (
          split_free 59 (cookie_name ++ (61 ∷ token)) one_cookie,
          find_cookie,
          cookie_parts,
          trimmed,
          parts,
          join-split 61 token,
          eq_refl cookie_name,
          uri.decode_plain token plain,
        )
        refl

-- The three ways in by the token of a session let in the same user or none, and leave the same
-- sessions and events: the websocket and the proxy, each for a header with the cookie alone, and the
-- dashboard for the token; where the proxy's verifier takes the token for what the dashboard takes
-- it for, and all see the same client.
pub doors_alike :
    (d : AuthDeps Text) (now : ℕ) (table : List User) (s : SessionState) (failures : Failures)
    (decode : Text → Text) (uri : UriDecoder) (cookie_name token : Text) (req : ProxyRequest)
    (verify : ℕ → String → Option JwtPayload) (limit ttl : ℕ)
    → IsPlainCookie cookie_name token
    → req.cookie ≡ some (cookie_name ++ (61 ∷ token))
    → str_eq (to_string token) "" ≡ false
    → verify now (to_string token) ≡ d.jwt.verify false now token
    → AreAlike
        (authenticate_socket uri cookie_name d now table req.cookie (client_of req) s)
        (handle_request d now table (some token) (client_of req) s)
      × AreAlike
          (store_of (
            authenticate_request decode uri cookie_name
              (services_of d verify limit ttl)
              now
              table
              req
              (record { store = s; failures = failures })))
          (handle_request d now table (some token) (client_of req) s)
doors_alike d now table s failures decode uri cookie_name token req verify limit ttl plain sent full
      f =
    let extracted : extract_cookie_token uri cookie_name req.cookie ≡ ok (some token) =
      ap (extract_cookie_token uri cookie_name) sent
      ∙ extract_cookie_token-plain uri cookie_name token plain in
    (
      socket-alike d now table (client_of req) s uri cookie_name req.cookie token extracted plain.4,
      subst
          (λ (end : Outcome).
            AreAlike end (handle_request d now table (some token) (client_of req) s))
          (sym (
            by_cookie (services_of d verify limit ttl) now table s failures decode uri cookie_name
              token req extracted full))
          (proxy-alike d now table (client_of req) s verify limit ttl token (to_string token) f),
    )
