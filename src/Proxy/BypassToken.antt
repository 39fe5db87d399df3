-- ===== src/Proxy/BypassToken.antt =====
-- proxy/bypass-token.service.ts: tokens by which a user goes on past a warning. The JWT library is
-- an interface; `lifetime` is `bypassTokenExpiresMinutes()` in milliseconds.
pub mod OneShot
use guard_me.Prelude.{
  ℕ, ◌+◌, ◌≤◌, ◌<◌, ◌≡◌, Bool, true, false, not, ◌||◌, Option, none, some, String, Map, string_eq,
  set, delete_if, leb, str_eq, if◌then◌else◌,
}

pub record BypassTokenPayload : Type 0 where
  pub typ : String
  pub sub : String
  pub sid : String
  pub url : String
  pub jti : String

-- `sign` and `verify` of JwtService at a clock. `expires_in` is the option of that name, without which
-- the module's own default holds, of which nothing is known here. What is relied on: a token that
-- is verified has the payload it was signed with, and a token that was signed with an `expires_in`
-- is not verified once that time is over.
pub record BypassJwt : Type 0 where
  pub sign : (expires_in : Option ℕ) → (now : ℕ) → BypassTokenPayload → String
  pub verify : (now : ℕ) → String → Option BypassTokenPayload
  pub verify-sign :
      (expires_in : Option ℕ) (signed now : ℕ) (p q : BypassTokenPayload)
      → verify now (sign expires_in signed p) ≡ some q
      → q ≡ p
  pub verify_expired :
      (expires_in signed now : ℕ) (p : BypassTokenPayload)
      → signed + expires_in ≤ now
      → verify now (sign (some expires_in) signed p) ≡ none

abbrev pub Consumed : Type 0
Consumed = Map String ℕ

module _ (lifetime : ℕ) (jwt : BypassJwt) where
  -- `new_id` is the answer of `uuidv4()`.
  unfoldable pub sign : ℕ → String → String → String → String → String
  sign now new_id url user_id session_id =
      jwt.sign (some lifetime) now (record {
        typ = "guardme_bypass";
        sub = user_id;
        sid = session_id;
        url = url;
        jti = new_id;
      })

  unfoldable pub purge_consumed : ℕ → Consumed → Consumed
  purge_consumed now = delete_if (λ expires_at. leb expires_at now)

  unfoldable pub has : Consumed → String → Bool
  has consumed jti = elim (consumed jti) [ none ↦ false | some _ ↦ true ]

  -- The tests on a verified payload, in the order of the source.
  unfoldable pub consume :
      ℕ → String → String → String → Consumed → BypassTokenPayload → Bool × Consumed
  unfolding has
  consume now url user_id session_id consumed payload =
      if not (str_eq payload.typ "guardme_bypass")
      then (false, consumed)
      else if not (str_eq payload.sub user_id)
          || not (str_eq payload.sid session_id)
          || not (str_eq payload.url url)
      then (false, consumed)
      else if has consumed payload.jti
      then (false, consumed)
      else (true, set consumed payload.jti (now + lifetime))

  unfoldable pub verify_and_consume :
      ℕ → String → String → String → String → Consumed → Bool × Consumed
  unfolding purge_consumed
  verify_and_consume now token url user_id session_id consumed =
      let purged = purge_consumed now consumed in
      elim (jwt.verify now token) [
        | none ↦ (false, purged)
        | some payload ↦ consume now url user_id session_id purged payload
      ]
