-- ===== src/Proxy/BypassToken/OneShot.antt =====
-- A token that was accepted is never accepted again, under any sequence of requests.
use guard_me.Prelude.{
  leb, leb→le, ℕ, ◌+◌, ◌≤◌, ◌<◌, ◌≡◌, ap, sym, ◌∙◌, inl, inr, Bool, true, false, none, some, List,
  [], ◌∷◌, arith, All, String, string_eq, str_eq_iff, Option-cases, Bool-cases,
}
use guard_me.Proxy.BypassToken.{
  BypassTokenPayload, BypassJwt, Consumed, purge_consumed, consume, verify_and_consume, sign,
}

-- One request with a bypass token.
pub record Attempt : Type 0 where
  pub now : ℕ
  pub token : String
  pub url : String
  pub user_id : String
  pub session_id : String

module _ (lifetime : ℕ) (jwt : BypassJwt) where
  abbrev pub attempt : Attempt → Consumed → Bool × Consumed
  attempt a = verify_and_consume lifetime jwt a.now a.token a.url a.user_id a.session_id

  unfoldable pub attempts : List Attempt → Consumed → Consumed
  attempts [] m = m
  attempts (a ∷ as') m = attempts as' (attempt a m).1

  abbrev pub IsAccepted : Attempt → Consumed → BypassTokenPayload → Consumed → Type 0
  IsAccepted a m p m' =
      (p.typ ≡ "guardme_bypass")
      × (p.sub ≡ a.user_id)
      × (p.sid ≡ a.session_id)
      × (p.url ≡ a.url)
      × (m p.jti ≡ none)
      × (m' p.jti ≡ some (a.now + lifetime))

  consume-IsAccepted :
      (a : Attempt) (m : Consumed) (p : BypassTokenPayload)
      → (consume lifetime jwt a.now a.url a.user_id a.session_id m p).0 ≡ true
      → IsAccepted a m p (consume lifetime jwt a.now a.url a.user_id a.session_id m p).1
  unfolding consume
  consume-IsAccepted a m p h = ground (
    arith,
    str_eq_iff p.typ "guardme_bypass",
    str_eq_iff p.sub a.user_id,
    str_eq_iff p.sid a.session_id,
    str_eq_iff p.url a.url,
    str_eq_iff p.jti p.jti,
  )

  attempt-verified :
      (a : Attempt) (m : Consumed) (p : BypassTokenPayload)
      → jwt.verify a.now a.token ≡ some p
      → attempt a m
        ≡ consume lifetime jwt a.now a.url a.user_id a.session_id
            (purge_consumed lifetime jwt a.now m)
            p
  unfolding verify_and_consume
  attempt-verified a m p e = rw (e, verify_and_consume)

  -- What an accepted request has shown.
  pub attempt-IsAccepted :
      (a : Attempt) (m : Consumed)
      → (attempt a m).0 ≡ true
      → (p : BypassTokenPayload) × (jwt.verify a.now a.token ≡ some p)
        × IsAccepted a (purge_consumed lifetime jwt a.now m) p (attempt a m).1
  attempt-IsAccepted a m h = elim (Option-cases (jwt.verify a.now a.token)) [
    | inl e ↦ absurd (unfold verify_and_consume in cc)
    | inr (p, e) ↦ (
      p,
      e,
      rw (attempt-verified a m p e) (
          consume-IsAccepted a (purge_consumed lifetime jwt a.now m) p
            (rw (attempt-verified a m p e) at h)),
    )
  ]

  attempt-keeps :
      (a : Attempt) (m : Consumed) (j : String) (e now : ℕ)
      → m j ≡ some e
      → now < e
      → a.now ≤ now
      → (attempt a m).1 j ≡ some e
  unfolding verify_and_consume consume
  attempt-keeps a m j e now h fresh before = elim (Option-cases (jwt.verify a.now a.token)) [
    | inl v ↦ ground arith
    | inr (p, v) ↦ ground (arith, str_eq_iff p.jti j)
  ]

  attempts-keep :
      (as' : List Attempt) (m : Consumed) (j : String) (e now : ℕ)
      → m j ≡ some e
      → now < e
      → All (λ a. a.now ≤ now) as'
      → attempts as' m j ≡ some e
  unfolding attempts
  attempts-keep [] m j e now h fresh before = h
  attempts-keep (a ∷ as') m j e now h fresh (b, bs) =
      attempts-keep as' (attempt a m).1 j e now (attempt-keeps a m j e now h fresh b) fresh bs

  purge-keeps :
      (m : Consumed) (j : String) (e now : ℕ)
      → m j ≡ some e
      → now < e
      → purge_consumed lifetime jwt now m j ≡ some e
  unfolding purge_consumed
  purge-keeps m j e now h fresh = ground arith

  -- Once a request is accepted with a bypass token that the program signed before, every later
  -- request with that token is refused, whatever other requests come in between, none at a later
  -- time than it: a warning is passed at most once for each token that is issued.
  pub bypass_once :
      (signed : ℕ) (new_id url user_id session_id : String) (first later : Attempt) (m : Consumed)
      (between : List Attempt)
      → first.token ≡ sign lifetime jwt signed new_id url user_id session_id
      → later.token ≡ sign lifetime jwt signed new_id url user_id session_id
      → signed ≤ first.now
      → (attempt first m).0 ≡ true
      → All (λ a. a.now ≤ later.now) between
      → (attempt later (attempts between (attempt first m).1)).0 ≡ false
  unfolding sign
  bypass_once signed new_id url user_id session_id first later m between tf tl start h before =
      elim (Bool-cases (attempt later (attempts between (attempt first m).1)).0) [
        | inr refused ↦ refused
        | inl again ↦
            let (p, ep, seen) = attempt-IsAccepted first m h in
            let (q, eq, seen') =
              attempt-IsAccepted later (attempts between (attempt first m).1) again in
            let payload : BypassTokenPayload = record {
              typ = "guardme_bypass";
              sub = user_id;
              sid = session_id;
              url = url;
              jti = new_id;
            } in
            let j : q.jti ≡ p.jti =
              ap (λ (r : BypassTokenPayload). r.jti)
                (jwt.verify-sign (some lifetime) signed later.now payload q
                    (ap (jwt.verify later.now) (sym tl) ∙ eq)
                  ∙ sym (
                      jwt.verify-sign (some lifetime) signed first.now payload p
                        (ap (jwt.verify first.now) (sym tf) ∙ ep))) in
            let fresh : later.now < first.now + lifetime =
              elim (Bool-cases (leb (signed + lifetime) later.now)) [
                | inl over ↦ absurd (
                    cc (
                      jwt.verify_expired lifetime signed later.now payload (leb→le _ _ over),
                      tl,
                      eq,
                    ))
                | inr early ↦ ground (arith, early, start)
              ] in
            let here =
              purge-keeps (attempts between (attempt first m).1) p.jti (first.now + lifetime)
                later.now
                (attempts-keep between (attempt first m).1 p.jti (first.now + lifetime) later.now
                  seen.5 fresh before)
                fresh in
            absurd (
              cc (
                seen'.4,
                here,
                ap (purge_consumed lifetime jwt later.now (attempts between (attempt first m).1)) j,
              ))
      ]
