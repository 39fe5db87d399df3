-- ===== src/Health/Cached.antt =====
-- How often VirusTotal is asked for the status: health/system-status.service.ts, one call after the
-- other.
use mathlib.Core.Path.{subst}
use guard_me.Prelude.{
  ℕ, ◌+◌, ◌<◌, ◌≡◌, refl, sym, inl, inr, Bool, true, false, Option, none, some, List, [], ◌∷◌,
  String, All, Bool-cases, ltb, lt→ltb,
}
use guard_me.Health.{SystemStatusPayload, CachedStatus, get_status}

pub record Call : Type 0 where
  pub now : ℕ
  pub finished : ℕ
  pub db_answered : Bool
  pub response : Option ℕ

-- What the calls answer, each with whether VirusTotal was asked.
unfoldable pub answers :
    String → List Call → Option CachedStatus → List (SystemStatusPayload × Bool)
answers api_key [] cached = []
answers api_key (c ∷ calls) cached =
    let (answer, next) = get_status api_key c.now c.finished c.db_answered c.response cached in
    answer ∷ answers api_key calls next

abbrev pub IsEarly : ℕ → Call → Type 0
IsEarly expires_at c = c.now < expires_at

answers_cached :
    (api_key : String) (calls : List Call) (c : CachedStatus)
    → All (IsEarly c.expires_at) calls
    → All (λ a. a ≡ (c.payload, false)) (answers api_key calls (some c))
unfolding answers get_status
answers_cached api_key [] c h = tt
answers_cached api_key (call ∷ calls) c (early, h) =
    rw (lt→ltb call.now c.expires_at early) (refl, answers_cached api_key calls c h)

asked-cached :
    (api_key : String) (c : Call) (cached : Option CachedStatus)
    → (get_status api_key c.now c.finished c.db_answered c.response cached).0.1 ≡ true
    → (get_status api_key c.now c.finished c.db_answered c.response cached).1
      ≡ some (record {
        payload = (get_status api_key c.now c.finished c.db_answered c.response cached).0.0;
        expires_at = c.finished + 30000;
      })
unfolding get_status
asked-cached api_key c none h = refl
asked-cached api_key c (some old) h = elim (Bool-cases (ltb c.now old.expires_at)) [
  | inl e ↦ cc (rw (e) at h)
  | inr e ↦ rw (e) refl
]

-- Where VirusTotal was asked for the status, every call that starts within the 30 seconds behind
-- that answer gives the same status, and asks no more.
pub get_status_quota :
    (api_key : String) (c : Call) (cached : Option CachedStatus) (calls : List Call)
    → (get_status api_key c.now c.finished c.db_answered c.response cached).0.1 ≡ true
    → All (IsEarly (c.finished + 30000)) calls
    → All
        (λ a.
          a ≡ ((get_status api_key c.now c.finished c.db_answered c.response cached).0.0, false))
        (answers api_key calls
          (get_status api_key c.now c.finished c.db_answered c.response cached).1)
get_status_quota api_key c cached calls asked early =
    let payload = (get_status api_key c.now c.finished c.db_answered c.response cached).0.0 in
    let filled : CachedStatus = record { payload = payload; expires_at = c.finished + 30000 } in
    subst
      (λ (next : Option CachedStatus). All (λ a. a ≡ (payload, false)) (answers api_key calls next))
      (sym (asked-cached api_key c cached asked)) (answers_cached api_key calls filled early)
