-- ===== src/Proxy/ThreatScanCache/Freshness.antt =====
-- What the cache answers after any sequence of operations: the last result that was stored for the
-- URL, until its time is over.
use guard_me.Prelude.{
  ℕ, ◌+◌, ◌≤◌, ◌≡◌, refl, ◌⊎◌, inl, inr, Option, none, some, List, [], ◌∷◌, String, string_eq,
  arith, All, leb, ltb, leb→le, Bool-cases, str_eq, str_eq_iff, if◌then◌else◌,
}
use guard_me.Threat.{ThreatScanResult}
use guard_me.Proxy.ThreatScanCache.{CacheEntry, Cache, purge_expired, get, put}

pub data Op : Type 0 where
  read : String → Op
  store : String → ThreatScanResult → Op

module _ (ttl : ℕ) where
  unfoldable pub run_op : ℕ × Op → Cache → Cache
  run_op (now, read url) m = (get now url m).1
  run_op (now, store url r) m = put ttl now url r m

  -- A history, the newest operation first.
  unfoldable pub run : List (ℕ × Op) → Cache
  run [] = λ url. none
  run (o ∷ os) = run_op o (run os)

  -- The last result stored for a URL, with its time.
  unfoldable pub last_stored : String → List (ℕ × Op) → Option (ℕ × ThreatScanResult)
  last_stored url [] = none
  last_stored url ((now, read _) ∷ os) = last_stored url os
  last_stored url ((now, store u r) ∷ os) =
      if str_eq u url then some (now, r) else last_stored url os

  -- The specification of a lookup.
  unfoldable pub fresh_result : ℕ → Option (ℕ × ThreatScanResult) → Option ThreatScanResult
  fresh_result now none = none
  fresh_result now (some (stored_at, r)) = if ltb now (stored_at + ttl) then some r else none

  -- What the cache has kept: either the entry is there, or the store is over by the time `now`.
  abbrev Keeps : ℕ → Option (ℕ × ThreatScanResult) → Option CacheEntry → Type 0
  Keeps now none entry = entry ≡ none
  Keeps now (some (stored_at, r)) entry =
      (entry ≡ some (record { result = r; expires_at = stored_at + ttl }))
      ⊎ ((entry ≡ none) × (stored_at + ttl ≤ now))

  get-purges :
      (now : ℕ) (u url : String) (m : Cache) → (get now u m).1 url ≡ purge_expired now m url
  unfolding get
  get-purges now u url m = ground (arith, str_eq_iff u url)

  Keeps-purge :
      (now later : ℕ) (o : Option (ℕ × ThreatScanResult)) (url : String) (m : Cache)
      → now ≤ later
      → Keeps later o (m url)
      → Keeps later o (purge_expired now m url)
  unfolding purge_expired
  Keeps-purge now later none url m le h = ground arith
  Keeps-purge now later (some (at, r)) url m le (inr (h, over)) = inr (ground arith, over)
  Keeps-purge now later (some (at, r)) url m le (inl h) = elim (Bool-cases (leb (at + ttl) now)) [
    | inl e ↦ inr (ground arith, omega (arith, leb→le (at + ttl) now e))
    | inr e ↦ inl (ground arith)
  ]

  Keeps-read :
      (now later : ℕ) (u url : String) (m : Cache) (o : Option (ℕ × ThreatScanResult))
      → now ≤ later
      → Keeps later o (m url)
      → Keeps later o ((get now u m).1 url)
  Keeps-read now later u url m o le h =
      rw (get-purges now u url m) (Keeps-purge now later o url m le h)

  run-Keeps :
      (later : ℕ) (url : String) (os : List (ℕ × Op))
      → All (λ o. o.0 ≤ later) os
      → Keeps later (last_stored url os) (run os url)
  unfolding run run_op last_stored put
  run-Keeps later url [] h = refl
  run-Keeps later url ((now, read u) ∷ os) (le, h) =
      Keeps-read now later u url (run os) (last_stored url os) le (run-Keeps later url os h)
  run-Keeps later url ((now, store u r) ∷ os) (le, h) = elim (Bool-cases (str_eq u url)) [
    | inl e ↦ rw e (inl refl)
    | inr e ↦ rw e (run-Keeps later url os h)
  ]

  -- After any history of lookups and stores, none of them later than now, a lookup answers the
  -- result that was stored last for its URL if it was stored less than the time to live ago, and
  -- nothing otherwise: purging never loses a result that is fresh nor keeps one that is not.
  pub get-run :
      (now : ℕ) (url : String) (os : List (ℕ × Op))
      → All (λ o. o.0 ≤ now) os
      → (get now url (run os)).0 ≡ fresh_result now (last_stored url os)
  unfolding get fresh_result purge_expired
  get-run now url os h = go (last_stored url os) (run-Keeps now url os h)
    where
      go :
          (o : Option (ℕ × ThreatScanResult))
          → Keeps now o (run os url)
          → (get now url (run os)).0 ≡ fresh_result now o
      go none k = ground arith
      go (some (at, r)) (inl k) = ground arith
      go (some (at, r)) (inr (k, over)) = ground arith
