-- ===== src/Proxy/Pipeline/CacheSafety.antt =====
-- What the cache of scans holds while requests are handled: results of scans that took place, each
-- under its own URL.
use guard_me.Prelude.{
  ℕ, ◌≡◌, refl, sym, ◌⊎◌, inl, inr, Bool, true, false, Option, none, some, List, String, arith,
  string_eq, str_eq, str_eq_iff, Bool-cases, Option-cases, if◌then◌else◌,
}
use mathlib.Core.Path.{subst}
use guard_me.Text.{Text}
use guard_me.Siem.{SecurityEventInput}
use guard_me.Threat.{ThreatScanResult}
use guard_me.Threat.VirusTotal.Polling.{IsScanOf}
use guard_me.Threat.Service.{IsScanResult}
use guard_me.Proxy.Inspection.{InspectionResult}
use guard_me.Proxy.Inspection.FileScan.{simulate_file_scan}
use guard_me.Proxy.Policy.{PolicyResult, decide}
use guard_me.Proxy.ThreatScanCache.{CacheEntry, Cache, get, put, purge_expired}
use guard_me.Proxy.Pipeline.{
  AuthenticatedUser, Moments, ProxyState, Services, log_malicious_blocked, log_traffic, scan_anew,
  scan_with_cache,
}
use guard_me.Proxy.Pipeline.Handler.{bypass, respond_scanned, connect_scanned}

-- Every entry is a result of a scan of its URL that did not fail.
abbrev pub IsSound : Cache → Type 0
IsSound cache =
    (url : String) (entry : CacheEntry) → cache url ≡ some entry → IsScanOf url entry.result

get-IsSound :
    (now : ℕ) (url : String) (cache : Cache) → IsSound cache → IsSound (get now url cache).1
unfolding get purge_expired
get-IsSound now url cache h u entry e = h u entry (ground arith)

put-IsSound :
    (ttl now : ℕ) (url : String) (r : ThreatScanResult) (cache : Cache)
    → IsSound cache
    → IsScanOf url r
    → IsSound (put ttl now url r cache)
unfolding put
put-IsSound ttl now url r cache h k u entry e = elim (Bool-cases (str_eq url u)) [
  | inl b ↦
      let same : entry.result ≡ r = ground arith in
      let here : url ≡ u = (str_eq_iff url u).0 b in
      subst (λ (x : String). IsScanOf x entry.result) here
        (subst (λ x. IsScanOf url x) (sym same) k)
  | inr b ↦ h u entry (ground arith)
]

get_result :
    (now : ℕ) (url : String) (cache : Cache) (r : ThreatScanResult)
    → IsSound cache
    → (get now url cache).0 ≡ some r
    → IsScanOf url r
unfolding get purge_expired
get_result now url cache r h e = elim (Option-cases (cache url)) [
  | inl n ↦ absurd (ground arith)
  | inr (entry, n) ↦
      let same : entry.result ≡ r = ground arith in subst (λ x. IsScanOf url x) same (h url entry n)
]

module _ {lifetime : ℕ} (d : Services lifetime) (at : Moments) (user : AuthenticatedUser) where
  fresh_scan :
      (url : String) (r : ThreatScanResult) (events : List SecurityEventInput)
      → IsScanResult url (r, events)
      → r.metadata.fail_safe ≡ false
      → IsScanOf url r
  fresh_scan url r events (same, score, inl (live, _)) h = (same, score, h)
  fresh_scan url r events (same, score, inr (failed, _, _, _, _)) h = absurd (cc)

  abbrev pub Scanned : Type 0
  Scanned = ThreatScanResult × ProxyState

  -- The state behind a scan has a sound cache, and its result is a scan of the URL or one that failed.
  abbrev pub IsGood : String → Scanned → Type 0
  IsGood url x = IsSound x.1.cache × (IsScanOf url x.0 ⊎ (x.0.metadata.fail_safe ≡ true))

  if-IsGood :
      (b : Bool) (url : String) (x y : Scanned)
      → (b ≡ true → IsGood url x)
      → (b ≡ false → IsGood url y)
      → IsGood url (if b then x else y)
  if-IsGood true url x y h k = h refl
  if-IsGood false url x y h k = k refl

  anew-IsGood :
      (url : String) (s : ProxyState) → IsSound s.cache → IsGood url (scan_anew d at url user s)
  unfolding scan_anew
  anew-IsGood url s h =
      let scan =
        d.scanner.scan at.scanned url
          (some (record { user_id = user.user_id; username = user.username })) in
      let k =
        d.scanner.scan_result at.scanned url
          (some (record { user_id = user.user_id; username = user.username })) in
      if-IsGood scan.0.metadata.fail_safe url _ _ (λ e. (h, inr e))
        (λ e. (
          put-IsSound d.cache_ttl at.cached url scan.0 s.cache h (fresh_scan url scan.0 scan.1 k e),
          inl (fresh_scan url scan.0 scan.1 k e),
        ))

  pub cached-IsGood :
      (url : String) (s : ProxyState)
      → IsSound s.cache
      → IsGood url (scan_with_cache d at url user s)
  unfolding scan_with_cache
  cached-IsGood url s h =
      let purged : ProxyState = record s { cache = (get at.cache_read url s.cache).1 } in
      go purged (get at.cache_read url s.cache).0 (get-IsSound at.cache_read url s.cache h)
        (λ r. get_result at.cache_read url s.cache r h)
    where
      go :
          (purged : ProxyState) (cached : Option ThreatScanResult)
          → IsSound purged.cache
          → ((r : ThreatScanResult) → cached ≡ some r → IsScanOf url r)
          → IsGood url (elim cached [
            | some result ↦ (result, purged)
            | none ↦ scan_anew d at url user purged
          ])
      go purged none k f = anew-IsGood url purged k
      go purged (some r) k f = (k, inl (f r refl))

  malicious-cache :
      (policy : PolicyResult) (url : String) (s : ProxyState)
      → (log_malicious_blocked policy url user s).cache ≡ s.cache
  unfolding log_malicious_blocked
  malicious-cache policy url s = ground arith

  pub scanned-cache :
      (ip : Text) (i : InspectionResult) (s : ProxyState)
      → (respond_scanned d at user ip i s).1.cache
        ≡ (scan_with_cache d at i.normalized_url user s).1.cache
  unfolding respond_scanned log_traffic
  scanned-cache ip i s =
      let (scan, after) = scan_with_cache d at i.normalized_url user s in
      let policy = decide d.fail_closed scan (simulate_file_scan i) in
      malicious-cache policy i.normalized_url (log_traffic d at user ip i policy after)

  pub connect_scanned-cache :
      (ip : Text) (i : InspectionResult) (s : ProxyState)
      → (connect_scanned d at user ip i s).1.cache
        ≡ (scan_with_cache d at i.normalized_url user s).1.cache
  unfolding connect_scanned log_traffic
  connect_scanned-cache ip i s =
      let (scan, after) = scan_with_cache d at i.normalized_url user s in
      let policy = decide d.fail_closed scan none in
      malicious-cache policy i.normalized_url (log_traffic d at user ip i policy after)

  pub bypass-cache :
      (i : InspectionResult) (s : ProxyState) → (bypass d at user i s).1.cache ≡ s.cache
  unfolding bypass
  bypass-cache i s = ground arith

  pub logged-cache :
      (ip : Text) (i : InspectionResult) (policy : PolicyResult) (s : ProxyState)
      → (log_traffic d at user ip i policy s).cache ≡ s.cache
  unfolding log_traffic
  logged-cache ip i policy s = refl
