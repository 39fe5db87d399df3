-- ===== src/Proxy/ThreatScanCache.antt =====
-- proxy/threat-scan-cache.service.ts: results of scans by URL, for a time.
pub mod Freshness
use guard_me.Prelude.{
  ℕ, ◌+◌, Bool, Option, none, some, String, Map, string_eq, set, delete, delete_if, leb,
  if◌then◌else◌,
}
use guard_me.Threat.{ThreatScanResult}

pub record CacheEntry : Type 0 where
  pub result : ThreatScanResult
  pub expires_at : ℕ

abbrev pub Cache : Type 0
Cache = Map String CacheEntry

unfoldable pub purge_expired : ℕ → Cache → Cache
purge_expired now = delete_if (λ entry. leb entry.expires_at now)

-- The answer, and the cache that is left.
unfoldable pub get : ℕ → String → Cache → Option ThreatScanResult × Cache
unfolding purge_expired
get now url cache =
    let purged = purge_expired now cache in
    elim (purged url) [
      | none ↦ (none, purged)
      | some entry ↦
          if leb entry.expires_at now
          then (none, delete purged url)
          else (some entry.result, purged)
    ]

-- `ttl` is `proxyConfig.threatCacheTtlMs()`.
unfoldable pub put : ℕ → ℕ → String → ThreatScanResult → Cache → Cache
put ttl now url result cache = set cache url (record { result = result; expires_at = now + ttl })
