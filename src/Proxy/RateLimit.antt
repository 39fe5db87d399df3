-- ===== src/Proxy/RateLimit.antt =====
-- proxy/proxy-rate-limit.service.ts: failed proxy log-ins by client address. Every operation reads
-- the clock once; `limit` and `ttl` are `throttleConfig.authLimit()` and `ttlMs()`.
pub mod Lockout
use guard_me.Prelude.{
  ℕ, ◌+◌, ◌-◌, Bool, true, false, Option, none, some, Map, set, delete, delete_if, ltb, leb,
  if◌then◌else◌,
}
use guard_me.Text.{Text}
use guard_me.Text.Laws.{text_eq}

pub record FailureWindow : Type 0 where
  pub count : ℕ
  pub first_attempt_at : ℕ

abbrev pub Failures : Type 0
Failures = Map Text FailureWindow

module _ (limit ttl : ℕ) where
  unfoldable pub is_expired : ℕ → FailureWindow → Bool
  is_expired now window = ltb ttl (now - window.first_attempt_at)

  -- The answer, and the map, from which a window that is over is dropped.
  unfoldable pub is_blocked : ℕ → Text → Failures → Bool × Failures
  is_blocked now key failures = elim (failures key) [
    | none ↦ (false, failures)
    | some window ↦
        if is_expired now window
        then (false, delete failures key)
        else (leb limit window.count, failures)
  ]

  unfoldable pub prune_expired : ℕ → Failures → Failures
  prune_expired now = delete_if (is_expired now)

  unfoldable pub record_failure : ℕ → Text → Failures → Failures
  unfolding prune_expired
  record_failure now key failures =
      let pruned = prune_expired now failures in
      let opened = set pruned key (record { count = 1; first_attempt_at = now }) in
      elim (pruned key) [
        | none ↦ opened
        | some window ↦
            if is_expired now window
            then opened
            else set pruned key (record window { count = window.count + 1 })
      ]

  unfoldable pub record_success : Text → Failures → Failures
  record_success key failures = delete failures key
