-- ===== src/Proxy/RateLimit/Lockout.antt =====
-- The count of a window under any traffic: a client is locked out after as many failures as the
-- limit allows, and no other client's log-ins change that.
use guard_me.Prelude.{
  ℕ, ◌+◌, ◌≤◌, ◌≡◌, ap, ◌∙◌, ◌≢◌, ◌⊎◌, inl, inr, true, none, some, List, [], ◌∷◌, arith, All, leb,
  if◌then◌else◌,
}
use guard_me.Text.{Text, ◌==◌}
use guard_me.Text.Laws.{text_eq, eq_iff}
use guard_me.Proxy.RateLimit.{
  FailureWindow, Failures, is_expired, is_blocked, record_failure, record_success,
}

pub data Op : Type 0 where
  check failed succeeded : Text → Op

abbrev pub At : Type 0
At = ℕ × Op

module _ (limit ttl : ℕ) where
  unfoldable pub run_op : At → Failures → Failures
  run_op (now, check key) m = (is_blocked limit ttl now key m).1
  run_op (now, failed key) m = record_failure limit ttl now key m
  run_op (now, succeeded key) m = record_success limit ttl key m

  unfoldable pub run : List At → Failures → Failures
  run [] m = m
  run (o ∷ os) m = run os (run_op o m)

-- How often a client fails in a history.
abbrev pub failure : Text → Op → ℕ
failure key (failed j) = if j == key then 1 else 0
failure key _ = 0

abbrev pub failures_of : Text → List At → ℕ
failures_of key [] = 0
failures_of key ((now, o) ∷ os) = failure key o + failures_of key os

-- No log-in of the client succeeds, and the window that opened at `start` is not over.
abbrev pub IsWithin : ℕ → Text → ℕ → At → Type 0
IsWithin ttl key start (now, check j) = now ≤ start + ttl
IsWithin ttl key start (now, failed j) = now ≤ start + ttl
IsWithin ttl key start (now, succeeded j) = (now ≤ start + ttl) × (j ≢ key)

module _ (limit ttl : ℕ) (key : Text) (start : ℕ) where
  abbrev window : ℕ → FailureWindow
  window n = record { count = n; first_attempt_at = start }

  run_op-window :
      (o : At) (m : Failures) (n : ℕ)
      → IsWithin ttl key start o
      → m key ≡ some (window n)
      → run_op limit ttl o m key ≡ some (window (failure key o.1 + n))
  unfolding run_op is_blocked record_failure record_success is_expired
  run_op-window (now, check j) m n w h = ground (arith, eq_iff j key)
  run_op-window (now, failed j) m n w h = ground (arith, eq_iff j key)
  run_op-window (now, succeeded j) m n w h = ground (arith, eq_iff j key)

  run-window :
      (os : List At) (m : Failures) (n : ℕ)
      → All (IsWithin ttl key start) os
      → m key ≡ some (window n)
      → run limit ttl os m key ≡ some (window (failures_of key os + n))
  unfolding run
  run-window [] m n w h = h ∙ ap (λ k. some (window k)) (omega arith)
  run-window ((now, o) ∷ os) m n (w, ws) h =
      run-window os (run_op limit ttl (now, o) m) (failure key o + n) ws
        (run_op-window (now, o) m n w h)
      ∙ ap (λ k. some (window k)) (omega arith)

  -- No window of the client is open.
  abbrev pub HasNoWindow : Failures → Type 0
  HasNoWindow m =
      (m key ≡ none)
      ⊎ ((w : FailureWindow) × (m key ≡ some w) × (is_expired limit ttl start w ≡ true))

  opened :
      (m : Failures) → HasNoWindow m → record_failure limit ttl start key m key ≡ some (window 1)
  unfolding record_failure is_expired
  opened m (inl h) = ground (arith, eq_iff key key)
  opened m (inr (w, h, old)) = ground (arith, eq_iff key key)

  -- A client whose first failure opens a window at `start` is blocked at any later moment of that
  -- window exactly if its failures have reached the limit, whatever other clients do in between and
  -- however often it is checked, unless one of its own log-ins succeeds.
  pub is_blocked-run :
      (m : Failures) (os : List At) (now : ℕ)
      → HasNoWindow m
      → All (IsWithin ttl key start) os
      → now ≤ start + ttl
      → (is_blocked limit ttl now key (run limit ttl os (record_failure limit ttl start key m))).0
        ≡ leb limit (failures_of key os + 1)
  unfolding is_blocked is_expired
  is_blocked-run m os now none_open within early =
      let h = run-window os (record_failure limit ttl start key m) 1 within (opened m none_open) in
      ground (arith, h)
