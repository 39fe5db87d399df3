-- ===== src/Ueba/Baseline/Counts.antt =====
-- That `computeSnapshot` of ueba/baseline.service.ts counts every request once.
use guard_me.Prelude.{
  false, any, if◌then◌else◌, ℕ, zero, suc, ◌+◌, ◌<◌, ◌≡◌, refl, ap, ◌∙◌, inl, inr, List, [], ◌∷◌,
  Eq, length, map, arith, Bool-cases,
}
use mathlib.Core.Path.{subst}
use guard_me.Siem.Service.{TrafficLog}
use guard_me.Sessions.{Session}
use guard_me.Text.Laws.{text_eq}
use guard_me.Siem.Names.{decision_eq, verdict_eq}
use guard_me.Siem.Analytics.Summary.{nat_eq}
use guard_me.Ueba.{BehaviorBaselineSnapshot}
use guard_me.Ueba.{Count, times, garbled}
use guard_me.Text.{Text, text, ◌==◌}
use guard_me.Ueba.Statistics.{
  increment_count, count_own, first_count, next_count, inherited_names, sum, increment_entry,
}
use guard_me.Ueba.Baseline.{
  BaselineEnv, Tally, no_tally, increment_at, tally_log, tally_logs, compute_snapshot,
}

-- How much is counted in all.
abbrev pub counted : {K : Type 0} → List (K × ℕ) → ℕ
counted counts = sum (map (λ p. p.1) counts)

increment_entry-counted :
    {K : Type 0} ⦃e : Eq K⦄ (key : K) (counts : List (K × ℕ))
    → counted (increment_entry key counts) ≡ suc (counted counts)
unfolding increment_entry
increment_entry-counted key [] = refl
increment_entry-counted ⦃e⦄ key ((k, n) ∷ counts) = elim (Bool-cases (e.beq k key)) [
  | inl same ↦ rw (same) (omega arith)
  | inr differs ↦ rw (differs) (omega (arith, increment_entry-counted key counts))
]

-- The entries of an object whose counts are all numbers.
abbrev as_counts : List (Text × ℕ) → List (Text × Count)
as_counts = map (λ p. (p.0, times p.1))

count_own-as_counts :
    (key : Text) (counts : List (Text × ℕ))
    → any (λ name. name == key) inherited_names ≡ false
    → count_own key (as_counts counts) ≡ as_counts (increment_entry key counts)
unfolding count_own increment_entry first_count next_count
count_own-as_counts key [] plain = ap (λ b. (key, if b then garbled else times 1) ∷ []) plain
count_own-as_counts key ((k, n) ∷ counts) plain = elim (Bool-cases (k == key)) [
  | inl same ↦ rw (same) refl
  | inr differs ↦
      rw (differs) (ap (λ rest. (k, times n) ∷ rest) (count_own-as_counts key counts plain))
]

-- For a key that objects do not have by themselves, `incrementCount` counts as a Map does.
pub increment_count-as_counts :
    (key : Text) (counts : List (Text × ℕ))
    → key == text "__proto__" ≡ false
    → any (λ name. name == key) inherited_names ≡ false
    → increment_count key (as_counts counts) ≡ as_counts (increment_entry key counts)
unfolding increment_count
increment_count-as_counts key counts own plain = rw (own) (count_own-as_counts key counts plain)

increment_at-sum :
    (i : ℕ) (counts : List ℕ) → i < length counts → sum (increment_at i counts) ≡ suc (sum counts)
unfolding increment_at
increment_at-sum i [] h = absurd (omega arith)
increment_at-sum zero (n ∷ counts) h = omega arith
increment_at-sum (suc i) (n ∷ counts) h = omega (arith, increment_at-sum i counts (omega arith))

increment_at-length : (i : ℕ) (counts : List ℕ) → length (increment_at i counts) ≡ length counts
unfolding increment_at
increment_at-length i [] = refl
increment_at-length zero (n ∷ counts) = refl
increment_at-length (suc i) (n ∷ counts) = ap suc (increment_at-length i counts)

-- Every count of the tally counts n requests.
abbrev Counts : ℕ → Tally → Type 0
Counts n t =
    (length t.active_hours ≡ 24)
    × (sum t.active_hours ≡ n)
    × (counted t.per_day_counts ≡ n)
    × (counted t.per_hour_counts ≡ n)
    × (counted t.policy_decisions ≡ n)
    × (counted t.threat_verdicts ≡ n)
    × (counted t.method_distribution ≡ n)
    × (counted t.port_distribution ≡ n)

module _ (env : BaselineEnv) (in_day : (t : ℕ) → env.hour_of t < 24) where
  tally_log-Counts :
      (log : TrafficLog) (t : Tally) (n : ℕ) → Counts n t → Counts (suc n) (tally_log env log t)
  unfolding tally_log
  tally_log-Counts log t n (all, hours, days, by_hour, decisions, verdicts, methods, ports) =
      let in_range : env.hour_of log.timestamp < length t.active_hours =
        omega (arith, in_day log.timestamp) in
      (
        increment_at-length _ t.active_hours ∙ all,
        increment_at-sum _ t.active_hours in_range ∙ ap suc hours,
        increment_entry-counted _ t.per_day_counts ∙ ap suc days,
        increment_entry-counted _ t.per_hour_counts ∙ ap suc by_hour,
        increment_entry-counted _ t.policy_decisions ∙ ap suc decisions,
        increment_entry-counted _ t.threat_verdicts ∙ ap suc verdicts,
        increment_entry-counted _ t.method_distribution ∙ ap suc methods,
        increment_entry-counted _ t.port_distribution ∙ ap suc ports,
      )

  tally_logs-Counts :
      (logs : List TrafficLog) (t : Tally) (n : ℕ)
      → Counts n t
      → Counts (length logs + n) (tally_logs env logs t)
  unfolding tally_logs
  tally_logs-Counts [] t n h = let same : n ≡ 0 + n = omega arith in subst (λ m. Counts m t) same h
  tally_logs-Counts (log ∷ logs) t n h =
      let one_more : length logs + suc n ≡ suc (length logs) + n = omega arith in
      subst (λ m. Counts m (tally_logs env logs (tally_log env log t))) one_more
        (tally_logs-Counts logs (tally_log env log t) (suc n) (tally_log-Counts log t n h))

  -- A snapshot counts every request of the window once: its 24 hours of the day together, and its
  -- policy decisions, verdicts, methods and ports, are as many as its sample. The local hour of a
  -- time is below 24.
  pub compute_snapshot-counts :
      (now window_days max_known_hosts : ℕ) (logs : List TrafficLog) (sessions : List Session)
      (s : BehaviorBaselineSnapshot)
      → compute_snapshot env now window_days max_known_hosts logs sessions ≡ s
      → (s.sample_size ≡ length logs)
        × (length s.active_hours ≡ 24)
        × (sum s.active_hours ≡ s.sample_size)
        × (counted s.policy_decisions ≡ s.sample_size)
        × (counted s.threat_verdicts ≡ s.sample_size)
        × (counted s.method_distribution ≡ s.sample_size)
        × (counted s.port_distribution ≡ s.sample_size)
  unfolding compute_snapshot
  compute_snapshot-counts now window_days max_known_hosts logs sessions s h =
      let (all, hours, _, _, decisions, verdicts, methods, ports) =
        tally_logs-Counts logs no_tally 0 (refl, refl, refl, refl, refl, refl, refl, refl) in
      rw (← h) (
        refl,
        all,
        hours ∙ omega arith,
        decisions ∙ omega arith,
        verdicts ∙ omega arith,
        methods ∙ omega arith,
        ports ∙ omega arith,
      )
