-- ===== src/Ueba/Baseline/Hosts.antt =====
-- The hosts of a baseline: what the counting of ueba/baseline.service.ts keeps of the traffic, and
-- what the test of ueba/anomaly.service.ts for a new host makes of it.
use guard_me.Prelude.{
  ℕ, ◌≤◌, ◌<◌, ◌≡◌, refl, sym, ap, ◌∙◌, ◌≢◌, inl, inr, true, false, some, List, [], ◌∷◌, String, In,
  In-map, any, take, take_all, length, length-map, length-take, arith, Bool-cases, set, string_eq,
  ltb,
}
use guard_me.Text.{text, Text, ◌==◌}
use guard_me.Text.Laws.{text_eq, eq_refl}
use guard_me.Database.Memory.{sort_by, to_sort_by}
use guard_me.Siem.Service.{TrafficLog}
use guard_me.Sessions.{Session}
use guard_me.Ueba.{Count, BehaviorBaselineSnapshot}
use guard_me.Ueba.Statistics.{first_count, next_count, count_own, increment_count}
use guard_me.Ueba.Anomaly.{UebaConfig, AnomalyScoringContext, is_new_host}
use guard_me.Ueba.Baseline.{
  is_not_rarer, BaselineEnv, Tally, no_tally, tally_log, tally_logs, known_hosts_of,
  compute_snapshot,
}
use guard_me.Ueba.Baseline.Service.{
  BehaviorBaseline, build_payload, fresh_snapshot, BaselineDeps, Baselines, window_start, is_sample,
  samples, refresh_for_user,
}

-- The host is an entry of the object.
abbrev HasKey : Text → List (Text × Count) → Type 0
HasKey host counts = (n : Count) × In (host, n) counts

later-HasKey :
    (host : Text) (entry : Text × Count) (counts : List (Text × Count))
    → HasKey host counts
    → HasKey host (entry ∷ counts)
later-HasKey host entry counts (n, m) = (n, inr m)

count_own-HasKey_self :
    (host : Text) (counts : List (Text × Count)) → HasKey host (count_own host counts)
unfolding count_own
count_own-HasKey_self host [] = (first_count host, inl refl)
count_own-HasKey_self host ((k, n) ∷ counts) = elim (Bool-cases (k == host)) [
  | inl same ↦
      rw (same)
        (next_count n, inl (ap (λ j. (j, next_count n)) (sym ((text_eq.beq_iff k host).0 same))))
  | inr differs ↦ rw (differs) (later-HasKey host (k, n) _ (count_own-HasKey_self host counts))
]

count_own-HasKey :
    (host other : Text) (counts : List (Text × Count))
    → HasKey host counts
    → HasKey host (count_own other counts)
unfolding count_own
count_own-HasKey host other [] (n, m) = elim m [ ]
count_own-HasKey host other ((k, n) ∷ counts) (i, m) = elim (Bool-cases (k == other)) [
  | inl same ↦ rw (same) (elim m [
    | inl now ↦ (next_count n, inl (ap (λ (p : Text × Count). (p.0, next_count n)) now))
    | inr behind ↦ (i, inr behind)
  ])
  | inr differs ↦ rw (differs) (elim m [
    | inl now ↦ (i, inl now)
    | inr behind ↦ later-HasKey host (k, n) _ (count_own-HasKey host other counts (i, behind))
  ])
]

increment_count-HasKey_self :
    (host : Text) (counts : List (Text × Count))
    → host ≢ text "__proto__"
    → HasKey host (increment_count host counts)
unfolding increment_count
increment_count-HasKey_self host counts kept = elim (Bool-cases (host == text "__proto__")) [
  | inl lost ↦ absurd (kept ((text_eq.beq_iff host (text "__proto__")).0 lost))
  | inr own ↦ rw (own) (count_own-HasKey_self host counts)
]

increment_count-HasKey :
    (host other : Text) (counts : List (Text × Count))
    → HasKey host counts
    → HasKey host (increment_count other counts)
unfolding increment_count
increment_count-HasKey host other counts h = elim (Bool-cases (other == text "__proto__")) [
  | inl lost ↦ rw (lost) h
  | inr own ↦ rw (own) (count_own-HasKey host other counts h)
]

any-In : (host : Text) (hosts : List Text) → In host hosts → any (λ h. h == host) hosts ≡ true
any-In host [] m = elim m [ ]
any-In host (h ∷ hosts) (inl same) = rw (← same) (rw (eq_refl host) refl)
any-In host (h ∷ hosts) (inr m) = ground (arith, any-In host hosts m)

-- Below the limit, every host that is counted is known.
known_hosts_of-In :
    (limit : ℕ) (host : Text) (counts : List (Text × Count))
    → length (known_hosts_of limit counts) < limit
    → HasKey host counts
    → In host (known_hosts_of limit counts)
unfolding known_hosts_of
known_hosts_of-In limit host counts few (n, m) =
    let sorted = sort_by (λ (p q : Text × Count). is_not_rarer p.1 q.1) counts in
    let short : length sorted ≤ limit = omega (
      arith,
      length-map (λ (p : Text × Count). p.0) (take limit sorted),
      length-take limit sorted,
    ) in
    let here : In (host, n) sorted =
      to_sort_by (λ (p q : Text × Count). is_not_rarer p.1 q.1) counts (host, n) m in
    rw (take_all limit sorted short) (In-map (λ (p : Text × Count). p.0) sorted (host, n) here)

module _ (env : BaselineEnv) where
  tally_logs-keeps :
      (host : Text) (logs : List TrafficLog) (t : Tally)
      → HasKey host t.host_counts
      → HasKey host (tally_logs env logs t).host_counts
  unfolding tally_logs tally_log
  tally_logs-keeps host [] t h = h
  tally_logs-keeps host (log ∷ logs) t h =
      tally_logs-keeps host logs (tally_log env log t)
        (increment_count-HasKey host log.input.destination_host t.host_counts h)

  tally_logs-HasKey :
      (log : TrafficLog) (logs : List TrafficLog) (t : Tally)
      → log.input.destination_host ≢ text "__proto__"
      → In log logs
      → HasKey log.input.destination_host (tally_logs env logs t).host_counts
  unfolding tally_logs tally_log
  tally_logs-HasKey log [] t kept m = elim m [ ]
  tally_logs-HasKey log (first ∷ logs) t kept (inl same) = rw (same) (
      tally_logs-keeps first.input.destination_host logs (tally_log env first t) (
        increment_count-HasKey_self first.input.destination_host t.host_counts
          (λ e. kept (ap (λ (l : TrafficLog). l.input.destination_host) same ∙ e))))
  tally_logs-HasKey log (first ∷ logs) t kept (inr m) =
      tally_logs-HasKey log logs (tally_log env first t) kept m

module _ (d : BaselineDeps) (traffic : List TrafficLog) (sessions : List Session) where
  -- A snapshot that a refresh answers with is fresh, and is in the user's row.
  pub refresh_for_user-some :
      (user_id : String) (now : ℕ) (baselines : Baselines) (snapshot : BehaviorBaselineSnapshot)
      → (refresh_for_user d traffic sessions user_id now baselines).0.snapshot ≡ some snapshot
      → (snapshot ≡ fresh_snapshot d traffic sessions user_id now)
        × ((row : BehaviorBaseline) × (row.snapshot ≡ snapshot)
            × ((refresh_for_user d traffic sessions user_id now baselines).1
                ≡ set baselines user_id row))
  unfolding refresh_for_user build_payload
  refresh_for_user-some user_id now baselines snapshot h =
      let logs = samples d user_id now traffic in
      elim (Bool-cases (ltb (length logs) d.baseline_min_sample_size)) [
        | inl few ↦ absurd (cc (rw (few) at h))
        | inr enough ↦
            let same : fresh_snapshot d traffic sessions user_id now ≡ snapshot =
              cc (rw (enough) at h) in
            (
              sym same,
              (
                record {
                  snapshot = fresh_snapshot d traffic sessions user_id now;
                  sample_size = length logs;
                  window_days = d.baseline_window_days;
                  updated_at = now;
                },
                same,
                rw (enough) refl,
              ),
            )
      ]

  -- A host that the user requested in the window is not new to the baseline that a refresh makes, if
  -- that baseline knows fewer hosts than it may. The host is not `__proto__`, of which the counting
  -- object keeps no entry.
  pub refresh_for_user-is_new_host :
      (config : UebaConfig) (hour_start hour_of : ℕ → ℕ) (user_id : String) (now : ℕ)
      (baselines : Baselines) (snapshot : BehaviorBaselineSnapshot) (log : TrafficLog)
      (context : AnomalyScoringContext)
      → (refresh_for_user d traffic sessions user_id now baselines).0.snapshot ≡ some snapshot
      → length snapshot.known_hosts < d.baseline_max_known_hosts
      → log.input.destination_host ≢ text "__proto__"
      → In log traffic
      → is_sample user_id (window_start now d.baseline_window_days) log ≡ true
      → is_new_host config hour_start hour_of log.input.destination_host snapshot context ≡ false
  unfolding is_new_host compute_snapshot
  refresh_for_user-is_new_host config hour_start hour_of user_id now baselines snapshot log context
        h few kept m sample =
      let logs = samples d user_id now traffic in
      let fresh = (refresh_for_user-some user_id now baselines snapshot h).0 in
      let there : In log logs = d.traffic.to_find_many _ _ traffic log sample m in
      let counts = (tally_logs d.env logs no_tally).host_counts in
      let hosts : snapshot.known_hosts ≡ known_hosts_of d.baseline_max_known_hosts counts =
        ap (λ (s : BehaviorBaselineSnapshot). s.known_hosts) fresh in
      let known : In log.input.destination_host snapshot.known_hosts = rw (hosts) (
        known_hosts_of-In d.baseline_max_known_hosts log.input.destination_host counts
          (rw (hosts) at few) (tally_logs-HasKey d.env log logs no_tally kept there)) in
      rw (any-In log.input.destination_host snapshot.known_hosts known) refl
