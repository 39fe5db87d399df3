-- ===== src/Ueba/Baseline/Service.antt =====
-- ueba/baseline.service.ts: the stored baselines, one for each user. The queries of one operation see
-- one state of the tables.
use guard_me.Prelude.{
  ℕ, ◌-◌, ◌*◌, Bool, false, ◌&&◌, Option, none, some, List, String, Map, string_eq, set, length,
  leb, ltb, str_eq, if◌then◌else◌,
}
use guard_me.Database.{Prisma}
use guard_me.Siem.Service.{TrafficLog}
use guard_me.Sessions.{Session}
use guard_me.Ueba.{BehaviorBaselineSnapshot}
use guard_me.Ueba.Baseline.{BaselineEnv, compute_snapshot}

pub data BaselineStatus : Type 0 where
  ready insufficient_data : BaselineStatus

-- The payload without its ISO form of the time.
pub record BaselinePayload : Type 0 where
  pub status : BaselineStatus
  pub sample_size : ℕ
  pub min_sample_size : ℕ
  pub window_days : ℕ
  pub updated_at : Option ℕ
  pub snapshot : Option BehaviorBaselineSnapshot

-- A row of behavior_baselines.
pub record BehaviorBaseline : Type 0 where
  pub snapshot : BehaviorBaselineSnapshot
  pub sample_size : ℕ
  pub window_days : ℕ
  pub updated_at : ℕ

-- The table by its unique column, the user.
abbrev pub Baselines : Type 0
Baselines = Map String BehaviorBaseline

-- The settings of config/ueba.config.ts, and the tables that are read.
pub record BaselineDeps : Type 0 where
  pub env : BaselineEnv
  pub baseline_window_days : ℕ
  pub baseline_min_sample_size : ℕ
  pub baseline_max_known_hosts : ℕ
  pub traffic : Prisma TrafficLog
  pub sessions : Prisma Session

-- `windowStart`; a window that reaches back before the epoch begins at it.
abbrev pub window_start : (now window_days : ℕ) → ℕ
window_start now window_days = now - window_days * 24 * 3600000

-- `userId, timestamp: { gte: since }`
abbrev pub is_sample : String → (since : ℕ) → TrafficLog → Bool
is_sample user_id since log = str_eq log.input.user_id user_id && leb since log.timestamp

abbrev is_recent : String → (since : ℕ) → Session → Bool
is_recent user_id since s = str_eq s.user_id user_id && leb since s.created_at

module _ (d : BaselineDeps) where
  -- The traffic of a user in the window, the oldest first.
  abbrev pub samples : String → (now : ℕ) → List TrafficLog → List TrafficLog
  samples user_id now =
      d.traffic.find_many (is_sample user_id (window_start now d.baseline_window_days))
        (λ a b. ltb a.timestamp b.timestamp)

  unfoldable pub build_payload :
      BaselineStatus
      → (sample_size : ℕ) → Option ℕ
      → Option BehaviorBaselineSnapshot
      → BaselinePayload
  build_payload status sample_size updated_at snapshot = record {
    status = status;
    sample_size = sample_size;
    min_sample_size = d.baseline_min_sample_size;
    window_days = d.baseline_window_days;
    updated_at = updated_at;
    snapshot = snapshot;
  }

  module _ (traffic : List TrafficLog) (sessions : List Session) where
    -- The baseline of the traffic and the sessions in the window.
    abbrev pub fresh_snapshot : String → (now : ℕ) → BehaviorBaselineSnapshot
    fresh_snapshot user_id now =
        let recent =
          d.sessions.find_many (is_recent user_id (window_start now d.baseline_window_days))
            (λ a b. false) sessions in
        compute_snapshot d.env now d.baseline_window_days d.baseline_max_known_hosts
          (samples user_id now traffic) recent

    unfoldable pub refresh_for_user : String → (now : ℕ) → Baselines → BaselinePayload × Baselines
    unfolding build_payload
    refresh_for_user user_id now baselines =
        let logs = samples user_id now traffic in
        let snapshot = fresh_snapshot user_id now in
        if ltb (length logs) d.baseline_min_sample_size
        then (build_payload insufficient_data (length logs) none none, baselines)
        else (
          build_payload ready (length logs) (some now) (some snapshot),
          set baselines user_id (record {
            snapshot = snapshot;
            sample_size = length logs;
            window_days = d.baseline_window_days;
            updated_at = now;
          }),
        )

    unfoldable pub ensure_baseline_for_user :
        String → (now : ℕ) → Baselines → BaselinePayload × Baselines
    unfolding refresh_for_user
    ensure_baseline_for_user user_id now baselines =
        let sample_size = length (samples user_id now traffic) in
        if ltb sample_size d.baseline_min_sample_size
        then (build_payload insufficient_data sample_size none none, baselines)
        else refresh_for_user user_id now baselines

    unfoldable pub get_for_user : String → (now : ℕ) → Baselines → BaselinePayload × Baselines
    unfolding ensure_baseline_for_user
    get_for_user user_id now baselines = elim (baselines user_id) [
      | some row ↦
          (build_payload ready row.sample_size (some row.updated_at) (some row.snapshot), baselines)
      | none ↦ ensure_baseline_for_user user_id now baselines
    ]

    unfoldable pub find_snapshot_for_user :
        String → (now : ℕ) → Baselines → Option BehaviorBaselineSnapshot × Baselines
    unfolding ensure_baseline_for_user
    find_snapshot_for_user user_id now baselines = elim (baselines user_id) [
      | some row ↦ (some row.snapshot, baselines)
      | none ↦
          let (payload, after) = ensure_baseline_for_user user_id now baselines in
          (payload.snapshot, after)
    ]
