-- ===== src/Ueba/Baseline/Stored.antt =====
-- How long a baseline of ueba/baseline.service.ts stays.
use guard_me.Prelude.{
  ℕ, ◌≡◌, ◌≢◌, refl, ap, ◌∙◌, inl, inr, Option, some, List, [], ◌∷◌, String, All, Option-cases,
  Bool-cases, string_eq, str_ne, str_eq, str_eq_refl, str_eq_iff, length, ltb,
}
use guard_me.Siem.Service.{TrafficLog}
use guard_me.Sessions.{Session}
use guard_me.Ueba.{BehaviorBaselineSnapshot}
use guard_me.Ueba.Baseline.Service.{
  BaselineDeps, Baselines, BehaviorBaseline, samples, refresh_for_user, ensure_baseline_for_user,
  get_for_user, find_snapshot_for_user,
}
use guard_me.Ueba.Baseline.Hosts.{refresh_for_user-some}

-- The operations of the service, each at its time and on the tables of that time.
pub data BaselineOp : Type 0 where
  refresh_op get_op find_op : String → (now : ℕ) → List TrafficLog → List Session → BaselineOp

-- An operation that does not refresh the baseline of the user on demand.
abbrev pub IsMild : String → BaselineOp → Type 0
IsMild user_id (refresh_op user now traffic sessions) = user ≢ user_id
IsMild user_id (get_op user now traffic sessions) = Unit
IsMild user_id (find_op user now traffic sessions) = Unit

module _ (d : BaselineDeps) where
  abbrev pub apply_op : BaselineOp → Baselines → Baselines
  apply_op (refresh_op user now traffic sessions) b =
      (refresh_for_user d traffic sessions user now b).1
  apply_op (get_op user now traffic sessions) b = (get_for_user d traffic sessions user now b).1
  apply_op (find_op user now traffic sessions) b =
      (find_snapshot_for_user d traffic sessions user now b).1

  abbrev pub apply_ops : List BaselineOp → Baselines → Baselines
  apply_ops [] b = b
  apply_ops (op ∷ ops) b = apply_ops ops (apply_op op b)

  refresh-other :
      (traffic : List TrafficLog) (sessions : List Session) (user user_id : String) (now : ℕ)
      (b : Baselines)
      → user ≢ user_id
      → (refresh_for_user d traffic sessions user now b).1 user_id ≡ b user_id
  unfolding refresh_for_user
  refresh-other traffic sessions user user_id now b ne =
      elim (Bool-cases (ltb (length (samples d user now traffic)) d.baseline_min_sample_size)) [
        | inl few ↦ rw (few) refl
        | inr enough ↦ rw (enough) (rw (str_ne user user_id ne) refl)
      ]

  ensure-other :
      (traffic : List TrafficLog) (sessions : List Session) (user user_id : String) (now : ℕ)
      (b : Baselines)
      → user ≢ user_id
      → (ensure_baseline_for_user d traffic sessions user now b).1 user_id ≡ b user_id
  unfolding ensure_baseline_for_user
  ensure-other traffic sessions user user_id now b ne =
      elim (Bool-cases (ltb (length (samples d user now traffic)) d.baseline_min_sample_size)) [
        | inl few ↦ rw (few) refl
        | inr enough ↦ rw (enough) (rw (str_ne user user_id ne) refl)
      ]

  -- Where a user has a row, asking for it changes nothing.
  get-stored :
      (traffic : List TrafficLog) (sessions : List Session) (user_id : String) (now : ℕ)
      (b : Baselines) (row : BehaviorBaseline)
      → b user_id ≡ some row
      → (get_for_user d traffic sessions user_id now b).1 ≡ b
  unfolding get_for_user
  get-stored traffic sessions user_id now b row h = rw (h, get_for_user) refl

  find-stored :
      (traffic : List TrafficLog) (sessions : List Session) (user_id : String) (now : ℕ)
      (b : Baselines) (row : BehaviorBaseline)
      → b user_id ≡ some row
      → find_snapshot_for_user d traffic sessions user_id now b ≡ (some row.snapshot, b)
  unfolding find_snapshot_for_user
  find-stored traffic sessions user_id now b row h = rw (h, find_snapshot_for_user) refl

  -- Asking for the row of another user leaves a user's row.
  get-other :
      (traffic : List TrafficLog) (sessions : List Session) (user user_id : String) (now : ℕ)
      (b : Baselines)
      → user ≢ user_id
      → (get_for_user d traffic sessions user now b).1 user_id ≡ b user_id
  unfolding get_for_user
  get-other traffic sessions user user_id now b ne = elim (Option-cases (b user)) [
    | inl e ↦ rw (e, get_for_user) (ensure-other traffic sessions user user_id now b ne)
    | inr (row, e) ↦ rw (e, get_for_user) refl
  ]

  find-other :
      (traffic : List TrafficLog) (sessions : List Session) (user user_id : String) (now : ℕ)
      (b : Baselines)
      → user ≢ user_id
      → (find_snapshot_for_user d traffic sessions user now b).1 user_id ≡ b user_id
  unfolding find_snapshot_for_user
  find-other traffic sessions user user_id now b ne = elim (Option-cases (b user)) [
    | inl e ↦ rw (e, find_snapshot_for_user) (ensure-other traffic sessions user user_id now b ne)
    | inr (row, e) ↦ rw (e, find_snapshot_for_user) refl
  ]

  apply_op-keeps :
      (op : BaselineOp) (user_id : String) (b : Baselines) (row : BehaviorBaseline)
      → IsMild user_id op
      → b user_id ≡ some row
      → apply_op op b user_id ≡ some row
  apply_op-keeps (refresh_op user now traffic sessions) user_id b row mild h =
      refresh-other traffic sessions user user_id now b mild ∙ h
  apply_op-keeps (get_op user now traffic sessions) user_id b row mild h =
      elim (Bool-cases (str_eq user user_id)) [
        | inl e ↦
            let same : user ≡ user_id = (str_eq_iff user user_id).0 e in
            ap (λ (c : Baselines). c user_id)
              (get-stored traffic sessions user now b row (ap b same ∙ h))
            ∙ h
        | inr e ↦
            get-other traffic sessions user user_id now b
              (λ same. cc ((str_eq_iff user user_id).1 same, e))
            ∙ h
      ]
  apply_op-keeps (find_op user now traffic sessions) user_id b row mild h =
      elim (Bool-cases (str_eq user user_id)) [
        | inl e ↦
            let same : user ≡ user_id = (str_eq_iff user user_id).0 e in
            ap (λ (c : Option BehaviorBaselineSnapshot × Baselines). c.1 user_id)
              (find-stored traffic sessions user now b row (ap b same ∙ h))
            ∙ h
        | inr e ↦
            find-other traffic sessions user user_id now b
              (λ same. cc ((str_eq_iff user user_id).1 same, e))
            ∙ h
      ]

  apply_ops-keeps :
      (ops : List BaselineOp) (user_id : String) (b : Baselines) (row : BehaviorBaseline)
      → All (IsMild user_id) ops
      → b user_id ≡ some row
      → apply_ops ops b user_id ≡ some row
  apply_ops-keeps [] user_id b row mild h = h
  apply_ops-keeps (op ∷ ops) user_id b row (mild, rest) h =
      apply_ops-keeps ops user_id (apply_op op b) row rest (apply_op-keeps op user_id b row mild h)

  -- The snapshot that a refresh answers with is the one that is scored against from then on,
  -- whatever the traffic and however late, until the user's baseline is refreshed again: other
  -- users' refreshes and any user's reads leave it.
  pub refresh_for_user-find_snapshot_for_user :
      (traffic later_traffic : List TrafficLog) (sessions later_sessions : List Session)
      (user_id : String) (now later : ℕ) (b : Baselines) (snapshot : BehaviorBaselineSnapshot)
      (ops : List BaselineOp)
      → (refresh_for_user d traffic sessions user_id now b).0.snapshot ≡ some snapshot
      → All (IsMild user_id) ops
      → (find_snapshot_for_user d later_traffic later_sessions user_id later
          (apply_ops ops (refresh_for_user d traffic sessions user_id now b).1)).0
        ≡ some snapshot
  refresh_for_user-find_snapshot_for_user traffic later_traffic sessions later_sessions user_id now
        later b snapshot ops h mild =
      let (_, (row, same, stored)) =
        refresh_for_user-some d traffic sessions user_id now b snapshot h in
      let after = (refresh_for_user d traffic sessions user_id now b).1 in
      let there : after user_id ≡ some row =
        ap (λ (c : Baselines). c user_id) stored ∙ rw (str_eq_refl user_id) refl in
      let kept = apply_ops-keeps ops user_id after row mild there in
      ap (λ (r : Option BehaviorBaselineSnapshot × Baselines). r.0)
        (find-stored later_traffic later_sessions user_id later (apply_ops ops after) row kept)
      ∙ ap some same
