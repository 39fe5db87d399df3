-- ===== src/Ueba/Listener/Cooldown.antt =====
-- Handlers one after the other, and two of them at once.
use guard_me.Prelude.{
  ℕ, suc, ◌-◌, ◌<◌, ◌≡◌, refl, ap, ◌∙◌, ◌≢◌, inl, inr, Bool, true, false, Option, none, some, List,
  [], ◌∷◌, ◌++◌, String, arith, All, string_eq, set, str_eq, str_eq_iff, Option-cases,
  if◌then◌else◌,
}
use guard_me.Siem.{SecurityEventInput}
use guard_me.Ueba.{TrafficLog, BehaviorBaselineSnapshot}
use guard_me.Ueba.Anomaly.{UebaConfig}
use guard_me.Ueba.Listener.{LastAlerts, is_in_cooldown, handle_until_cooldown, mark_alerted}

-- A log that was created, with what its handler reads.
pub record Created : Type 0 where
  pub checked : ℕ
  pub log : TrafficLog
  pub baseline : Option BehaviorBaselineSnapshot
  pub table : List TrafficLog

-- A handler's first step, and the second step of the handler that has waited longest.
pub data Action : Type 0 where
  check : Created → Action
  finish : ℕ → Action

-- The map, the users whose event is being stored, and the alerts so far, the newest first.
pub record ListenerState : Type 0 where
  pub last_alerts : LastAlerts
  pub pending : List String
  pub alerts : List (String × ℕ)

abbrev pub alerts_of : String → List (String × ℕ) → ℕ
alerts_of user [] = 0
alerts_of user ((u, _) ∷ as') =
    if str_eq u user then suc (alerts_of user as') else alerts_of user as'

-- No handler is under way.
abbrev pub idle : LastAlerts → List (String × ℕ) → ListenerState
idle m alerts = record { last_alerts = m; pending = []; alerts = alerts }

ite_same : (b : Bool) → ◌≡◌ {A = Option SecurityEventInput} (if b then none else none) none
ite_same true = refl
ite_same false = refl

module _ (config : UebaConfig) (hour_start hour_of : ℕ → ℕ) where
  abbrev pub first_step : Created → LastAlerts → Option SecurityEventInput
  first_step o = handle_until_cooldown config hour_start hour_of o.checked o.log o.baseline o.table

  unfoldable pub step : Action → ListenerState → ListenerState
  step (check o) s = elim (first_step o s.last_alerts) [
    | none ↦ s
    | some _ ↦ record s { pending = s.pending ++ o.log.user_id ∷ [] }
  ]
  step (finish now) s = elim s.pending [
    | [] ↦ s
    | user ∷ users ↦ record {
      last_alerts = mark_alerted now user s.last_alerts;
      pending = users;
      alerts = (user, now) ∷ s.alerts;
    }
  ]

  unfoldable pub run : List Action → ListenerState → ListenerState
  run [] s = s
  run (a ∷ as') s = run as' (step a s)

  -- Every handler ends before the next one begins.
  unfoldable pub serial : List (Created × ℕ) → List Action
  serial [] = []
  serial ((o, stored) ∷ os) = check o ∷ finish stored ∷ serial os

  cooling :
      (now : ℕ) (user : String) (m : LastAlerts) (alerted : ℕ)
      → m user ≡ some alerted
      → 0 < alerted
      → now - alerted < config.alert_cooldown_ms
      → is_in_cooldown config now user m ≡ true
  unfolding is_in_cooldown
  cooling now user m alerted h pos early = ground arith

  in_cooldown :
      (o : Created) (m : LastAlerts)
      → is_in_cooldown config o.checked o.log.user_id m ≡ true
      → first_step o m ≡ none
  in_cooldown o m h = go o.baseline
    where
      go :
          (b : Option BehaviorBaselineSnapshot)
          → handle_until_cooldown config hour_start hour_of o.checked o.log b o.table m ≡ none
      go none = unfold handle_until_cooldown in refl
      go (some b) = unfold handle_until_cooldown in rw h (ite_same _)

  check-none :
      (o : Created) (m : LastAlerts) (alerts : List (String × ℕ))
      → first_step o m ≡ none
      → step (check o) (idle m alerts) ≡ idle m alerts
  unfolding step
  check-none o m alerts e = rw (e, step)

  check-some :
      (o : Created) (s : ListenerState) (event : SecurityEventInput)
      → first_step o s.last_alerts ≡ some event
      → step (check o) s ≡ record s { pending = s.pending ++ o.log.user_id ∷ [] }
  unfolding step
  check-some o s event e = rw (e, step)

  -- A whole handler, from an idle state to an idle state.
  abbrev IsQuietStep : String → ℕ → ℕ → ListenerState → Type 0
  IsQuietStep user alerted n s =
      (m : LastAlerts) × (alerts : List (String × ℕ)) × (s ≡ idle m alerts)
      × (m user ≡ some alerted)
      × (alerts_of user alerts ≡ n)

  serial_step :
      (user : String) (alerted n stored : ℕ) (o : Created) (m : LastAlerts)
      (alerts : List (String × ℕ))
      → (first_step o m ≢ none → o.log.user_id ≢ user)
      → m user ≡ some alerted
      → alerts_of user alerts ≡ n
      → IsQuietStep user alerted n (step (finish stored) (step (check o) (idle m alerts)))
  serial_step user alerted n stored o m alerts other h count =
      elim (Option-cases (first_step o m)) [
        | inl e ↦ (
          m,
          alerts,
          ap (step (finish stored)) (check-none o m alerts e) ∙ (unfold step in refl),
          h,
          count,
        )
        | inr (event, e) ↦
            let ne : o.log.user_id ≢ user = other (λ q. absurd (cc (e, q))) in
            (
              set m o.log.user_id stored,
              (o.log.user_id, stored) ∷ alerts,
              ap (step (finish stored)) (check-some o (idle m alerts) event e)
                  ∙ (unfold step mark_alerted in refl),
              ground (arith, str_eq_iff o.log.user_id user),
              ground (arith, str_eq_iff o.log.user_id user),
            )
      ]

  quiet_after :
      (user : String) (alerted : ℕ) (os : List (Created × ℕ)) (m : LastAlerts)
      (alerts : List (String × ℕ))
      → 0 < alerted
      → All (λ o. o.0.log.user_id ≡ user → o.0.checked - alerted < config.alert_cooldown_ms) os
      → m user ≡ some alerted
      → alerts_of user (run (serial os) (idle m alerts)).alerts ≡ alerts_of user alerts
  unfolding run serial
  quiet_after user alerted [] m alerts pos early h = refl
  quiet_after user alerted ((o, stored) ∷ os) m alerts pos (e, es) h =
      let (m', alerts', same, h', count) =
        serial_step user alerted (alerts_of user alerts) stored o m alerts quiet h refl in
      ap (λ s. alerts_of user (run (serial os) s).alerts) same
      ∙ quiet_after user alerted os m' alerts' pos es h'
      ∙ count
    where
      quiet : first_step o m ≢ none → o.log.user_id ≢ user
      quiet alert mine =
          alert (
            in_cooldown o m
              (cooling o.checked o.log.user_id m alerted (ap m mine ∙ h) pos (e mine)))

  -- While handlers run one after the other, an alert of a user that is stored at a time that is not
  -- 0 is the user's only one among all logs behind it that are checked before the cooldown behind
  -- that time is over, whatever logs of other users are handled in between.
  pub serial-quiet :
      (user : String) (first : Created) (event : SecurityEventInput) (stored : ℕ)
      (os : List (Created × ℕ)) (m : LastAlerts) (alerts : List (String × ℕ))
      → first.log.user_id ≡ user
      → first_step first m ≡ some event
      → 0 < stored
      → All (λ o. o.0.log.user_id ≡ user → o.0.checked - stored < config.alert_cooldown_ms) os
      → alerts_of user (run (serial ((first, stored) ∷ os)) (idle m alerts)).alerts
        ≡ suc (alerts_of user alerts)
  unfolding run serial
  serial-quiet user first event stored os m alerts own alert pos early =
      ap (λ s. alerts_of user (run (serial os) (step (finish stored) s)).alerts)
        (check-some first (idle m alerts) event alert)
      ∙ ap (λ s. alerts_of user (run (serial os) s).alerts) stored_step
      ∙ quiet_after user stored os (set m first.log.user_id stored)
          ((first.log.user_id, stored) ∷ alerts) pos early
          (ground (arith, str_eq_iff first.log.user_id user))
      ∙ ground (arith, str_eq_iff first.log.user_id user)
    where
      stored_step :
          step
            (finish stored)
            (record { last_alerts = m; pending = first.log.user_id ∷ []; alerts = alerts })
          ≡ idle (set m first.log.user_id stored) ((first.log.user_id, stored) ∷ alerts)
      stored_step = unfold step mark_alerted in refl

  -- The cooldown does not hold between handlers that overlap: where two logs of one user would each
  -- give an alert, and both are checked before either event is stored, both give one, however short
  -- the time between them is.
  pub overlapping_alerts :
      (a b : Created) (user : String) (first second : SecurityEventInput) (m : LastAlerts)
      (alerts : List (String × ℕ)) (s t : ℕ)
      → a.log.user_id ≡ user
      → b.log.user_id ≡ user
      → first_step a m ≡ some first
      → first_step b m ≡ some second
      → alerts_of user (run (check a ∷ check b ∷ finish s ∷ finish t ∷ []) (idle m alerts)).alerts
        ≡ suc (suc (alerts_of user alerts))
  unfolding run
  overlapping_alerts a b user first second m alerts s t ua ub ea eb =
      let waiting : ListenerState = record {
        last_alerts = m;
        pending = a.log.user_id ∷ [];
        alerts = alerts;
      } in
      let both =
        ap (step (check b)) (check-some a (idle m alerts) first ea)
        ∙ check-some b waiting second eb in
      ap (λ x. alerts_of user (step (finish t) (step (finish s) x)).alerts) both ∙ counted
    where
      counted :
          alerts_of user
            (step (finish t) (
              step (finish s) (record {
                last_alerts = m;
                pending = a.log.user_id ∷ b.log.user_id ∷ [];
                alerts = alerts;
              }))).alerts
          ≡ suc (suc (alerts_of user alerts))
      counted =
          unfold step in
          ground (arith, str_eq_iff a.log.user_id user, str_eq_iff b.log.user_id user)
