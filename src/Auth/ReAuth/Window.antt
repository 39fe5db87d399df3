-- ===== src/Auth/ReAuth/Window.antt =====
-- How long a password counts: common/guards/re-auth.guard.ts with `verifyPassword` of
-- auth/auth.service.ts.
use guard_me.Prelude.{
  ℕ, ◌+◌, ◌-◌, ◌≤◌, ◌≡◌, ◌↔◌, refl, ap, ◌∙◌, inl, inr, true, false, some, List, String, ok, arith,
  Option-cases, Bool-cases, ltb,
}
use guard_me.Users.{User, find_by_id, update_last_auth_at, verify_password_hash}
use guard_me.Users.Registered.{updated_found}
use guard_me.Sessions.{Fingerprint, Identity}
use guard_me.Auth.{DashboardState, AuthDeps}
use guard_me.Auth.Service.{verify_password}
use guard_me.Auth.ReAuth.{timeout_ms, can_activate}

within : (limit elapsed : ℕ) → ltb limit elapsed ≡ false → elapsed ≤ limit
within limit elapsed h = ground arith

not_ltb : (limit elapsed : ℕ) → elapsed ≤ limit → ltb limit elapsed ≡ false
not_ltb limit elapsed h = ground arith

module _ {Token : Type 0} (d : AuthDeps Token) where
  -- The row is found and its time is within the timeout.
  abbrev pub IsFresh : Identity → ℕ → List User → Type 0
  IsFresh user now table =
      (row : User) × (t : ℕ) × (find_by_id d.users.rows user.user_id table ≡ some row)
      × (row.last_auth_at ≡ some t)
      × (now - t ≤ timeout_ms d)

module _ {Token Buffer : Type 0} (d : AuthDeps Token) where
  can_activate-IsFresh :
      (user : Identity) (now : ℕ) (s : DashboardState Buffer)
      → (can_activate d (some user) now s).0 ≡ ok true
      → IsFresh d user now s.users
  unfolding can_activate
  can_activate-IsFresh user now s h =
      elim (Option-cases (find_by_id d.users.rows user.user_id s.users)) [
        | inl e ↦ absurd (cc)
        | inr (row, e) ↦ elim (Option-cases row.last_auth_at) [
          | inl f ↦ absurd (cc)
          | inr (t, f) ↦ elim (Bool-cases (ltb (timeout_ms d) (now - t))) [
            | inl b ↦ absurd (cc)
            | inr b ↦ (row, t, e, f, within (timeout_ms d) (now - t) b)
          ]
        ]
      ]

  IsFresh-can_activate :
      (user : Identity) (now : ℕ) (s : DashboardState Buffer)
      → IsFresh d user now s.users
      → (can_activate d (some user) now s).0 ≡ ok true
  unfolding can_activate
  IsFresh-can_activate user now s (row, t, e, f, le) =
      rw (can_activate, e, f, not_ltb (timeout_ms d) (now - t) le) refl

  -- The guard passes exactly the users whose row has a time of authentication that lies no longer
  -- back than the timeout.
  pub can_activate_iff :
      (user : Identity) (now : ℕ) (s : DashboardState Buffer)
      → ((can_activate d (some user) now s).0 ≡ ok true) ↔ IsFresh d user now s.users
  can_activate_iff user now s = (can_activate-IsFresh user now s, IsFresh-can_activate user now s)

  verify_password-ok :
      (user : Identity) (password : String) (client : Fingerprint) (now t : ℕ)
      (s after : DashboardState Buffer)
      → verify_password d user password client now s ≡ (ok t, after)
      → (row : User) × (find_by_id d.users.rows user.user_id s.users ≡ some row)
        × (after.users ≡ update_last_auth_at d.users.rows user.user_id now s.users)
  unfolding verify_password
  verify_password-ok user password client now t s after h =
      elim (Option-cases (find_by_id d.users.rows user.user_id s.users)) [
        | inl e ↦ absurd (cc)
        | inr (row, e) ↦
            elim (Bool-cases (verify_password_hash d.password_matches password row.password_hash)) [
              | inl b ↦ (row, e, cc)
              | inr b ↦ absurd (cc)
            ]
      ]

  -- A password that was right opens the guard at once, and until the timeout is over and no
  -- longer, whatever the row said before.
  pub verify_password-can_activate :
      (user : Identity) (password : String) (client : Fingerprint) (now later t : ℕ)
      (s after : DashboardState Buffer)
      → verify_password d user password client now s ≡ (ok t, after)
      → now ≤ later
      → ((can_activate d (some user) later after).0 ≡ ok true) ↔ (later ≤ now + timeout_ms d)
  verify_password-can_activate user password client now later t s after h le =
      let (row, e, same) = verify_password-ok user password client now t s after h in
      let (v, f, r, _, _, g) = updated_found d.users.rows user.user_id now s.users row e in
      let noted : v.last_auth_at ≡ some now = ap (λ (u : User). u.last_auth_at) g in
      let found : find_by_id d.users.rows user.user_id after.users ≡ some v =
        ap (find_by_id d.users.rows user.user_id) same ∙ f in
      (
        λ open_now.
            let (row', t', e', f', within') = can_activate-IsFresh user later after open_now in
            let same_time : t' ≡ now = cc in omega arith,
        λ soon. IsFresh-can_activate user later after (v, now, found, noted, omega arith),
      )
