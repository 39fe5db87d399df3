-- ===== src/Sessions/Revocation.antt =====
-- A session that was revoked is never found active again.
use guard_me.Prelude.{
  ℕ, ◌≡◌, refl, sym, ap, ◌∙◌, ◌≢◌, inl, inr, Bool, true, false, ◌&&◌, none, List, [], ◌∷◌, String,
  In, All, Bool-cases, Option-cases, and_parts, ltb, str_eq, str_eq_iff, if◌then◌else◌,
}
use guard_me.Database.{Prisma}
use guard_me.Sessions.{
  Session, CreateSessionInput, is_not_revoked, is_active, revoke_at, create, find_active_by_jwt_id,
  revoke_by_jwt_id, revoke_all_for_user, update_last_verified_at,
}

-- An operation on the table, with its time.
pub data SessionOp : Type 0 where
  created : CreateSessionInput → (new_id : String) → (now : ℕ) → SessionOp
  revoked_jwt : (now : ℕ) → (jwt_id : String) → SessionOp
  revoked_user : (now : ℕ) → (user_id : String) → SessionOp
  verified : (now : ℕ) → (session_id : String) → SessionOp

-- The operation creates no session with the identifier.
abbrev pub IsOther : String → SessionOp → Type 0
IsOther jwt_id (created input _ _) = input.jwt_id ≢ jwt_id
IsOther jwt_id _ = Unit

module _ (db : Prisma Session) where
  unfoldable pub apply_op : SessionOp → List Session → List Session
  apply_op (created input new_id now) table = create db input new_id now table
  apply_op (revoked_jwt now jwt_id) table = revoke_by_jwt_id db now jwt_id table
  apply_op (revoked_user now user_id) table = revoke_all_for_user db now user_id table
  apply_op (verified now session_id) table = update_last_verified_at db now session_id table

  unfoldable pub apply_ops : List SessionOp → List Session → List Session
  apply_ops [] table = table
  apply_ops (o ∷ os) table = apply_ops os (apply_op o table)

  -- Every session with the identifier is revoked.
  abbrev pub IsRevoked : String → List Session → Type 0
  IsRevoked jwt_id table = (s : Session) → In s table → s.jwt_id ≡ jwt_id → is_not_revoked s ≡ false

  updated-IsRevoked :
      (jwt_id : String) (p : Session → Bool) (f : Session → Session) (table : List Session)
      → ((s : Session) → (f s).jwt_id ≡ s.jwt_id)
      → ((s : Session) → is_not_revoked s ≡ false → is_not_revoked (f s) ≡ false)
      → IsRevoked jwt_id table
      → IsRevoked jwt_id (db.update_many p f table)
  updated-IsRevoked jwt_id p f table same keeps h s m j =
      let (r, n, e) = db.of_update_many p f table s m in
      elim (Bool-cases (p r)) [
        | inl b ↦
            let here : s ≡ f r = e ∙ ap (λ (c : Bool). if c then f r else r) b in
            ap is_not_revoked here
            ∙ keeps r (h r n (sym (same r) ∙ ap (λ (x : Session). x.jwt_id) (sym here) ∙ j))
        | inr b ↦
            let here : s ≡ r = e ∙ ap (λ (c : Bool). if c then f r else r) b in
            ap is_not_revoked here ∙ h r n (ap (λ (x : Session). x.jwt_id) (sym here) ∙ j)
      ]

  IsRevoked-now :
      (now : ℕ) (jwt_id : String) (table : List Session)
      → IsRevoked jwt_id (revoke_by_jwt_id db now jwt_id table)
  unfolding revoke_by_jwt_id
  IsRevoked-now now jwt_id table s m j =
      let (r, n, e) =
        db.of_update_many (λ s. str_eq s.jwt_id jwt_id && is_not_revoked s) (revoke_at now) table s
          m in
      elim (Bool-cases (str_eq r.jwt_id jwt_id && is_not_revoked r)) [
        | inl b ↦ ap is_not_revoked (e ∙ ap (λ (c : Bool). if c then revoke_at now r else r) b)
        | inr b ↦
            let here : s ≡ r = e ∙ ap (λ (c : Bool). if c then revoke_at now r else r) b in
            let mine : str_eq r.jwt_id jwt_id ≡ true =
              (str_eq_iff r.jwt_id jwt_id).1 (ap (λ (x : Session). x.jwt_id) (sym here) ∙ j) in
            ap is_not_revoked here ∙ (sym (ap (λ (c : Bool). c && is_not_revoked r) mine) ∙ b)
      ]

  op-IsRevoked :
      (jwt_id : String) (o : SessionOp) (table : List Session)
      → IsOther jwt_id o
      → IsRevoked jwt_id table
      → IsRevoked jwt_id (apply_op o table)
  unfolding apply_op create revoke_by_jwt_id revoke_all_for_user update_last_verified_at
  op-IsRevoked jwt_id (created input new_id now) table other h = λ s m j.
      elim (db.of_create _ table s m) [
        | inl e ↦ absurd (other (ap (λ (x : Session). x.jwt_id) (sym e) ∙ j))
        | inr n ↦ h s n j
      ]
  op-IsRevoked jwt_id (revoked_jwt now other_id) table other h =
      updated-IsRevoked jwt_id _ (revoke_at now) table (λ s. refl) (λ s e. refl) h
  op-IsRevoked jwt_id (revoked_user now user_id) table other h =
      updated-IsRevoked jwt_id _ (revoke_at now) table (λ s. refl) (λ s e. refl) h
  op-IsRevoked jwt_id (verified now session_id) table other h =
      updated-IsRevoked jwt_id _ (λ s. record s { last_verified_at = now }) table (λ s. refl)
        (λ s e. e) h

  ops-IsRevoked :
      (jwt_id : String) (os : List SessionOp) (table : List Session)
      → All (IsOther jwt_id) os
      → IsRevoked jwt_id table
      → IsRevoked jwt_id (apply_ops os table)
  unfolding apply_ops
  ops-IsRevoked jwt_id [] table others h = h
  ops-IsRevoked jwt_id (o ∷ os) table (other, others) h =
      ops-IsRevoked jwt_id os (apply_op o table) others (op-IsRevoked jwt_id o table other h)

  revoked_not_found :
      (now : ℕ) (jwt_id : String) (table : List Session)
      → IsRevoked jwt_id table
      → find_active_by_jwt_id db now jwt_id table ≡ none
  unfolding find_active_by_jwt_id
  revoked_not_found now jwt_id table h =
      elim (Option-cases (db.find_first (λ s. str_eq s.jwt_id jwt_id && is_active now s) table)) [
        | inl e ↦ e
        | inr (s, e) ↦
            let (test, m) = db.find_first_some _ table s e in
            let (mine, active) = and_parts (str_eq s.jwt_id jwt_id) (is_active now s) test in
            let (open_session, _) = and_parts (is_not_revoked s) (ltb now s.expires_at) active in
            absurd (cc (open_session, h s m ((str_eq_iff s.jwt_id jwt_id).0 mine)))
      ]

  -- A revocation is final: once the sessions of a token are revoked, no session of it is found
  -- active, at any time and after any operations on any sessions that create none with the token's
  -- identifier anew.
  pub revoke_by_jwt_id-final :
      (now later : ℕ) (jwt_id : String) (os : List SessionOp) (table : List Session)
      → All (IsOther jwt_id) os
      → find_active_by_jwt_id db later jwt_id (apply_ops os (revoke_by_jwt_id db now jwt_id table))
        ≡ none
  revoke_by_jwt_id-final now later jwt_id os table others =
      revoked_not_found later jwt_id (apply_ops os (revoke_by_jwt_id db now jwt_id table)) (
        ops-IsRevoked jwt_id os (revoke_by_jwt_id db now jwt_id table) others
          (IsRevoked-now now jwt_id table))
