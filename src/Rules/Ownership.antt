-- ===== src/Rules/Ownership.antt =====
-- Each user's rules are the user's own: creating, updating and deleting leave the rows of the other
-- users as they are, and keep identifiers unique.
use guard_me.Prelude.{
  pair_parts, ℕ, ◌≡◌, refl, sym, ap, ◌∙◌, ◌≢◌, inl, inr, ◌↔◌, true, false, ◌&&◌, Option, List,
  String, ok, await-ok, In, Bool-cases, Option-cases, and_parts, str_eq_iff,
}
use guard_me.Text.{Text}
use guard_me.Database.{Prisma}
use guard_me.Rules.{FirewallRule}
use guard_me.Rules.Service.{
  CreateFirewallRuleDto, UpdateFirewallRuleDto, FirewallRulePayload, is_row, owned_by, patch_rule,
  updated_pattern, resolve_pattern, create_for_user, find_owned_rule, update_for_user,
  delete_for_user,
}

-- Identifiers are a primary key.
abbrev pub HasUniqueIds : List FirewallRule → Type 0
HasUniqueIds table = (x y : FirewallRule) → In x table → In y table → x.id ≡ y.id → x ≡ y

-- Two tables hold the same rows of every user but one.
abbrev pub SameForOthers : String → List FirewallRule → List FirewallRule → Type 0
SameForOthers user_id table table' =
    (x : FirewallRule) → x.user_id ≢ user_id → In x table ↔ In x table'

module _ (db : Prisma FirewallRule) where
  find_owned_rule_sound :
      (user_id rule_id : String) (table : List FirewallRule) (r : FirewallRule)
      → find_owned_rule db user_id rule_id table ≡ ok r
      → In r table × (r.id ≡ rule_id) × (r.user_id ≡ user_id)
  unfolding find_owned_rule
  find_owned_rule_sound user_id rule_id table r h =
      elim (Option-cases (db.find_first (λ x. is_row rule_id x && owned_by user_id x) table)) [
        | inl e ↦ absurd (cc)
        | inr (q, e) ↦
            let same : q ≡ r = cc in
            let (t, m) =
              db.find_first_some (λ x. is_row rule_id x && owned_by user_id x) table q e in
            let (a, b) = and_parts (is_row rule_id q) (owned_by user_id q) t in
            rw (← same) (m, (str_eq_iff q.id rule_id).0 a, (str_eq_iff q.user_id user_id).0 b)
      ]

module _ (user_id rule_id : String) (table : List FirewallRule) (r : FirewallRule)
    (unique : HasUniqueIds table) (m : In r table) (id : r.id ≡ rule_id)
    (own : r.user_id ≡ user_id) where
  -- The row that the service has found is the only one with its identifier.
  is_row_own : (x : FirewallRule) → In x table → is_row rule_id x ≡ true → x.user_id ≡ user_id
  is_row_own x n e =
      let same : x ≡ r = unique x r n m ((str_eq_iff x.id rule_id).0 e ∙ sym id) in
      ap (λ y. y.user_id) same ∙ own

  is_row_foreign : (x : FirewallRule) → In x table → x.user_id ≢ user_id → is_row rule_id x ≡ false
  is_row_foreign x n other = elim (Bool-cases (is_row rule_id x)) [
    | inl e ↦ absurd (other (is_row_own x n e))
    | inr e ↦ e
  ]

  module _ (db : Prisma FirewallRule) where
    update-SameForOthers :
        (f : FirewallRule → FirewallRule)
        → ((x : FirewallRule) → (f x).user_id ≡ x.user_id)
        → SameForOthers user_id table (db.update_many (is_row rule_id) f table)
    update-SameForOthers f keeps x other = (
      λ n. rw (is_row_foreign x n other) at (db.to_update_many (is_row rule_id) f table x n),
      λ n.
          let (q, k, e) = db.of_update_many (is_row rule_id) f table x n in
          elim (Bool-cases (is_row rule_id q)) [
            | inl t ↦
                let changed : x ≡ f q = rw t at e in
                absurd (other (ap (λ y. y.user_id) changed ∙ keeps q ∙ is_row_own q k t))
            | inr t ↦ let kept : x ≡ q = rw t at e in rw kept k
          ],
    )

    delete-SameForOthers : SameForOthers user_id table (db.delete_many (is_row rule_id) table)
    delete-SameForOthers x other = (
      λ n. db.to_delete_many (is_row rule_id) table x (is_row_foreign x n other) n,
      λ n. (db.of_delete_many (is_row rule_id) table x n).1,
    )

patch_keeps_user :
    (dto : UpdateFirewallRuleDto) (pattern : Option Text) (now : ℕ) (x : FirewallRule)
    → (patch_rule dto pattern now x).user_id ≡ x.user_id
unfolding patch_rule
patch_keeps_user dto pattern now x = refl

pub patch_keeps_id :
    (dto : UpdateFirewallRuleDto) (pattern : Option Text) (now : ℕ) (x : FirewallRule)
    → (patch_rule dto pattern now x).id ≡ x.id
unfolding patch_rule
patch_keeps_id dto pattern now x = refl

module _ (db : Prisma FirewallRule) (user_id : String) (table table' : List FirewallRule) where
  -- Creating a rule adds no row of another user and takes none away, whatever the request says.
  pub create_for_user-SameForOthers :
      (dto : CreateFirewallRuleDto) (new_id : String) (now : ℕ) (p : FirewallRulePayload)
      → create_for_user db user_id dto new_id now table ≡ ok (p, table')
      → SameForOthers user_id table table' × (p.user_id ≡ user_id) × In p table'
  unfolding create_for_user
  create_for_user-SameForOthers dto new_id now p h =
      let (pattern, _, h1) = await-ok (resolve_pattern dto.rule_type dto.pattern) _ h in
      let (same, done) = pair_parts h1 in
      rw (← done, same)
        (
          (λ x other. (
            λ m. db.to_create p table x m,
            λ m. elim (db.of_create p table x m) [
              | inl e ↦ absurd (other (ap (λ y. y.user_id) e ∙ sym (ap (λ y. y.user_id) same)))
              | inr k ↦ k
            ],
          )),
          sym (ap (λ y. y.user_id) same),
          db.to_create_self p table,
        )

  -- An update that succeeds changed a row of the user alone: with unique identifiers the rows of
  -- every other user are the same before and after.
  pub update_for_user-SameForOthers :
      (rule_id : String) (dto : UpdateFirewallRuleDto) (now : ℕ) (p : FirewallRulePayload)
      → HasUniqueIds table
      → update_for_user db user_id rule_id dto now table ≡ ok (p, table')
      → SameForOthers user_id table table'
  unfolding update_for_user
  update_for_user-SameForOthers rule_id dto now p unique h =
      let (r, found, h1) = await-ok (find_owned_rule db user_id rule_id table) _ h in
      let (pattern, _, h2) = await-ok (updated_pattern dto r) _ h1 in
      let (m, id, own) = find_owned_rule_sound db user_id rule_id table r found in
      let done : db.update_many (is_row rule_id) (patch_rule dto pattern now) table ≡ table' = cc in
      rw (← done) (
        update-SameForOthers user_id rule_id table r unique m id own db (patch_rule dto pattern now)
          (patch_keeps_user dto pattern now))

  -- So does a deletion: only rows of the user can go.
  pub delete_for_user-SameForOthers :
      (rule_id : String)
      → HasUniqueIds table
      → delete_for_user db user_id rule_id table ≡ ok table'
      → SameForOthers user_id table table'
  unfolding delete_for_user
  delete_for_user-SameForOthers rule_id unique h =
      let (r, found, h1) = await-ok (find_owned_rule db user_id rule_id table) _ h in
      let (m, id, own) = find_owned_rule_sound db user_id rule_id table r found in
      let done : db.delete_many (is_row rule_id) table ≡ table' = cc in
      rw (← done) (delete-SameForOthers user_id rule_id table r unique m id own db)
