-- ===== src/Rules/History.antt =====
-- Requests of several users one after another, as a step relation on the table of rules.
use guard_me.Prelude.{
  ℕ, ◌≡◌, sym, ap, ◌∙◌, ◌≢◌, inl, inr, ◌↔◌, Bool, List, String, ok, await-ok, pair_parts, In,
  Bool-cases, if◌then◌else◌,
}
use guard_me.Database.{Prisma}
use guard_me.Rules.{FirewallRule}
use guard_me.Rules.Service.{
  CreateFirewallRuleDto, UpdateFirewallRuleDto, FirewallRulePayload, is_row, patch_rule,
  updated_pattern, resolve_pattern, create_for_user, find_owned_rule, update_for_user,
  delete_for_user,
}
use guard_me.Rules.Ownership.{
  HasUniqueIds, SameForOthers, patch_keeps_id, create_for_user-SameForOthers,
  update_for_user-SameForOthers, delete_for_user-SameForOthers,
}

module _ (db : Prisma FirewallRule) where
  -- One request of a user that succeeds. The identifier of a new row is one that no row has; a
  -- request that fails leaves the table as it is.
  pub data Step (user_id : String) (table table' : List FirewallRule) : Type 0 where
    created :
        (dto : CreateFirewallRuleDto) (new_id : String) (now : ℕ) (p : FirewallRulePayload)
        → ((x : FirewallRule) → In x table → x.id ≢ new_id)
        → create_for_user db user_id dto new_id now table ≡ ok (p, table')
        → Step user_id table table'
    updated :
        (rule_id : String) (dto : UpdateFirewallRuleDto) (now : ℕ) (p : FirewallRulePayload)
        → update_for_user db user_id rule_id dto now table ≡ ok (p, table')
        → Step user_id table table'
    deleted :
        (rule_id : String)
        → delete_for_user db user_id rule_id table ≡ ok table'
        → Step user_id table table'

  -- Requests of any users but one, in any order.
  pub data StepsOfOthers (user_id : String) (table : List FirewallRule)
      : List FirewallRule → Type 0 where
    here : StepsOfOthers user_id table table
    next :
        {t t' : List FirewallRule}
        → StepsOfOthers user_id table t
        → (other : String) → other ≢ user_id
        → Step other t t'
        → StepsOfOthers user_id table t'

  Step-SameForOthers :
      {user_id : String} {table table' : List FirewallRule}
      → HasUniqueIds table
      → Step user_id table table'
      → SameForOthers user_id table table'
  Step-SameForOthers {user_id} {table} {table'} unique (created dto new_id now p fresh h) =
      (create_for_user-SameForOthers db user_id table table' dto new_id now p h).0
  Step-SameForOthers {user_id} {table} {table'} unique (updated rule_id dto now p h) =
      update_for_user-SameForOthers db user_id table table' rule_id dto now p unique h
  Step-SameForOthers {user_id} {table} {table'} unique (deleted rule_id h) =
      delete_for_user-SameForOthers db user_id table table' rule_id unique h

  create-HasUniqueIds :
      (row : FirewallRule) (table : List FirewallRule)
      → HasUniqueIds table
      → ((x : FirewallRule) → In x table → x.id ≢ row.id)
      → HasUniqueIds (db.create row table)
  create-HasUniqueIds row table unique fresh x y m n e = elim (db.of_create row table x m) [
    | inl p ↦ elim (db.of_create row table y n) [
      | inl q ↦ p ∙ sym q
      | inr k ↦ absurd (fresh y k (sym e ∙ ap (λ z. z.id) p))
    ]
    | inr j ↦ elim (db.of_create row table y n) [
      | inl q ↦ absurd (fresh x j (e ∙ ap (λ z. z.id) q))
      | inr k ↦ unique x y j k e
    ]
  ]

  -- An update that keeps identifiers keeps them unique.
  update-HasUniqueIds :
      (p : FirewallRule → Bool) (f : FirewallRule → FirewallRule) (table : List FirewallRule)
      → ((x : FirewallRule) → (f x).id ≡ x.id)
      → HasUniqueIds table
      → HasUniqueIds (db.update_many p f table)
  update-HasUniqueIds p f table keeps unique x y m n e =
      let (q, j, a) = db.of_update_many p f table x m in
      let (r, k, b) = db.of_update_many p f table y n in
      let same : q ≡ r =
        unique q r j k (sym (id_of q) ∙ sym (ap (λ z. z.id) a) ∙ e ∙ ap (λ z. z.id) b ∙ id_of r) in
      a ∙ ap (λ z. if p z then f z else z) same ∙ sym b
    where
      id_of : (q : FirewallRule) → (if p q then f q else q).id ≡ q.id
      id_of q = elim (Bool-cases (p q)) [ inl e ↦ rw e (keeps q) | inr e ↦ rw e ]

  Step-HasUniqueIds :
      {user_id : String} {table table' : List FirewallRule}
      → HasUniqueIds table
      → Step user_id table table'
      → HasUniqueIds table'
  unfolding create_for_user update_for_user delete_for_user
  Step-HasUniqueIds {user_id} {table} {table'} unique (created dto new_id now p fresh h) =
      let (pattern, _, h1) = await-ok (resolve_pattern dto.rule_type dto.pattern) _ h in
      let (same, done) = pair_parts h1 in rw (← done) (create-HasUniqueIds _ table unique fresh)
  Step-HasUniqueIds {user_id} {table} {table'} unique (updated rule_id dto now p h) =
      let (r, found, h1) = await-ok (find_owned_rule db user_id rule_id table) _ h in
      let (pattern, _, h2) = await-ok (updated_pattern dto r) _ h1 in
      let (same, done) = pair_parts h2 in
      rw (← done) (
        update-HasUniqueIds (is_row rule_id) (patch_rule dto pattern now) table
          (patch_keeps_id dto pattern now) unique)
  Step-HasUniqueIds {user_id} {table} {table'} unique (deleted rule_id h) =
      let (r, found, h1) = await-ok (find_owned_rule db user_id rule_id table) _ h in
      let done : db.delete_many (is_row rule_id) table ≡ table' = cc in
      λ x y m n e.
        unique x y (db.of_delete_many (is_row rule_id) table x (rw done m)).1
          (db.of_delete_many (is_row rule_id) table y (rw done n)).1 e

  StepsOfOthers_lem :
      {user_id : String} {table table' : List FirewallRule}
      → HasUniqueIds table
      → StepsOfOthers user_id table table'
      → HasUniqueIds table' × ((x : FirewallRule) → x.user_id ≡ user_id → In x table ↔ In x table')
  StepsOfOthers_lem unique here = (unique, λ x own. (λ m. m, λ m. m))
  StepsOfOthers_lem {user_id} unique (next steps other ne st) =
      let (u, same) = StepsOfOthers_lem unique steps in
      (
        Step-HasUniqueIds u st,
        λ x own.
            let there = Step-SameForOthers u st x (λ e. ne (sym e ∙ own)) in
            let before = same x own in (λ m. there.0 (before.0 m), λ m. before.1 (there.1 m)),
      )

-- Whatever rules other users create, update and delete, in any order and number, the rows of a
-- user are the same before and after, and identifiers stay unique.
pub rules_isolated :
    (db : Prisma FirewallRule) (user_id : String) (table table' : List FirewallRule)
    → HasUniqueIds table
    → StepsOfOthers db user_id table table'
    → HasUniqueIds table' × ((x : FirewallRule) → x.user_id ≡ user_id → In x table ↔ In x table')
rules_isolated db user_id table table' unique steps = StepsOfOthers_lem db unique steps
