-- ===== src/Rules/Evaluation.antt =====
-- What `evaluateRules` decides: blocking rules come first, and the destination's address is asked
-- for only if a rule can use it, which changes no answer.
use guard_me.Prelude.{
  ◌≡◌, refl, sym, ap, ◌∙◌, ◌⊎◌, inl, inr, Bool, true, false, ◌&&◌, Option, none, some, List, [],
  ◌∷◌, String, arith, any, find, find-eq-some, find-none→All, All, In, All-in, All-of_In,
  Bool-cases, Option-cases, str_eq, str_eq_iff,
}
use guard_me.Text.{Text}
use guard_me.Database.{Prisma}
use guard_me.Rules.{FirewallRule, RuleMatchContext, RuleMatchResult}
use guard_me.Rules.Matcher.{
  rule_matches_context, is_block_rule, is_allow_rule, to_rule_match_result,
}
use guard_me.Rules.Service.{
  or_else, is_active_of, before_by_creation, needs_resolved_ip, with_resolved_ip, first_match,
  evaluate_rules,
}

-- The context with the resolver's answer wherever the caller gave no address.
abbrev pub full_context : RuleMatchContext → Option (Option Text) → RuleMatchContext
full_context context resolve = record context {
  destination_ip = elim context.destination_ip [ some ip ↦ some ip | none ↦ or_else resolve none ];
}

any-false :
    (p : FirewallRule → Bool) (rules : List FirewallRule)
    → any p rules ≡ false
    → All (λ r. p r ≡ false) rules
any-false p [] h = tt
any-false p (r ∷ rs) h = (ground arith, any-false p rs (ground arith))

ip_unused :
    (r : FirewallRule) (host : Text) (ip ip' : Option Text)
    → str_eq r.rule_type "IP" ≡ false
    → rule_matches_context r (record { destination_host = host; destination_ip = ip })
      ≡ rule_matches_context r (record { destination_host = host; destination_ip = ip' })
unfolding rule_matches_context
ip_unused r host ip ip' h = ground arith

-- Resolving the address only on demand is not observable.
lazy_context :
    (rules : List FirewallRule) (host : Text) (ip : Option Text) (resolve : Option (Option Text))
    (r : FirewallRule)
    → In r rules
    → rule_matches_context r
        (with_resolved_ip rules (record { destination_host = host; destination_ip = ip }) resolve)
      ≡ rule_matches_context r
          (full_context (record { destination_host = host; destination_ip = ip }) resolve)
unfolding with_resolved_ip needs_resolved_ip
lazy_context rules host (some ip) none r m = refl
lazy_context rules host none none r m = refl
lazy_context rules host (some ip) (some a) r m = refl
lazy_context rules host none (some a) r m =
    elim (Bool-cases (any (λ x. str_eq x.rule_type "IP") rules)) [
      | inl e ↦ rw e
      | inr e ↦ rw e (
          ip_unused r host none a
            (All-in (λ x. str_eq x.rule_type "IP" ≡ false) rules (any-false _ rules e) m))
    ]

abbrev blocks_in : RuleMatchContext → FirewallRule → Bool
blocks_in c r = is_block_rule r && rule_matches_context r c

abbrev allows_in : RuleMatchContext → FirewallRule → Bool
allows_in c r = is_allow_rule r && rule_matches_context r c

-- What a match reports, for a list of rules.
abbrev IsDecisive : List FirewallRule → RuleMatchContext → FirewallRule → Type 0
IsDecisive rules c r =
    (blocks_in c r ≡ true) ⊎ ((allows_in c r ≡ true) × All (λ x. blocks_in c x ≡ false) rules)

pub result_action : (q : FirewallRule) → (to_rule_match_result q).action ≡ q.action
unfolding to_rule_match_result
result_action q = refl

first_match_sound :
    (rules : List FirewallRule) (c : RuleMatchContext) (m : RuleMatchResult)
    → first_match rules c ≡ some m
    → (r : FirewallRule) × In r rules × (m ≡ to_rule_match_result r) × IsDecisive rules c r
first_match_sound rules c m h = elim (Option-cases (find (blocks_in c) rules)) [
  | inr (r, e) ↦
      let (t, n) = find-eq-some (blocks_in c) rules r e in
      (r, n, unfold first_match in ground arith, inl t)
  | inl e ↦ elim (Option-cases (find (allows_in c) rules)) [
    | inr (r, d) ↦
        let (t, n) = find-eq-some (allows_in c) rules r d in
        (r, n, unfold first_match in ground arith, inr (t, find-none→All (blocks_in c) rules e))
    | inl d ↦ absurd (unfold first_match in cc)
  ]
]

first_match-none :
    (rules : List FirewallRule) (c : RuleMatchContext)
    → first_match rules c ≡ none
    → All (λ x. blocks_in c x ≡ false) rules × All (λ x. allows_in c x ≡ false) rules
unfolding first_match
first_match-none rules c h = elim (Option-cases (find (blocks_in c) rules)) [
  | inr (r, e) ↦ absurd (cc)
  | inl e ↦ elim (Option-cases (find (allows_in c) rules)) [
    | inr (r, d) ↦ absurd (cc)
    | inl d ↦ (find-none→All (blocks_in c) rules e, find-none→All (allows_in c) rules d)
  ]
]

module _ (db : Prisma FirewallRule) where
  evaluate-eq-first_match :
      (user_id : String) (context : RuleMatchContext) (resolve : Option (Option Text))
      (table : List FirewallRule)
      → evaluate_rules db user_id context resolve table
        ≡ first_match (db.find_many (is_active_of user_id) before_by_creation table) (
            with_resolved_ip
              (db.find_many (is_active_of user_id) before_by_creation table)
              context
              resolve)
  unfolding evaluate_rules first_match find
  evaluate-eq-first_match user_id context resolve table =
      go (db.find_many (is_active_of user_id) before_by_creation table)
    where
      go :
          (rules : List FirewallRule)
          → (elim rules [
            | [] ↦ none
            | r ∷ rs ↦ first_match (r ∷ rs) (with_resolved_ip (r ∷ rs) context resolve)
          ])
            ≡ first_match rules (with_resolved_ip rules context resolve)
      go [] = refl
      go (r ∷ rs) = refl

-- An enabled rule of the user that blocks, or allows, in the full context.
abbrev pub blocks : String → RuleMatchContext → FirewallRule → Bool
blocks user_id c r = is_active_of user_id r && blocks_in c r

abbrev pub allows : String → RuleMatchContext → FirewallRule → Bool
allows user_id c r = is_active_of user_id r && allows_in c r

-- The rule decides: it blocks, or it allows and no rule of the table blocks.
abbrev pub Decides : String → RuleMatchContext → List FirewallRule → FirewallRule → Type 0
Decides user_id c table r =
    (blocks user_id c r ≡ true)
    ⊎ ((allows user_id c r ≡ true) × All (λ x. blocks user_id c x ≡ false) table)

module _ (db : Prisma FirewallRule) (user_id : String) (context : RuleMatchContext)
    (resolve : Option (Option Text)) (table : List FirewallRule) where
  abbrev rules : List FirewallRule
  rules = db.find_many (is_active_of user_id) before_by_creation table

  abbrev full : RuleMatchContext
  full = full_context context resolve

  same_block :
      (r : FirewallRule)
      → In r rules
      → blocks user_id full r ≡ blocks_in (with_resolved_ip rules context resolve) r
  same_block r m = rw ((db.of_find_many (is_active_of user_id) before_by_creation table r m).0) (
      ap (λ b. is_block_rule r && b)
        (sym (lazy_context rules context.destination_host context.destination_ip resolve r m)))

  same_allow :
      (r : FirewallRule)
      → In r rules
      → allows user_id full r ≡ allows_in (with_resolved_ip rules context resolve) r
  same_allow r m = rw ((db.of_find_many (is_active_of user_id) before_by_creation table r m).0) (
      ap (λ b. is_allow_rule r && b)
        (sym (lazy_context rules context.destination_host context.destination_ip resolve r m)))

  block_action : (q : FirewallRule) → blocks user_id full q ≡ true → q.action ≡ "BLOCK"
  unfolding is_block_rule
  block_action q h = ground (arith, str_eq_iff q.action "BLOCK")

  -- A test that fails on the user's enabled rules fails on the table.
  none-In-table :
      (f g : FirewallRule → Bool)
      → ((r : FirewallRule) → In r rules → (is_active_of user_id r && f r) ≡ g r)
      → All (λ x. g x ≡ false) rules
      → All (λ x. (is_active_of user_id x && f x) ≡ false) table
  none-In-table f g same h =
      All-of_In (λ x. (is_active_of user_id x && f x) ≡ false) table
        λ x m. elim (Bool-cases (is_active_of user_id x)) [
          | inl e ↦
              let n = db.to_find_many (is_active_of user_id) before_by_creation table x e m in
              same x n ∙ All-in (λ y. g y ≡ false) rules h n
          | inr e ↦ rw e
        ]

  -- A rule is reported only if it is a row of the table, belongs to the user, is enabled, matches
  -- the destination, and blocks it, or allows it while no enabled rule of the user blocks it.
  pub evaluate_rules_sound :
      (m : RuleMatchResult)
      → evaluate_rules db user_id context resolve table ≡ some m
      → (r : FirewallRule) × In r table
        × (m ≡ to_rule_match_result r)
        × Decides user_id full table r
  evaluate_rules_sound m h =
      let c = with_resolved_ip rules context resolve in
      let (r, n, same, decisive) =
        first_match_sound rules c m
          (sym (evaluate-eq-first_match db user_id context resolve table) ∙ h) in
      (
        r,
        (db.of_find_many (is_active_of user_id) before_by_creation table r n).1,
        same,
        elim decisive [
          | inl b ↦ inl (same_block r n ∙ b)
          | inr (a, free) ↦
              inr (same_allow r n ∙ a, none-In-table (blocks_in full) (blocks_in c) same_block free)
        ],
      )

  -- If no rule is reported, no enabled rule of the user blocks or allows the destination.
  pub evaluate_rules-none :
      evaluate_rules db user_id context resolve table ≡ none
      → All (λ x. blocks user_id full x ≡ false) table
        × All (λ x. allows user_id full x ≡ false) table
  evaluate_rules-none h =
      let c = with_resolved_ip rules context resolve in
      let (no_block, no_allow) =
        first_match-none rules c
          (sym (evaluate-eq-first_match db user_id context resolve table) ∙ h) in
      (
        none-In-table (blocks_in full) (blocks_in c) same_block no_block,
        none-In-table (allows_in full) (allows_in c) same_allow no_allow,
      )

  -- An enabled block rule of the user that matches is never outvoted: the answer is a rule that
  -- blocks, whatever other rules allow the destination.
  pub evaluate_rules-blocks :
      (r : FirewallRule)
      → In r table
      → blocks user_id full r ≡ true
      → (m : RuleMatchResult) × (evaluate_rules db user_id context resolve table ≡ some m)
        × (m.action ≡ "BLOCK")
  evaluate_rules-blocks r n b =
      elim (Option-cases (evaluate_rules db user_id context resolve table)) [
        | inl e ↦
            absurd (
              cc (b, All-in (λ x. blocks user_id full x ≡ false) table (evaluate_rules-none e).0 n))
        | inr (m, e) ↦
            let (q, k, same, d) = evaluate_rules_sound m e in
            (
              m,
              e,
              ap (λ x. x.action) same ∙ result_action q ∙ elim d [
                | inl d ↦ block_action q d
                | inr (d, free) ↦
                    absurd (cc (b, All-in (λ x. blocks user_id full x ≡ false) table free n))
              ],
            )
      ]
