-- ===== src/Rules/Service.antt =====
-- rules/rules.service.ts. The table is a list of rows behind the database interface; the clock and
-- the identifier that the database gives a new row are arguments.
use guard_me.Prelude.{
  ℕ, Bool, true, false, not, ◌&&◌, ◌||◌, Option, none, some, List, [], ◌∷◌, String, Result, ok, err,
  http, ◌>>=◌, ltb, any, find, str_eq, if◌then◌else◌,
}
use guard_me.Text.{Text, trim}
use guard_me.Database.{Prisma}
use guard_me.Rules.{FirewallRule, RuleMatchContext, RuleMatchResult}
use guard_me.Rules.Matcher.{
  is_empty, normalize_rule_pattern, rule_matches_context, is_block_rule, is_allow_rule,
  to_rule_match_result,
}

pub record SystemPolicyRule : Type 0 where
  pub id : String
  pub name : String
  pub condition : String
  pub action : String

abbrev pub system_rules : List SystemPolicyRule
system_rules =
    record {
      id = "system-malicious-block";
      name = "Malicious URL block";
      condition = "Threat verdict is MALICIOUS";
      action = "BLOCK";
    }
    ∷ record {
      id = "system-suspicious-warn";
      name = "Suspicious URL warning";
      condition = "Threat verdict is SUSPICIOUS";
      action = "WARN";
    }
    ∷ record {
      id = "system-safe-allow";
      name = "Safe URL allow";
      condition = "Threat verdict is SAFE";
      action = "ALLOW";
    }
    ∷ record {
      id = "system-unverified-allow";
      name = "Unverified URL allow (fail-open)";
      condition = "Threat verdict is UNVERIFIED";
      action = "ALLOW";
    }
    ∷ record {
      id = "system-malicious-file";
      name = "Malicious file download block";
      condition = "Simulated file scan verdict is MALICIOUS";
      action = "BLOCK";
    }
    ∷ []

pub record CreateFirewallRuleDto : Type 0 where
  pub name : Option Text
  pub rule_type : String
  pub pattern : Text
  pub action : String
  pub enabled : Option Bool

pub record UpdateFirewallRuleDto : Type 0 where
  pub name : Option Text
  pub rule_type : Option String
  pub pattern : Option Text
  pub action : Option String
  pub enabled : Option Bool

-- `toFirewallRulePayload`, with the dates kept as numbers, has every field of the row.
abbrev pub FirewallRulePayload : Type 0
FirewallRulePayload = FirewallRule

abbrev pub RulesListPayload : Type 0
RulesListPayload = List SystemPolicyRule × List FirewallRulePayload

-- `a ?? b`
abbrev pub or_else {ℓ} : {A : Type ℓ} → Option A → A → A
or_else none b = b
or_else (some a) b = a

-- `text.trim() || null`
unfoldable pub trimmed_or_null : Text → Option Text
trimmed_or_null s = let t = trim s in if is_empty t then none else some t

unfoldable pub resolve_pattern : String → Text → Result Text
resolve_pattern rule_type pattern = elim (normalize_rule_pattern rule_type pattern) [
  | ok p ↦ ok p
  | err _ ↦ err (http 400 "Invalid rule pattern")
]

-- `orderBy: [{ enabled: 'desc' }, { createdAt: 'desc' }]`, false before true in ascending order
abbrev pub before_in_list : FirewallRule → FirewallRule → Bool
before_in_list r s =
    (r.enabled && not s.enabled)
    || (not (r.enabled && not s.enabled)
        && not (s.enabled && not r.enabled)
        && ltb s.created_at r.created_at)

-- `orderBy: { createdAt: 'asc' }`
abbrev pub before_by_creation : FirewallRule → FirewallRule → Bool
before_by_creation r s = ltb r.created_at s.created_at

abbrev pub owned_by : String → FirewallRule → Bool
owned_by user_id r = str_eq r.user_id user_id

abbrev pub is_row : String → FirewallRule → Bool
is_row rule_id r = str_eq r.id rule_id

-- `where: { userId, enabled: true }`
abbrev pub is_active_of : String → FirewallRule → Bool
is_active_of user_id r = owned_by user_id r && r.enabled

-- The fields that the update leaves undefined keep their value; `updatedAt` is set by the database.
unfoldable pub patch_rule : UpdateFirewallRuleDto → Option Text → ℕ → FirewallRule → FirewallRule
patch_rule dto pattern now row = record row {
  name = elim dto.name [ none ↦ row.name | some n ↦ trimmed_or_null n ];
  rule_type = or_else dto.rule_type row.rule_type;
  pattern = or_else pattern row.pattern;
  action = or_else dto.action row.action;
  enabled = or_else dto.enabled row.enabled;
  updated_at = now;
}

-- `pattern` of `updateForUser`: resolved anew if the pattern or the type is given.
unfoldable pub updated_pattern : UpdateFirewallRuleDto → FirewallRule → Result (Option Text)
updated_pattern dto existing =
    let rule_type = or_else dto.rule_type existing.rule_type in
    let resolved : Result (Option Text) = (do
      p ← resolve_pattern rule_type (or_else dto.pattern existing.pattern)
      ok (some p)) in
    elim dto.pattern [
      | some _ ↦ resolved
      | none ↦ elim dto.rule_type [ some _ ↦ resolved | none ↦ ok none ]
    ]

unfoldable pub needs_resolved_ip : List FirewallRule → RuleMatchContext → Bool
needs_resolved_ip rules context = elim context.destination_ip [
  | some _ ↦ false
  | none ↦ any (λ r. str_eq r.rule_type "IP") rules
]

-- `resolve` is the resolver, if one is given, as the answer that it would give.
unfoldable pub with_resolved_ip :
    List FirewallRule → RuleMatchContext → Option (Option Text) → RuleMatchContext
with_resolved_ip rules context none = context
with_resolved_ip rules context (some resolved) =
    if needs_resolved_ip rules context
    then record context { destination_ip = resolved }
    else context

unfoldable pub first_match : List FirewallRule → RuleMatchContext → Option RuleMatchResult
first_match rules context =
    elim (find (λ r. is_block_rule r && rule_matches_context r context) rules) [
      | some r ↦ some (to_rule_match_result r)
      | none ↦ elim (find (λ r. is_allow_rule r && rule_matches_context r context) rules) [
        | some r ↦ some (to_rule_match_result r)
        | none ↦ none
      ]
    ]

module _ (db : Prisma FirewallRule) where
  unfoldable pub list_for_user : String → List FirewallRule → RulesListPayload
  list_for_user user_id table = (system_rules, db.find_many (owned_by user_id) before_in_list table)

  unfoldable pub create_for_user :
      String
      → CreateFirewallRuleDto
      → String
      → ℕ
      → List FirewallRule
      → Result (FirewallRulePayload × List FirewallRule)
  create_for_user user_id dto new_id now table = do
    pattern ← resolve_pattern dto.rule_type dto.pattern
    let row : FirewallRule = record {
      id = new_id;
      user_id = user_id;
      name = elim dto.name [ none ↦ none | some n ↦ trimmed_or_null n ];
      rule_type = dto.rule_type;
      pattern = pattern;
      action = dto.action;
      enabled = or_else dto.enabled true;
      created_at = now;
      updated_at = now;
    }
    ok (row, db.create row table)

  unfoldable pub find_owned_rule : String → String → List FirewallRule → Result FirewallRule
  find_owned_rule user_id rule_id table =
      elim (db.find_first (λ r. is_row rule_id r && owned_by user_id r) table) [
        | none ↦ err (http 404 "Firewall rule not found")
        | some r ↦ ok r
      ]

  unfoldable pub update_for_user :
      String
      → String
      → UpdateFirewallRuleDto
      → ℕ
      → List FirewallRule
      → Result (FirewallRulePayload × List FirewallRule)
  update_for_user user_id rule_id dto now table = do
    existing ← find_owned_rule user_id rule_id table
    pattern ← updated_pattern dto existing
    ok (
      patch_rule dto pattern now existing,
      db.update_many (is_row rule_id) (patch_rule dto pattern now) table,
    )

  unfoldable pub delete_for_user : String → String → List FirewallRule → Result (List FirewallRule)
  delete_for_user user_id rule_id table = do
    found ← find_owned_rule user_id rule_id table
    ok (db.delete_many (is_row rule_id) table)

  unfoldable pub evaluate_rules :
      String → RuleMatchContext → Option (Option Text) → List FirewallRule → Option RuleMatchResult
  evaluate_rules user_id context resolve table =
      let rules = db.find_many (is_active_of user_id) before_by_creation table in
      elim rules [
        | [] ↦ none
        | r ∷ rs ↦ first_match (r ∷ rs) (with_resolved_ip (r ∷ rs) context resolve)
      ]
