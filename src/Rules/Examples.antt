-- ===== src/Rules/Examples.antt =====
-- Runs of the rules at concrete tables, and the theorems applied there.
use guard_me.Prelude.{
  ◌≡◌, refl, sym, ◌∙◌, ◌≢◌, inl, inr, ◌↔◌, true, none, some, List, [], ◌∷◌, String, ok, arith, In,
  find, filter, str_eq_iff,
}
use guard_me.Text.{text, ◌==◌, to_lower_case, ends_with, trim, split}
use guard_me.Database.Memory.{memory}
use guard_me.Rules.{FirewallRule, RuleMatchContext, RuleMatchResult}
use guard_me.Rules.Matcher.{
  clean_pattern, strip_trailing_dot, normalize_rule_pattern, matches_domain_rule, matches_ip_rule,
  rule_matches_context, is_block_rule, is_allow_rule, to_rule_match_result,
}
use guard_me.Rules.Service.{
  CreateFirewallRuleDto, create_for_user, evaluate_rules, with_resolved_ip, needs_resolved_ip,
  first_match, resolve_pattern, trimmed_or_null,
}
use guard_me.Rules.Evaluation.{
  full_context, blocks, Decides, evaluate_rules_sound, evaluate_rules-blocks,
}
use guard_me.Rules.Ownership.{HasUniqueIds}
use guard_me.Rules.History.{Step, StepsOfOthers, rules_isolated}

abbrev allow_all : FirewallRule
allow_all = record {
  id = "r1";
  user_id = "ann";
  name = none;
  rule_type = "DOMAIN";
  pattern = text "example.com";
  action = "ALLOW";
  enabled = true;
  created_at = 1;
  updated_at = 1;
}

abbrev block_ads : FirewallRule
block_ads = record allow_all {
  id = "r2";
  pattern = text "ads.example.com";
  action = "BLOCK";
  created_at = 2;
}

abbrev table : List FirewallRule
table = allow_all ∷ block_ads ∷ []

abbrev visit : RuleMatchContext
visit = record { destination_host = text "Ads.Example.com"; destination_ip = none }

run_rules : Unit {0}
unfolding memory evaluate_rules first_match with_resolved_ip needs_resolved_ip rule_matches_context
    matches_domain_rule matches_ip_rule is_block_rule is_allow_rule to_rule_match_result
    to_lower_case ends_with ◌==◌ text find filter trim split create_for_user resolve_pattern
    normalize_rule_pattern trimmed_or_null strip_trailing_dot clean_pattern
run_rules = tt

block_wins :
    (evaluate_rules memory "ann" visit (some none) table ≡ some (to_rule_match_result block_ads))
    × (evaluate_rules memory "bob" visit (some none) table ≡ none)
    × (evaluate_rules memory "ann"
          (record visit { destination_host = text "www.example.com" })
          none
          table
        ≡ some (to_rule_match_result allow_all))
    × (evaluate_rules memory "ann"
          (record visit { destination_host = text "badexample.com" })
          none
          table
        ≡ none)
unfolding run_rules
block_wins = (refl, refl, refl, refl)

evaluate_rules_sound_example :
    (r : FirewallRule) × In r table
    × (to_rule_match_result block_ads ≡ to_rule_match_result r)
    × Decides "ann" (full_context visit (some none)) table r
evaluate_rules_sound_example =
    evaluate_rules_sound memory "ann" visit (some none) table (to_rule_match_result block_ads)
      block_wins.0

block_ads-blocks : blocks "ann" (full_context visit (some none)) block_ads ≡ true
unfolding run_rules
block_ads-blocks = refl

evaluate_rules-blocks_example :
    (m : RuleMatchResult) × (evaluate_rules memory "ann" visit (some none) table ≡ some m)
    × (m.action ≡ "BLOCK")
evaluate_rules-blocks_example =
    evaluate_rules-blocks memory "ann" visit (some none) table block_ads (inr (inl refl))
      block_ads-blocks

normalized_rule : normalize_rule_pattern "DOMAIN" (text " Example.COM. ") ≡ ok (text "example.com")
unfolding run_rules
normalized_rule = refl

dot_cleaned : clean_pattern (text " . ") ≡ b'.' ∷ []
unfolding run_rules
dot_cleaned = refl

abbrev first_table : List FirewallRule
first_table = allow_all ∷ []

first_table-HasUniqueIds : HasUniqueIds first_table
first_table-HasUniqueIds x y (inl a) (inl b) e = a ∙ sym b
first_table-HasUniqueIds x y (inr a) n e = elim a [ ]
first_table-HasUniqueIds x y (inl a) (inr b) e = elim b [ ]

abbrev block_dto : CreateFirewallRuleDto
block_dto = record {
  name = none;
  rule_type = "DOMAIN";
  pattern = text "example.com";
  action = "BLOCK";
  enabled = none;
}

abbrev created_row : FirewallRule
created_row = record {
  id = "r9";
  user_id = "bob";
  name = none;
  rule_type = "DOMAIN";
  pattern = text "example.com";
  action = "BLOCK";
  enabled = true;
  created_at = 5;
  updated_at = 5;
}

bob_creates :
    create_for_user memory "bob" block_dto "r9" 5 first_table
    ≡ ok (created_row, allow_all ∷ created_row ∷ [])
unfolding run_rules
bob_creates = refl

id_fresh : (x : FirewallRule) → In x first_table → x.id ≢ "r9"
id_fresh x (inl e) q = ground (arith, str_eq_iff "r1" "r9")
id_fresh x (inr m) q = elim m [ ]

bob_ne_ann : ◌≢◌ {A = String} "bob" "ann"
bob_ne_ann = ground (arith, str_eq_iff "bob" "ann")

rules_isolated_example :
    HasUniqueIds (allow_all ∷ created_row ∷ [])
    × ((x : FirewallRule)
        → x.user_id ≡ "ann"
        → In x first_table ↔ In x (allow_all ∷ created_row ∷ []))
rules_isolated_example =
    rules_isolated memory "ann" first_table (allow_all ∷ created_row ∷ []) first_table-HasUniqueIds
      (StepsOfOthers.next StepsOfOthers.here "bob" bob_ne_ann
        (Step.created block_dto "r9" 5 created_row id_fresh bob_creates))
