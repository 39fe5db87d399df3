-- ===== src/Rules/Matcher.antt =====
-- rules/utils/rule-matcher.util.ts
use guard_me.Prelude.{
  ℕ, Bool, true, false, not, ◌&&◌, ◌||◌, Option, none, some, [], ◌∷◌, String, Result, ok, err,
  failure, leb, nat_beq, take, filter, str_eq, if◌then◌else◌,
}
use guard_me.Text.{Text, ◌==◌, ends_with, to_lower_case, trim}
use guard_me.Rules.{FirewallRule, RuleMatchContext, RuleMatchResult}

abbrev domain_pattern_max : ℕ
domain_pattern_max = 253

-- /[\x00-\x1F\x7F]/
unfoldable pub is_control : ℕ → Bool
is_control c = leb c 0x1f || nat_beq c 0x7f

-- `.replace(/\.$/, '')`
unfoldable pub strip_trailing_dot : Text → Text
strip_trailing_dot [] = []
strip_trailing_dot (c ∷ []) = if nat_beq c b'.' then [] else c ∷ []
strip_trailing_dot (c ∷ d ∷ s) = c ∷ strip_trailing_dot (d ∷ s)

abbrev pub is_empty : Text → Bool
is_empty [] = true
is_empty (c ∷ s) = false

unfoldable pub clean_pattern : Text → Text
unfolding is_control
clean_pattern pattern = take domain_pattern_max (filter (λ c. not (is_control c)) (trim pattern))

unfoldable pub normalize_rule_pattern : String → Text → Result Text
unfolding clean_pattern
normalize_rule_pattern rule_type pattern =
    let trimmed = clean_pattern pattern in
    if is_empty trimmed
    then err (failure "Pattern is required")
    else if str_eq rule_type "IP"
    then ok trimmed
    else ok (strip_trailing_dot (to_lower_case trimmed))

unfoldable pub matches_domain_rule : Text → Text → Bool
matches_domain_rule host pattern =
    let normalized_host = to_lower_case host in
    let normalized_pattern = to_lower_case pattern in
    if normalized_host == normalized_pattern
    then true
    else ends_with normalized_host (b'.' ∷ normalized_pattern)

-- `destinationIp && destinationIp === pattern`: an empty text is false too.
unfoldable pub is_resolved_to : Option Text → Text → Bool
is_resolved_to none pattern = false
is_resolved_to (some ip) pattern = not (is_empty ip) && ip == pattern

unfoldable pub matches_ip_rule : Text → Option Text → Text → Bool
unfolding is_resolved_to
matches_ip_rule host_or_ip destination_ip pattern =
    let normalized_pattern = trim pattern in
    if is_resolved_to destination_ip normalized_pattern
    then true
    else host_or_ip == normalized_pattern

unfoldable pub rule_matches_context : FirewallRule → RuleMatchContext → Bool
rule_matches_context rule context =
    if not rule.enabled
    then false
    else if str_eq rule.rule_type "DOMAIN"
    then matches_domain_rule context.destination_host rule.pattern
    else if str_eq rule.rule_type "IP"
    then matches_ip_rule context.destination_host context.destination_ip rule.pattern
    else false

unfoldable pub is_block_rule : FirewallRule → Bool
is_block_rule rule = str_eq rule.action "BLOCK"

unfoldable pub is_allow_rule : FirewallRule → Bool
is_allow_rule rule = str_eq rule.action "ALLOW"

unfoldable pub to_rule_match_result : FirewallRule → RuleMatchResult
to_rule_match_result rule = record {
  rule_id = rule.id;
  rule_name = rule.name;
  rule_type = rule.rule_type;
  pattern = rule.pattern;
  action = rule.action;
}
