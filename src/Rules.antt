-- ===== src/Rules.antt =====
-- The firewall rules of a user: apps/gateway-backend/src/modules/rules. The row of the table
-- `firewall_rules`, what a match reports, and the children for the matcher, the service and proofs.
pub mod Matcher
pub mod Service
pub mod Domains
pub mod Evaluation
pub mod Ownership
pub mod History
mod Examples
use guard_me.Prelude.{ℕ, Bool, Option, String}
use guard_me.Text.{Text}

-- Dates are milliseconds since the epoch.
pub record FirewallRule : Type 0 where
  pub id : String
  pub user_id : String
  pub name : Option Text
  pub rule_type : String
  pub pattern : Text
  pub action : String
  pub enabled : Bool
  pub created_at : ℕ
  pub updated_at : ℕ

pub record RuleMatchContext : Type 0 where
  pub destination_host : Text
  pub destination_ip : Option Text

pub record RuleMatchResult : Type 0 where
  pub rule_id : String
  pub rule_name : Option Text
  pub rule_type : String
  pub pattern : Text
  pub action : String
