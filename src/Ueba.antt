-- ===== src/Ueba.antt =====
-- User behaviour: apps/gateway-backend/src/modules/ueba. Averages and shares are exact fractions
-- where the source has floating point numbers.
pub mod Anomaly
pub mod Listener
pub mod Statistics
pub mod Baseline
pub mod Analytics
mod Examples
use guard_me.Prelude.{ℕ, List, String, Option}
use guard_me.Text.{Text}
use guard_me.Siem.{PolicyDecision, ThreatVerdict}

-- A number that is not negative; the denominator is not zero where one is built.
pub record Fraction : Type 0 where
  pub numerator : ℕ
  pub denominator : ℕ

-- The row of a traffic log as far as the modules read it.
pub record TrafficLog : Type 0 where
  pub id : String
  pub user_id : String
  pub destination_host : Text
  pub policy_decision : PolicyDecision
  pub threat_verdict : ThreatVerdict
  pub risk_score : ℕ
  pub timestamp : ℕ

pub record AverageWithStdDev : Type 0 where
  pub average : Fraction
  pub std_dev : Fraction

-- A count of a plain object of JavaScript: a number, or the text that adding 1 to a member which every
-- object has makes of it.
pub data Count : Type 0 where
  times : ℕ → Count
  garbled : Count

pub record HostFrequency : Type 0 where
  pub host : Text
  pub count : Count

pub record SessionBaseline : Type 0 where
  pub count : ℕ
  pub average_duration_minutes : Fraction

-- The averages are rounded; a record of counts is a list of its entries.
pub record BehaviorBaselineSnapshot : Type 0 where
  pub computed_at : String
  pub window_days : ℕ
  pub sample_size : ℕ
  pub active_hours : List ℕ
  pub most_active_hours : List ℕ
  pub requests_per_hour : AverageWithStdDev
  pub requests_per_active_hour : AverageWithStdDev
  pub requests_per_day : AverageWithStdDev
  pub blocked_per_day : Fraction
  pub policy_decisions : List (PolicyDecision × ℕ)
  pub threat_verdicts : List (ThreatVerdict × ℕ)
  pub method_distribution : List (Text × ℕ)
  pub port_distribution : List (Text × ℕ)
  pub top_hosts : List HostFrequency
  pub known_hosts : List Text
  pub unique_hosts_per_day : Fraction
  pub risk_average : Fraction
  pub risk_max : ℕ
  pub upload_share : Fraction
  pub download_requests_per_day : Fraction
  pub sessions : SessionBaseline
  pub browsers : List (String × ℕ)
