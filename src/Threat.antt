-- ===== src/Threat.antt =====
-- Threat intelligence: apps/gateway-backend/src/modules/threat.
pub mod VirusTotal
pub mod Service
mod Examples
use guard_me.Prelude.{ℕ, Bool, Option, String}
use guard_me.Text.{Text}
use guard_me.Siem.{ThreatVerdict}

-- The counts of an analysis, each of which the provider may leave out.
pub record VirusTotalAnalysisStats : Type 0 where
  pub malicious : Option ℕ
  pub suspicious : Option ℕ
  pub harmless : Option ℕ
  pub undetected : Option ℕ
  pub timeout : Option ℕ

-- The keys of a scan's metadata that the source sets, but for the report's reputation and final
-- URL, which nothing reads, and the URL of a failed scan, which `scanned_url` is.
pub record ScanMetadata : Type 0 where
  pub fail_safe : Bool
  pub reason : Option String
  pub source : Option String
  pub error : Option Text
  pub analysis_id : Option String
  pub last_analysis_stats : Option VirusTotalAnalysisStats

pub record ThreatScanResult : Type 0 where
  pub verdict : ThreatVerdict
  pub risk_score : ℕ
  pub scanned_url : String
  pub metadata : ScanMetadata
