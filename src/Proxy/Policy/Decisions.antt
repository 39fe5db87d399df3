-- ===== src/Proxy/Policy/Decisions.antt =====
-- Which decision `decide` takes, against the table that the policy stands for.
use guard_me.Prelude.{◌≡◌, refl, ◌⊎◌, ◌↔◌, ◌≢◌, Bool, true, false, ◌&&◌, Option, none, some, arith}
use guard_me.Siem.{allow, warn, block, ThreatVerdict, safe, suspicious, malicious, unverified}
use guard_me.Threat.{ThreatScanResult}
use guard_me.Proxy.Inspection.FileScan.{FileScanResult}
use guard_me.Proxy.Policy.{decide_from_file_scan, decide_from_threat_scan, decide}

-- The verdict on the file, where there is a file that was scanned.
abbrev pub file_verdict : Option FileScanResult → Option ThreatVerdict
file_verdict none = none
file_verdict (some f) = some f.verdict

-- A verdict on a file that leaves the decision to the scan of the URL.
abbrev pub IsHarmless : Option FileScanResult → Type 0
IsHarmless file = (file_verdict file ≢ some malicious) × (file_verdict file ≢ some suspicious)

-- The policy on scans, which is behind the rules of the user and the bypass tokens, decides to allow
-- exactly if the file, if there is one, was found neither malicious nor suspicious, and the URL was
-- found safe, or is unverified and either a scan took place or the program fails open.
pub decide-allow_iff :
    (closed : Bool) (scan : ThreatScanResult) (file : Option FileScanResult)
    → ((decide closed scan file).decision ≡ allow) ↔ (
        IsHarmless file
        × ((scan.verdict ≡ safe)
            ⊎ ((scan.verdict ≡ unverified) × ((scan.metadata.fail_safe && closed) ≡ false))))
unfolding decide decide_from_file_scan decide_from_threat_scan
decide-allow_iff closed scan file = ground arith

-- The policy on scans decides to block exactly if the file is malicious, or it is not suspicious and
-- the URL is malicious or could not be scanned while the program fails closed.
pub decide-block_iff :
    (closed : Bool) (scan : ThreatScanResult) (file : Option FileScanResult)
    → ((decide closed scan file).decision ≡ block) ↔ (
        (file_verdict file ≡ some malicious)
        ⊎ ((file_verdict file ≢ some suspicious)
            × ((scan.verdict ≡ malicious)
                ⊎ ((scan.verdict ≡ unverified) × ((scan.metadata.fail_safe && closed) ≡ true)))))
unfolding decide decide_from_file_scan decide_from_threat_scan
decide-block_iff closed scan file = ground arith

-- A suspicious file lowers the policy's decision on a malicious URL: it is only warned of, where
-- without the file it is blocked, whatever the strategy on failures is.
pub suspicious_file-hides-malicious_url :
    (closed : Bool) (scan : ThreatScanResult) (file : FileScanResult)
    → scan.verdict ≡ malicious
    → file.verdict ≡ suspicious
    → ((decide closed scan (some file)).decision ≡ warn)
      × ((decide closed scan none).decision ≡ block)
unfolding decide decide_from_file_scan decide_from_threat_scan
suspicious_file-hides-malicious_url closed scan file m s = (rw s refl, rw m refl)
