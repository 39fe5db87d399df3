-- ===== src/Proxy/Inspection/FileScan.antt =====
-- `simulateFileScan` of proxy/inspection.service.ts: the verdict on a download by its extension.
use guard_me.Prelude.{
  ℕ, ◌≡◌, refl, ap, ◌∙◌, ◌≢◌, Bool, true, false, not, ◌||◌, Option, none, some, List, [], ◌∷◌, ◌++◌,
  arith, any, if◌then◌else◌,
}
use guard_me.Text.{Text, text, ◌==◌, cut_last, to_lower_case, lower_unit}
use guard_me.Text.Laws.{to_lower_case-append}
use guard_me.Text.Splitting.{IsFree, cut_last-append}
use guard_me.Siem.{ThreatVerdict, safe, suspicious, malicious}
use guard_me.Proxy.Inspection.{InspectionResult}

pub record FileScanResult : Type 0 where
  pub file_name : Text
  pub verdict : ThreatVerdict
  pub risk_score : ℕ
  pub reason : Text

unfoldable pub high_risk_extensions : List Text
high_risk_extensions =
    text ".exe"
    ∷ text ".msi"
    ∷ text ".bat"
    ∷ text ".cmd"
    ∷ text ".scr"
    ∷ text ".pif"
    ∷ text ".vbs"
    ∷ text ".js"
    ∷ text ".jar"
    ∷ text ".dll"
    ∷ text ".ps1"
    ∷ text ".hta"
    ∷ text ".com"
    ∷ []

unfoldable pub suspicious_extensions : List Text
suspicious_extensions = text ".zip" ∷ text ".rar" ∷ text ".7z" ∷ text ".iso" ∷ []

-- `set.has(s)`
abbrev pub has : List Text → Text → Bool
has set s = any (λ t. t == s) set

-- From the last dot on, or nothing.
unfoldable pub extract_extension : Text → Text
extract_extension file_name = elim (cut_last b'.' file_name) [ none ↦ [] | some p ↦ b'.' ∷ p.1 ]

-- The scan of a file name by its extension in lower case.
unfoldable pub scan_extension : Text → Text → FileScanResult
scan_extension file_name extension =
    if has high_risk_extensions extension
    then record {
      file_name = file_name;
      verdict = malicious;
      risk_score = 85;
      reason = text "High-risk file extension (" ++ extension ++ text ")";
    }
    else if has suspicious_extensions extension
    then record {
      file_name = file_name;
      verdict = suspicious;
      risk_score = 55;
      reason = text "Archive or disk image extension (" ++ extension ++ text ")";
    }
    else record {
      file_name = file_name;
      verdict = safe;
      risk_score = 15;
      reason = text "No high-risk file extension detected";
    }

abbrev is_empty : Text → Bool
is_empty [] = true
is_empty (c ∷ s) = false

unfoldable pub simulate_file_scan : InspectionResult → Option FileScanResult
unfolding extract_extension
simulate_file_scan inspection = elim inspection.file_name [
  | none ↦ none
  | some file_name ↦
      if not inspection.is_file_download || is_empty file_name
      then none
      else some (scan_extension file_name (extract_extension (to_lower_case file_name)))
]

lower-IsFree : (s : Text) → IsFree b'.' s → IsFree b'.' (to_lower_case s)
unfolding to_lower_case lower_unit
lower-IsFree [] h = tt
lower-IsFree (c ∷ s) (e, h) = (ground arith, lower-IsFree s h)

to_lower_case-dot : (ext : Text) → to_lower_case (b'.' ∷ ext) ≡ b'.' ∷ to_lower_case ext
unfolding to_lower_case lower_unit
to_lower_case-dot ext = refl

extension-lower :
    (stem ext : Text)
    → IsFree b'.' ext
    → extract_extension (to_lower_case (stem ++ (b'.' ∷ ext))) ≡ b'.' ∷ to_lower_case ext
unfolding extract_extension to_lower_case
extension-lower stem ext h =
    ap extract_extension (to_lower_case-append stem (b'.' ∷ ext))
    ∙ rw
        (
          to_lower_case-dot ext,
          extract_extension,
          cut_last-append b'.' (to_lower_case stem) (to_lower_case ext) (lower-IsFree ext h),
        )
        refl

nonempty : (stem ext : Text) → ext ≢ [] → is_empty (stem ++ ext) ≡ false
nonempty [] [] h = absurd (h refl)
nonempty [] (c ∷ s) h = refl
nonempty (c ∷ s) ext h = refl

-- The scan of a download whose name ends in a dot and an extension depends on the extension alone,
-- in whatever case it is written and whatever stands before the dot.
pub simulate_file_scan-extension :
    (inspection : InspectionResult) (stem ext : Text)
    → inspection.is_file_download ≡ true
    → inspection.file_name ≡ some (stem ++ (b'.' ∷ ext))
    → IsFree b'.' ext
    → simulate_file_scan inspection
      ≡ some (scan_extension (stem ++ (b'.' ∷ ext)) (b'.' ∷ to_lower_case ext))
unfolding simulate_file_scan
simulate_file_scan-extension inspection stem ext download named free =
    let e = extension-lower stem ext free in
    rw (named, download)
      (rw (nonempty stem (b'.' ∷ ext) (λ e. cc))
        (ap (λ x. some (scan_extension (stem ++ (b'.' ∷ ext)) x)) e))
