-- ===== src/Proxy/HtmlEscape/Pages.antt =====
-- proxy/utils/template-render.util.ts, with the variables of block-page.service.ts and
-- warning-page.service.ts. Reading the template's file is left to the caller.
use guard_me.Prelude.{
  ℕ, zero, suc, Bool, ◌&&◌, ◌||◌, Option, none, some, List, [], ◌∷◌, ◌++◌, length, leb, nat_beq,
  if◌then◌else◌,
}
use guard_me.Text.{Text, text, ◌==◌, to_lower_case}
use guard_me.Text.Printing.{decimal}
use guard_me.Siem.Names.{verdict_name}
use guard_me.Threat.{ThreatScanResult}
use guard_me.Proxy.HtmlEscape.{escape_html}

-- What a template literal or `Record<string, string>` gives for a key.
abbrev pub Variables : Type 0
Variables = List (Text × Text)

unfoldable pub variable : Text → Variables → Option Text
variable key [] = none
variable key ((k, v) ∷ variables) =
    let rest = variable key variables in if k == key then some v else rest

-- \w
abbrev pub is_word : ℕ → Bool
is_word c =
    (leb 48 c && leb c 57) || (leb 65 c && leb c 90) || nat_beq c 95 || (leb 97 c && leb c 122)

-- `\}\}` at the start: what comes behind it.
abbrev pub closing : ℕ → Text → Option (Text × Text)
closing c [] = none
closing c (d ∷ behind) = if nat_beq c 125 && nat_beq d 125 then some ([], behind) else none

-- `\w*\}\}` at the start: the word, and what comes behind it.
unfoldable pub match_word : Text → Option (Text × Text)
match_word [] = none
match_word (c ∷ s) =
    let rest = match_word s in
    if is_word c then (elim rest [ none ↦ none | some p ↦ some (c ∷ p.0, p.1) ]) else closing c s

abbrev pub non_empty_key : Option (Text × Text) → Option (Text × Text)
non_empty_key none = none
non_empty_key (some ([], behind)) = none
non_empty_key (some (c ∷ key, behind)) = some (c ∷ key, behind)

-- /\{\{(\w+)\}\}/ at the start.
unfoldable pub match_placeholder : Text → Option (Text × Text)
unfolding match_word
match_placeholder [] = none
match_placeholder (c ∷ []) = none
match_placeholder (c ∷ d ∷ s) =
    if nat_beq c 123 && nat_beq d 123 then non_empty_key (match_word s) else none

-- The value of a placeholder; keys that every object has are not told apart from others.
abbrev pub value_of : Text → Variables → Text
value_of key variables = elim (variable key variables) [ none ↦ [] | some v ↦ escape_html v ]

-- `template.replace(…)`, on fuel: each round takes a code unit at least.
unfoldable pub render_from : (fuel : ℕ) → Text → Variables → Text
unfolding match_placeholder
render_from zero template variables = []
render_from (suc fuel) [] variables = []
render_from (suc fuel) (c ∷ s) variables = elim (match_placeholder (c ∷ s)) [
  | none ↦ c ∷ render_from fuel s variables
  | some p ↦ value_of p.0 variables ++ render_from fuel p.1 variables
]

unfoldable pub render_template : Text → Variables → Text
unfolding render_from
render_template template variables = render_from (length template) template variables

pub record BlockPageContext : Type 0 where
  pub url : Text
  pub reason : Text
  pub timestamp : ℕ
  pub risk_score : ℕ

pub record WarningPageContext : Type 0 where
  pub url : Text
  pub reason : Text
  pub threat_summary : Text
  pub timestamp : ℕ
  pub risk_score : ℕ
  pub proceed_url : Text

-- `timestamp` is the time of the clock where the caller gives none.
unfoldable pub build_context :
    (url reason threat_summary : Text)
    → (risk_score : ℕ) → (proceed_url : Text) → (timestamp : Option ℕ) → (now : ℕ)
    → WarningPageContext
build_context url reason threat_summary risk_score proceed_url timestamp now = record {
  url = url;
  reason = reason;
  threat_summary = threat_summary;
  timestamp = elim timestamp [ none ↦ now | some t ↦ t ];
  risk_score = risk_score;
  proceed_url = proceed_url;
}

abbrev or_zero : Option ℕ → ℕ
or_zero none = 0
or_zero (some n) = n

-- The sentence of utils/threat-summary.util.ts.
unfoldable pub build_threat_summary : ThreatScanResult → Text
build_threat_summary scan = elim scan.metadata.last_analysis_stats [
  | none ↦
      text "Threat provider reported "
      ++ to_lower_case (text (verdict_name scan.verdict))
      ++ text " with risk score "
      ++ decimal scan.risk_score
      ++ text "."
  | some stats ↦
      text "VirusTotal: "
      ++ decimal (or_zero stats.malicious)
      ++ text " malicious, "
      ++ decimal (or_zero stats.suspicious)
      ++ text " suspicious, "
      ++ decimal (or_zero stats.harmless)
      ++ text " harmless detections."
]

-- `iso` is `toISOString`.
module _ (iso : ℕ → Text) (template : Text) where
  unfoldable pub render_block_page : BlockPageContext → Text
  unfolding render_template
  render_block_page context = render_template template (
      (text "url", context.url)
      ∷ (text "reason", context.reason)
      ∷ (text "riskScore", decimal context.risk_score)
      ∷ (text "timestamp", iso context.timestamp)
      ∷ [])

  unfoldable pub render_warning_page : WarningPageContext → Text
  unfolding render_template
  render_warning_page context = render_template template (
      (text "url", context.url)
      ∷ (text "reason", context.reason)
      ∷ (text "threatSummary", context.threat_summary)
      ∷ (text "riskScore", decimal context.risk_score)
      ∷ (text "timestamp", iso context.timestamp)
      ∷ (text "proceedUrl", context.proceed_url)
      ∷ [])
