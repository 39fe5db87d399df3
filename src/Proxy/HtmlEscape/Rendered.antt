-- ===== src/Proxy/HtmlEscape/Rendered.antt =====
-- What a browser makes of an escaped text: proxy/utils/html-escape.util.ts.
use guard_me.Prelude.{
  ℕ, ◌≡◌, ◌≢◌, [], ◌∷◌, ◌++◌, nat_beq, arith, Bool-cases, inl, inr, false, nat_beq_iff,
}
use guard_me.Text.{Text, text}
use guard_me.Proxy.HtmlEscape.{html_escape_map, escape_html}

-- A source that holds plain code units and the five entities, and the text that it stands for.
pub data Renders : Text → Text → Type 0 where
  nothing : Renders [] []
  plain :
      {source shown : Text} (c : ℕ)
      → c ≢ 38
      → c ≢ 60
      → c ≢ 62
      → c ≢ 34
      → c ≢ 39
      → Renders source shown
      → Renders (c ∷ source) (c ∷ shown)
  ampersand :
      {source shown : Text} → Renders source shown → Renders (text "&amp;" ++ source) (38 ∷ shown)
  less : {source shown : Text} → Renders source shown → Renders (text "&lt;" ++ source) (60 ∷ shown)
  greater :
      {source shown : Text} → Renders source shown → Renders (text "&gt;" ++ source) (62 ∷ shown)
  quote :
      {source shown : Text} → Renders source shown → Renders (text "&quot;" ++ source) (34 ∷ shown)
  apostrophe :
      {source shown : Text} → Renders source shown → Renders (text "&#39;" ++ source) (39 ∷ shown)

differs : (c k : ℕ) → nat_beq c k ≡ false → c ≢ k
differs c k h e = ground (arith, nat_beq_iff c k)

Renders-unit :
    (c : ℕ) {source shown : Text}
    → Renders source shown
    → Renders (html_escape_map c ++ source) (c ∷ shown)
unfolding html_escape_map
Renders-unit c r = elim (Bool-cases (nat_beq c 38)) [
  | inl t ↦ rw ((nat_beq_iff c 38).0 t) (ampersand r)
  | inr a ↦ elim (Bool-cases (nat_beq c 60)) [
    | inl t ↦ rw ((nat_beq_iff c 60).0 t) (less r)
    | inr b ↦ elim (Bool-cases (nat_beq c 62)) [
      | inl t ↦ rw ((nat_beq_iff c 62).0 t) (greater r)
      | inr d ↦ elim (Bool-cases (nat_beq c 34)) [
        | inl t ↦ rw ((nat_beq_iff c 34).0 t) (quote r)
        | inr e ↦ elim (Bool-cases (nat_beq c 39)) [
          | inl t ↦ rw ((nat_beq_iff c 39).0 t) (apostrophe r)
          | inr f ↦
              rw (a, b, d, e, f)
                (plain c (differs c 38 a) (differs c 60 b) (differs c 62 d) (differs c 34 e)
                  (differs c 39 f) r)
        ]
      ]
    ]
  ]
]

-- An escaped text holds no markup: it is made of plain code units and of the five entities alone,
-- and what it stands for is the text that was escaped.
pub escape_html-Renders : (value : Text) → Renders (escape_html value) value
unfolding escape_html
escape_html-Renders [] = nothing
escape_html-Renders (c ∷ value) = Renders-unit c (escape_html-Renders value)
