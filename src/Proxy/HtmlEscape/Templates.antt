-- ===== src/Proxy/HtmlEscape/Templates.antt =====
-- What the rendering of proxy/utils/template-render.util.ts can and cannot put into a page.
use guard_me.Prelude.{
  ℕ, zero, suc, ◌≤◌, ◌≡◌, refl, sym, ap, ◌∙◌, inl, inr, Option, none, some, List, [], ◌∷◌, ◌++◌,
  arith, length, Option-cases, Bool-cases, nat_beq, Bool, ◌||◌, ◌&&◌, filter,
}
use guard_me.Text.{Text, text}
use guard_me.Proxy.HtmlEscape.{html_escape_map, escape_html}
use guard_me.Proxy.HtmlEscape.Pages.{
  Variables, variable, value_of, is_word, closing, non_empty_key, match_word, match_placeholder,
  render_from, render_template,
}

-- A piece of a template: a code unit that stays, or the place of a variable.
pub data Piece : Type 0 where
  unit : ℕ → Piece
  hole : Text → Piece

abbrev pub piece_text : Variables → Piece → Text
piece_text variables (unit c) = c ∷ []
piece_text variables (hole key) = value_of key variables

abbrev pub pieces_text : Variables → List Piece → Text
pieces_text variables [] = []
pieces_text variables (p ∷ pieces) = piece_text variables p ++ pieces_text variables pieces

-- The pieces of a template, which no variable has a part in.
unfoldable pub pieces_from : (fuel : ℕ) → Text → List Piece
pieces_from zero template = []
pieces_from (suc fuel) [] = []
pieces_from (suc fuel) (c ∷ s) = elim (match_placeholder (c ∷ s)) [
  | none ↦ unit c ∷ pieces_from fuel s
  | some p ↦ hole p.0 ∷ pieces_from fuel p.1
]

render_from-pieces :
    (fuel : ℕ) (template : Text) (variables : Variables)
    → render_from fuel template variables ≡ pieces_text variables (pieces_from fuel template)
unfolding render_from pieces_from
render_from-pieces zero template variables = refl
render_from-pieces (suc fuel) [] variables = refl
render_from-pieces (suc fuel) (c ∷ s) variables = elim (Option-cases (match_placeholder (c ∷ s))) [
  | inl e ↦
      rw (e, render_from, pieces_from)
        (ap (λ (t : Text). c ∷ t) (render_from-pieces fuel s variables))
  | inr (p, e) ↦
      rw (e, render_from, pieces_from)
        (ap (λ (t : Text). value_of p.0 variables ++ t) (render_from-pieces fuel p.1 variables))
]

-- The characters with which a value could end an attribute or begin a tag: < > " and '.
abbrev pub is_markup : ℕ → Bool
is_markup c = nat_beq c 60 || nat_beq c 62 || nat_beq c 34 || nat_beq c 39

filter-append : (s t : Text) → filter is_markup (s ++ t) ≡ filter is_markup s ++ filter is_markup t
unfolding filter
filter-append [] t = refl
filter-append (c ∷ s) t = elim (Bool-cases (is_markup c)) [
  | inl e ↦ rw (e) (ap (λ (r : Text). c ∷ r) (filter-append s t))
  | inr e ↦ rw (e) (filter-append s t)
]

html_escape_map-markup : (c : ℕ) → filter is_markup (html_escape_map c) ≡ []
unfolding html_escape_map filter text
html_escape_map-markup c = ground arith

escape_html-markup : (value : Text) → filter is_markup (escape_html value) ≡ []
unfolding escape_html filter
escape_html-markup [] = refl
escape_html-markup (c ∷ value) =
    filter-append (html_escape_map c) (escape_html value)
    ∙ rw (html_escape_map-markup c, escape_html-markup value) refl

value_of-markup :
    (key : Text) (variables : Variables) → filter is_markup (value_of key variables) ≡ []
value_of-markup key variables = elim (Option-cases (variable key variables)) [
  | inl e ↦ rw (e, value_of) (unfold filter in refl)
  | inr (v, e) ↦ rw (e, value_of) (escape_html-markup v)
]

value_skipped :
    (key : Text) (v : Variables) (pieces : List Piece)
    → filter is_markup (pieces_text v (hole key ∷ pieces)) ≡ filter is_markup (pieces_text v pieces)
value_skipped key v pieces =
    filter-append (value_of key v) (pieces_text v pieces)
    ∙ ap (λ (r : Text). r ++ filter is_markup (pieces_text v pieces)) (value_of-markup key v)

pieces_text-markup :
    (v w : Variables) (pieces : List Piece)
    → filter is_markup (pieces_text v pieces) ≡ filter is_markup (pieces_text w pieces)
pieces_text-markup v w [] = refl
pieces_text-markup v w (unit c ∷ pieces) =
    filter-append (c ∷ []) (pieces_text v pieces)
    ∙ ap (λ (r : Text). filter is_markup (c ∷ []) ++ r) (pieces_text-markup v w pieces)
    ∙ sym (filter-append (c ∷ []) (pieces_text w pieces))
pieces_text-markup v w (hole key ∷ pieces) =
    value_skipped key v pieces ∙ pieces_text-markup v w pieces ∙ sym (value_skipped key w pieces)

-- No value adds markup to a page: of one template, the pages for any values have the same < > " and
-- ', in the same order.
pub render_template-markup :
    (template : Text) (v w : Variables)
    → filter is_markup (render_template template v) ≡ filter is_markup (render_template template w)
unfolding render_template
render_template-markup template v w =
    rw
      (
        render_from-pieces (length template) template v,
        render_from-pieces (length template) template w,
      )
      (pieces_text-markup v w (pieces_from (length template) template))

closing-shorter :
    (c : ℕ) (s : Text) (p : Text × Text) → closing c s ≡ some p → length p.1 ≤ length s
closing-shorter c [] p h = cc
closing-shorter c (d ∷ s) p h = elim (Bool-cases (nat_beq c 125 && nat_beq d 125)) [
  | inl e ↦ let same : s ≡ p.1 = cc (rw (e) at h) in rw (← same) (omega arith)
  | inr e ↦ cc (rw (e) at h)
]

non_empty_key-some :
    (o : Option (Text × Text)) (p : Text × Text) → non_empty_key o ≡ some p → o ≡ some p
non_empty_key-some none p h = cc
non_empty_key-some (some ([], behind)) p h = cc
non_empty_key-some (some (c ∷ key, behind)) p h = h

-- Behind a placeholder there is less of the template.
match_word-shorter :
    (s : Text) (p : Text × Text) → match_word s ≡ some p → suc (length p.1) ≤ length s
unfolding match_word
match_word-shorter [] p h = cc
match_word-shorter (c ∷ s) p h = elim (Bool-cases (is_word c)) [
  | inl word ↦ elim (Option-cases (match_word s)) [
    | inl e ↦ cc (rw (word, e) at h)
    | inr (q, e) ↦
        let same : q.1 ≡ p.1 = cc (rw (word, e) at h) in
        let less : suc (length q.1) ≤ length s = match_word-shorter s q e in
        rw (← same) (omega arith)
  ]
  | inr other ↦
      let short : length p.1 ≤ length s = closing-shorter c s p (rw (other) at h) in omega arith
]

match_placeholder-shorter :
    (c : ℕ) (s : Text) (p : Text × Text)
    → match_placeholder (c ∷ s) ≡ some p
    → length p.1 ≤ length s
unfolding match_placeholder
match_placeholder-shorter c [] p h = cc
match_placeholder-shorter c (d ∷ s) p h = elim (Bool-cases (nat_beq c 123 && nat_beq d 123)) [
  | inl open_braces ↦
      let less =
        match_word-shorter s p (non_empty_key-some (match_word s) p (rw (open_braces) at h)) in
      omega arith
  | inr other ↦ cc (rw (other) at h)
]

-- The fuel of a template's length is enough: more gives the same page.
pub render_from-enough :
    (fuel more : ℕ) (template : Text) (variables : Variables)
    → length template ≤ fuel
    → fuel ≤ more
    → render_from more template variables ≡ render_from fuel template variables
unfolding render_from
render_from-enough zero zero [] variables h k = refl
render_from-enough zero (suc more) [] variables h k = refl
render_from-enough (suc fuel) zero template variables h k = absurd (omega arith)
render_from-enough (suc fuel) (suc more) [] variables h k = refl
render_from-enough zero more (c ∷ s) variables h k = absurd (omega arith)
render_from-enough (suc fuel) (suc more) (c ∷ s) variables h k =
    elim (Option-cases (match_placeholder (c ∷ s))) [
      | inl e ↦
          rw (e, render_from)
            (ap (λ (t : Text). c ∷ t)
              (render_from-enough fuel more s variables (omega arith) (omega arith)))
      | inr (p, e) ↦
          let less = match_placeholder-shorter c s p e in
          rw (e, render_from)
            (ap (λ (t : Text). value_of p.0 variables ++ t)
              (render_from-enough fuel more p.1 variables (omega arith) (omega arith)))
    ]
