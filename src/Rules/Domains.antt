-- ===== src/Rules/Domains.antt =====
-- A domain rule matches the domain itself and its subdomains: the labels of the pattern end the
-- labels of the host. What `normalizeRulePattern` stores.
use guard_me.Prelude.{
  ℕ, zero, suc, ◌≤◌, ◌≡◌, refl, sym, ap, ◌∙◌, ◌↔◌, ◌⊎◌, inl, inr, Bool, true, false, not, List, [],
  ◌∷◌, ◌++◌, arith, String, ok, err, failure, Bool-cases, length, take, length-take, All, filter,
  str_eq, if◌then◌else◌,
}
use guard_me.Text.{Text, ◌==◌, ends_with, to_lower_case, split, join, trim}
use guard_me.Text.Splitting.{split-ne-nil, join-split, split-append, join-append}
use guard_me.Text.Laws.{eq_iff, ends_with_iff, to_lower_case_idem, to_lower_case-append}
use guard_me.Rules.Matcher.{
  is_control, strip_trailing_dot, is_empty, clean_pattern, normalize_rule_pattern,
  matches_domain_rule,
}

-- The labels of a host name, in lower case.
abbrev pub labels : Text → List Text
labels host = split b'.' (to_lower_case host)

matches_sound :
    (h p : Text)
    → (if h == p then true else ends_with h (b'.' ∷ p)) ≡ true
    → (ls : List Text) × (split b'.' h ≡ ls ++ split b'.' p)
matches_sound h p e = elim (Bool-cases (h == p)) [
  | inl same ↦ ([], ap (split b'.') ((eq_iff h p).0 same))
  | inr other ↦
      let (r, q) = (ends_with_iff h (b'.' ∷ p)).0 (rw other at e) in
      (split b'.' r, ap (split b'.') q ∙ split-append b'.' r p)
]

matches_complete :
    (h p : Text) (ls : List Text)
    → split b'.' h ≡ ls ++ split b'.' p
    → (if h == p then true else ends_with h (b'.' ∷ p)) ≡ true
matches_complete h p [] q =
    let same : h ≡ p = sym (join-split b'.' h) ∙ ap (join b'.') q ∙ join-split b'.' p in
    rw ((eq_iff h p).1 same)
matches_complete h p (l ∷ ls) q =
    let parts : h ≡ join b'.' (l ∷ ls) ++ (b'.' ∷ p) =
      sym (join-split b'.' h)
      ∙ ap (join b'.') q
      ∙ join-append b'.' (l ∷ ls) (split b'.' p) (cc) (split-ne-nil b'.' p)
      ∙ ap (λ (t : Text). join b'.' (l ∷ ls) ++ (b'.' ∷ t)) (join-split b'.' p) in
    let found = (ends_with_iff h (b'.' ∷ p)).1 (join b'.' (l ∷ ls), parts) in ground (arith, found)

-- A domain rule matches a host exactly if the labels of its pattern are the last labels of the
-- host, letter case aside: the domain itself and every subdomain, and no other host.
pub matches_domain_rule_iff :
    (host pattern : Text)
    → (matches_domain_rule host pattern ≡ true)
      ↔ ((ls : List Text) × (labels host ≡ ls ++ labels pattern))
unfolding matches_domain_rule
matches_domain_rule_iff host pattern = (
  matches_sound (to_lower_case host) (to_lower_case pattern),
  λ q. matches_complete (to_lower_case host) (to_lower_case pattern) q.0 q.1,
)

length-strip-le : (s : Text) → length (strip_trailing_dot s) ≤ length s
unfolding strip_trailing_dot
length-strip-le [] = omega arith
length-strip-le (c ∷ []) = ground arith
length-strip-le (c ∷ d ∷ s) = omega (arith, length-strip-le (d ∷ s))

-- No control character.
abbrev pub IsPrintable : Text → Type 0
IsPrintable s = All (λ c. is_control c ≡ false) s

IsPrintable-filter : (s : Text) → IsPrintable (filter (λ c. not (is_control c)) s)
unfolding filter
IsPrintable-filter [] = tt
IsPrintable-filter (c ∷ s) = ground (arith, IsPrintable-filter s)

IsPrintable-take : (n : ℕ) (s : Text) → IsPrintable s → IsPrintable (take n s)
IsPrintable-take zero s h = tt
IsPrintable-take (suc n) [] h = tt
IsPrintable-take (suc n) (c ∷ s) (e, h) = (e, IsPrintable-take n s h)

IsPrintable-lower : (s : Text) → IsPrintable s → IsPrintable (to_lower_case s)
unfolding to_lower_case is_control
IsPrintable-lower [] h = tt
IsPrintable-lower (c ∷ s) (e, h) = (ground arith, IsPrintable-lower s h)

IsPrintable-strip : (s : Text) → IsPrintable s → IsPrintable (strip_trailing_dot s)
unfolding strip_trailing_dot
IsPrintable-strip [] h = tt
IsPrintable-strip (c ∷ []) h = ground arith
IsPrintable-strip (c ∷ d ∷ s) (e, h) = (e, IsPrintable-strip (d ∷ s) h)

lower-strip :
    (s : Text) → to_lower_case s ≡ s → to_lower_case (strip_trailing_dot s) ≡ strip_trailing_dot s
unfolding to_lower_case strip_trailing_dot
lower-strip [] h = refl
lower-strip (c ∷ []) h = ground arith
lower-strip (c ∷ d ∷ s) h = cc (lower-strip (d ∷ s) (cc))

length-lower : (s : Text) → length (to_lower_case s) ≡ length s
unfolding to_lower_case
length-lower [] = refl
length-lower (c ∷ s) = ap suc (length-lower s)

clean_pattern_lem : (p : Text) → (length (clean_pattern p) ≤ 253) × IsPrintable (clean_pattern p)
unfolding clean_pattern
clean_pattern_lem p =
    let kept = filter (λ c. not (is_control c)) (trim p) in
    (omega (arith, length-take 253 kept), IsPrintable-take 253 kept (IsPrintable-filter (trim p)))

stored_pattern :
    (ip : Bool) (c q : Text)
    → (if is_empty c
        then err (failure "Pattern is required")
        else if ip
        then ok c
        else ok (strip_trailing_dot (to_lower_case c)))
      ≡ ok q
    → ((ip ≡ true) × (q ≡ c)) ⊎ (q ≡ strip_trailing_dot (to_lower_case c))
stored_pattern ip [] q e = cc
stored_pattern true (c ∷ s) q e = inl (refl, cc)
stored_pattern false (c ∷ s) q e = inr (cc)

-- Whatever is entered, a pattern that is accepted has at most 253 code units and no control
-- character, and unless the rule is of type IP it is in lower case.
pub normalize_rule_pattern_sound :
    (t : String) (p q : Text)
    → normalize_rule_pattern t p ≡ ok q
    → (length q ≤ 253) × IsPrintable q × ((str_eq t "IP" ≡ true) ⊎ (to_lower_case q ≡ q))
unfolding normalize_rule_pattern
normalize_rule_pattern_sound t p q e =
    let c = clean_pattern p in
    let (short, printable) = clean_pattern_lem p in
    elim (stored_pattern (str_eq t "IP") c q e) [
      | inl (ip, same) ↦ rw same (short, printable, inl ip)
      | inr same ↦ rw same (
        omega (arith, length-strip-le (to_lower_case c), length-lower c, short),
        IsPrintable-strip (to_lower_case c) (IsPrintable-lower c printable),
        inr (lower-strip (to_lower_case c) (to_lower_case_idem c)),
      )
    ]

-- A pattern that is a lone dot once cleaned passes the test for an empty pattern, is stored as the
-- empty text by a domain rule, and that rule matches every host that is written with a final dot.
pub dot_pattern_matches :
    (t : String) (p host : Text)
    → clean_pattern p ≡ b'.' ∷ []
    → str_eq t "IP" ≡ false
    → (normalize_rule_pattern t p ≡ ok []) × (matches_domain_rule (host ++ b'.' ∷ []) [] ≡ true)
unfolding normalize_rule_pattern to_lower_case
dot_pattern_matches t p host e domain = (
  rw (e, domain) (unfold to_lower_case strip_trailing_dot in refl),
  (matches_domain_rule_iff (host ++ b'.' ∷ []) []).1 (
    labels host,
    rw (to_lower_case-append host (b'.' ∷ [])) (split-append b'.' (to_lower_case host) []),
  ),
)
