-- ===== src/Text/Splitting.antt =====
-- `split` and `join` are inverse, and they, `indexOf` and `lastIndexOf` go through concatenation at
-- a separator.
use guard_me.Prelude.{
  All, none, some, ℕ, ◌≡◌, refl, sym, ◌≢◌, inl, inr, false, List, [], ◌∷◌, ◌++◌, arith, Bool-cases,
  nat_beq, nat_beq_iff,
}
use mathlib.Core.List.{append_assoc}
use guard_me.Text.{Text, cons_head, split, join, cut_first, cut_last}

pub split-ne-nil : (sep : ℕ) (s : Text) → split sep s ≢ []
unfolding split
split-ne-nil sep [] = cc
split-ne-nil sep (c ∷ s) = ground (arith, split-ne-nil sep s)

cons_head-append : (c : ℕ) (l m : List Text) → l ≢ [] → cons_head c (l ++ m) ≡ cons_head c l ++ m
cons_head-append c [] m h = absurd (h refl)
cons_head-append c (p ∷ ps) m h = refl

join-cons :
    (sep : ℕ) (p : Text) (ps : List Text) → ps ≢ [] → join sep (p ∷ ps) ≡ p ++ (sep ∷ join sep ps)
unfolding join
join-cons sep p [] h = absurd (h refl)
join-cons sep p (q ∷ ps) h = refl

join-cons_head : (sep c : ℕ) (l : List Text) → l ≢ [] → join sep (cons_head c l) ≡ c ∷ join sep l
unfolding join
join-cons_head sep c [] h = absurd (h refl)
join-cons_head sep c (p ∷ []) h = refl
join-cons_head sep c (p ∷ q ∷ ps) h = refl

split-cons_sep : (sep c : ℕ) (s : Text) → c ≡ sep → split sep (c ∷ s) ≡ [] ∷ split sep s
unfolding split
split-cons_sep sep c s e = rw ((nat_beq_iff c sep).1 e)

split-cons_ne :
    (sep c : ℕ) (s : Text) → nat_beq c sep ≡ false → split sep (c ∷ s) ≡ cons_head c (split sep s)
unfolding split
split-cons_ne sep c s e = rw e

pub join-split : (sep : ℕ) (s : Text) → join sep (split sep s) ≡ s
join-split sep [] = unfold join split in refl
join-split sep (c ∷ s) = elim (Bool-cases (nat_beq c sep)) [
  | inl e ↦
      let same = (nat_beq_iff c sep).0 e in
      rw
        (
          split-cons_sep sep c s same,
          join-cons sep [] (split sep s) (split-ne-nil sep s),
          join-split sep s,
        )
        (cc same)
  | inr e ↦ rw (
    split-cons_ne sep c s e,
    join-cons_head sep c (split sep s) (split-ne-nil sep s),
    join-split sep s,
  )
]

pub split-append : (sep : ℕ) (r s : Text) → split sep (r ++ (sep ∷ s)) ≡ split sep r ++ split sep s
split-append sep [] s = rw (split-cons_sep sep sep s refl) (unfold split in refl)
split-append sep (c ∷ r) s = elim (Bool-cases (nat_beq c sep)) [
  | inl e ↦
      let same = (nat_beq_iff c sep).0 e in
      rw (
        split-cons_sep sep c (r ++ (sep ∷ s)) same,
        split-cons_sep sep c r same,
        split-append sep r s,
      )
  | inr e ↦ rw (
    split-cons_ne sep c (r ++ (sep ∷ s)) e,
    split-cons_ne sep c r e,
    split-append sep r s,
    cons_head-append c (split sep r) (split sep s) (split-ne-nil sep r),
  )
]

pub join-append :
    (sep : ℕ) (l m : List Text)
    → l ≢ []
    → m ≢ []
    → join sep (l ++ m) ≡ join sep l ++ (sep ∷ join sep m)
unfolding join
join-append sep [] m h k = absurd (h refl)
join-append sep (p ∷ []) m h k = join-cons sep p m k
join-append sep (p ∷ q ∷ l) m h k =
    rw (join-append sep (q ∷ l) m (cc) k)
      (sym (append_assoc p (sep ∷ join sep (q ∷ l)) (sep ∷ join sep m)))

-- A text without one unit.
abbrev pub IsFree : ℕ → Text → Type 0
IsFree c s = All (λ d. nat_beq d c ≡ false) s

pub cut_first-append : (c : ℕ) (h p : Text) → IsFree c h → cut_first c (h ++ (c ∷ p)) ≡ some (h, p)
unfolding cut_first
cut_first-append c [] p f = ground arith
cut_first-append c (d ∷ h) p (e, f) = rw (e, cut_first-append c h p f)

pub cut_last_free : (c : ℕ) (p : Text) → IsFree c p → cut_last c p ≡ none
unfolding cut_last
cut_last_free c [] f = refl
cut_last_free c (d ∷ p) (e, f) = rw (cut_last_free c p f) (rw e)

pub cut_last-append : (c : ℕ) (h p : Text) → IsFree c p → cut_last c (h ++ (c ∷ p)) ≡ some (h, p)
unfolding cut_last
cut_last-append c [] p f = rw (cut_last_free c p f) (ground arith)
cut_last-append c (d ∷ h) p f = rw (cut_last-append c h p f)
