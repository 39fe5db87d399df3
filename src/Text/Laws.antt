-- ===== src/Text/Laws.antt =====
-- What the tests on texts decide.
use guard_me.Prelude.{
  Eq, ℕ, ◌≡◌, refl, ap, ◌↔◌, inl, inr, true, [], ◌∷◌, ◌++◌, map, arith, nat_beq, nat_beq_iff,
  and_parts, or_parts,
}
use guard_me.Text.{Text, ◌==◌, starts_with, ends_with, lower_unit, to_lower_case}

eq_sound : (s t : Text) → (s == t) ≡ true → s ≡ t
unfolding ◌==◌
eq_sound [] [] h = refl
eq_sound (c ∷ s) (d ∷ t) h =
    let (e, r) = and_parts (nat_beq c d) (s == t) h in cc ((nat_beq_iff c d).0 e, eq_sound s t r)
eq_sound [] (d ∷ t) h = cc
eq_sound (c ∷ s) [] h = cc

pub eq_refl : (s : Text) → (s == s) ≡ true
unfolding ◌==◌
eq_refl [] = refl
eq_refl (c ∷ s) = ground (arith, eq_refl s)

pub eq_iff : (s t : Text) → ((s == t) ≡ true) ↔ (s ≡ t)
eq_iff s t = (eq_sound s t, λ e. rw e (eq_refl t))

pub starts_with-append : (p s : Text) → starts_with (p ++ s) p ≡ true
unfolding starts_with
starts_with-append [] s = refl
starts_with-append (c ∷ p) s = ground (arith, starts_with-append p s)

starts_with_sound : (s p : Text) → starts_with s p ≡ true → (r : Text) × (s ≡ p ++ r)
unfolding starts_with
starts_with_sound s [] h = (s, refl)
starts_with_sound [] (d ∷ p) h = cc
starts_with_sound (c ∷ s) (d ∷ p) h =
    let (e, k) = and_parts (nat_beq c d) (starts_with s p) h in
    let (r, q) = starts_with_sound s p k in (r, cc ((nat_beq_iff c d).0 e, q))

-- `startsWith` finds exactly the texts that the prefix begins.
pub starts_with_iff : (s p : Text) → (starts_with s p ≡ true) ↔ ((r : Text) × (s ≡ p ++ r))
starts_with_iff s p = (starts_with_sound s p, λ q. rw q.1 (starts_with-append p q.0))

ends_with_sound : (s t : Text) → ends_with s t ≡ true → (r : Text) × (s ≡ r ++ t)
unfolding ends_with
ends_with_sound [] t h = ([], eq_sound [] t h)
ends_with_sound (c ∷ s) t h = elim (or_parts ((c ∷ s) == t) (ends_with s t) h) [
  | inl e ↦ ([], eq_sound (c ∷ s) t e)
  | inr k ↦ let (r, q) = ends_with_sound s t k in (c ∷ r, ap (λ (u : Text). c ∷ u) q)
]

ends_with_self : (t : Text) → ends_with t t ≡ true
unfolding ends_with
ends_with_self [] = refl
ends_with_self (c ∷ t) = rw (eq_refl (c ∷ t))

ends_with-append : (r t : Text) → ends_with (r ++ t) t ≡ true
unfolding ends_with
ends_with-append [] t = ends_with_self t
ends_with-append (c ∷ r) t = ground (arith, ends_with-append r t)

-- `endsWith` finds exactly the texts that the suffix ends.
pub ends_with_iff : (s t : Text) → (ends_with s t ≡ true) ↔ ((r : Text) × (s ≡ r ++ t))
ends_with_iff s t = (ends_with_sound s t, λ q. rw q.1 (ends_with-append q.0 t))

pub map-append : (f : ℕ → ℕ) (s t : Text) → map f (s ++ t) ≡ map f s ++ map f t
map-append f [] t = refl
map-append f (c ∷ s) t = cc (map-append f s t)

lower_unit_idem : (c : ℕ) → lower_unit (lower_unit c) ≡ lower_unit c
unfolding lower_unit
lower_unit_idem c = ground arith

-- Lower case stays as it is.
pub to_lower_case_idem : (s : Text) → to_lower_case (to_lower_case s) ≡ to_lower_case s
unfolding to_lower_case
to_lower_case_idem [] = refl
to_lower_case_idem (c ∷ s) = cc (lower_unit_idem c, to_lower_case_idem s)

pub to_lower_case-append :
    (s t : Text) → to_lower_case (s ++ t) ≡ to_lower_case s ++ to_lower_case t
unfolding to_lower_case
to_lower_case-append s t = map-append lower_unit s t

instance abbrev pub text_eq : Eq Text
text_eq = record { beq = ◌==◌; beq_iff = eq_iff }
