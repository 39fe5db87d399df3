-- ===== src/Text/Printing.antt =====
-- Numbers of JavaScript as far as the program tells them apart, and what template literals make of
-- them and of texts.
use Prim.Native.Nat.{Ordering, compare}
use Prim.Native.Char.{Char, char, IsScalar}
use guard_me.Prelude.{
  ◌≡◌, refl, ℕ, zero, suc, ◌+◌, ◌/◌, ◌%◌, Option, none, some, [], ◌∷◌, String, ltb, if◌then◌else◌,
}
use guard_me.Text.{Text}

-- A number: an integer, a positive number between `n` and `n + 1`, one below zero, or none that is
-- finite.
pub data Number : Type 0 where
  integer : ℕ → Number
  fraction : ℕ → Number
  negative not_finite : Number

-- The digits of `n` in front of `behind`; the fuel `suc n` is enough, since each digit divides by 10.
abbrev pub digits_from : ℕ → ℕ → Text → Text
digits_from zero n behind = behind
digits_from (suc fuel) n behind =
    let rest = digits_from fuel (n / 10) ((48 + n % 10) ∷ behind) in
    if ltb n 10 then (48 + n) ∷ behind else rest

-- `String(n)`
unfoldable pub decimal : ℕ → Text
decimal n = digits_from (suc n) n []

-- A code unit below the surrogates, and one above them.
abbrev below : (n : ℕ) (o : Ordering) → compare n 0xd800 ≡ o → Option (IsScalar n)
below n Ordering.lt e = some (rw e tt)
below n _ e = none

abbrev above :
    (n : ℕ) (o p q : Ordering)
    → compare n 0xd800 ≡ o
    → compare 0xdfff n ≡ p
    → compare n 0x110000 ≡ q
    → Option (IsScalar n)
above n Ordering.gt Ordering.lt Ordering.lt e f g = some (rw (e, f, g) tt)
above n _ _ _ e f g = none

abbrev char_of : ℕ → Char
char_of n = elim (below n (compare n 0xd800) refl) [
  | some p ↦ char n p
  | none ↦
      elim (above n (compare n 0xd800) (compare 0xdfff n) (compare n 0x110000) refl refl refl) [
        | some p ↦ char n p
        | none ↦ char 0xfffd tt
      ]
]

-- A text as a native string; a surrogate becomes U+FFFD.
unfoldable pub to_string : Text → String
to_string [] = ""
to_string (c ∷ s) = String.◌∷◌ (char_of c) (to_string s)
