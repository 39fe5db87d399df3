-- ===== src/Auth/Expiry.antt =====
-- When a session ends: `resolveExpiryDate` of auth/auth.service.ts, on the durations that are
-- written as a number and a unit.
use guard_me.Prelude.{
  ℕ, zero, suc, ◌+◌, ◌*◌, ◌/◌, ◌%◌, ◌<◌, ◌≡◌, refl, ◌∙◌, Bool, true, false, some, [], ◌∷◌, ◌++◌,
  arith, Bool-cases, inl, inr, ltb,
}
use guard_me.Text.{Text}
use guard_me.Text.Printing.{decimal, digits_from}
use guard_me.Auth.{is_unit, match_duration, multipliers, resolve_expiry_date}

-- One digit is read, where something is behind it.
match_duration-digit :
    (value digit unit m : ℕ) (seen : Bool) (behind : Text)
    → digit < 10
    → value * 10 + digit ≡ m
    → match_duration value seen ((48 + digit) ∷ behind ++ unit ∷ [])
      ≡ match_duration m true (behind ++ unit ∷ [])
match_duration-digit value digit unit m seen [] h e = unfold match_duration in ground arith
match_duration-digit value digit unit m seen (c ∷ s) h e = unfold match_duration in ground arith

match_duration-digits :
    (fuel n unit : ℕ) (seen : Bool) (behind : Text)
    → n < fuel
    → match_duration 0 seen (digits_from fuel n behind ++ unit ∷ [])
      ≡ match_duration n true (behind ++ unit ∷ [])
match_duration-digits zero n unit seen behind h = elim h [ ]
match_duration-digits (suc fuel) n unit seen behind h = elim (Bool-cases (ltb n 10)) [
  | inl small ↦ rw small (match_duration-digit 0 n unit n seen behind (ground arith) (omega arith))
  | inr large ↦
      let step =
        match_duration-digits fuel (n / 10) unit seen ((48 + n % 10) ∷ behind) (ground arith) in
      let digit =
        match_duration-digit (n / 10) (n % 10) unit n true behind (omega arith) (omega arith) in
      rw large (step ∙ digit)
]

-- A duration of n seconds, minutes, hours or days ends that much later, whatever the number.
pub resolve_expiry_date-decimal :
    (n unit now : ℕ)
    → is_unit unit ≡ true
    → resolve_expiry_date (decimal n ++ unit ∷ []) now ≡ now + n * multipliers unit
unfolding resolve_expiry_date decimal
resolve_expiry_date-decimal n unit now h =
    let read = match_duration-digits (suc n) n unit false [] (omega arith) in
    let end : match_duration n true (unit ∷ []) ≡ some (n, unit) =
      unfold match_duration in rw h refl in
    rw (resolve_expiry_date, read, end) refl
