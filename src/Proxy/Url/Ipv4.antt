-- ===== src/Proxy/Url/Ipv4.antt =====
-- Which dotted addresses are refused, by their numbers.
use guard_me.Prelude.{
  ℕ, ◌+◌, ◌-◌, ◌*◌, ◌/◌, ◌%◌, ◌≤◌, ◌<◌, ◌≡◌, refl, sym, ap, ◌∙◌, inl, inr, Bool, false, ◌&&◌, ◌||◌,
  [], ◌∷◌, ◌++◌, arith, All, All-append, drop, leb, ltb, nat_beq, nat_beq_iff, Bool-cases,
  if◌then◌else◌,
}
use guard_me.Text.{Text, text, ◌==◌, starts_with, to_lower_case, trim, trim_start, trim_end}
use guard_me.Text.Laws.{eq_iff}
use guard_me.Proxy.Url.{
  is_second_octet, is_private_or_loopback_ipv4, strip_ipv6_brackets, is_blocked_normalized,
  is_blocked_destination_host,
}

-- The decimal digits of a number below 1000.
unfoldable pub dec : ℕ → Text
dec n =
    if ltb n 10
    then (48 + n) ∷ []
    else if ltb n 100
    then (48 + n / 10) ∷ (48 + n % 10) ∷ []
    else (48 + n / 100) ∷ (48 + n / 10 % 10) ∷ (48 + n % 10) ∷ []

-- A dotted address, a.b.c.d.
abbrev pub dotted : ℕ → ℕ → ℕ → ℕ → Text
dotted a b c d = dec a ++ (b'.' ∷ dec b ++ (b'.' ∷ dec c ++ (b'.' ∷ dec d)))

value_from : ℕ → Text → ℕ
value_from v [] = v
value_from v (c ∷ s) = value_from (v * 10 + (c - 48)) s

value-dec : (n : ℕ) → n < 1000 → value_from 0 (dec n) ≡ n
unfolding value_from dec
value-dec n h = ground arith

-- Different numbers have different digits.
dec-beq : (a k : ℕ) → a < 1000 → k < 1000 → (dec a == dec k) ≡ nat_beq a k
dec-beq a k h j = elim (Bool-cases (dec a == dec k)) [
  | inl e ↦
      let same : a ≡ k =
        sym (value-dec a h) ∙ ap (value_from 0) ((eq_iff (dec a) (dec k)).0 e) ∙ value-dec k j in
      e ∙ sym ((nat_beq_iff a k).1 same)
  | inr e ↦ elim (Bool-cases (nat_beq a k)) [
    | inl t ↦ absurd (cc (e, (eq_iff (dec a) (dec k)).1 (ap dec ((nat_beq_iff a k).0 t))))
    | inr t ↦ e ∙ sym t
  ]
]

abbrev IsDigits : Text → Type 0
IsDigits s = All (λ c. (48 ≤ c) × (c ≤ 57)) s

dec-IsDigits : (n : ℕ) → n < 1000 → IsDigits (dec n)
unfolding dec
dec-IsDigits n h = ground arith

module _ (r u : Text) where
  starts_with-dot :
      (s t : Text)
      → IsDigits s
      → IsDigits t
      → starts_with (s ++ (b'.' ∷ r)) (t ++ (b'.' ∷ u)) ≡ ((s == t) && starts_with r u)
  unfolding starts_with ◌==◌
  starts_with-dot [] [] h k = refl
  starts_with-dot [] (d ∷ t) h k = ground arith
  starts_with-dot (c ∷ s) [] h k = ground arith
  starts_with-dot (c ∷ s) (d ∷ t) h k = ground (arith, starts_with-dot s t h.1 k.1)

  beq-dot :
      (s t : Text)
      → IsDigits s
      → IsDigits t
      → ((s ++ (b'.' ∷ r)) == (t ++ (b'.' ∷ u))) ≡ ((s == t) && (r == u))
  unfolding ◌==◌
  beq-dot [] [] h k = refl
  beq-dot [] (d ∷ t) h k = ground arith
  beq-dot (c ∷ s) [] h k = ground arith
  beq-dot (c ∷ s) (d ∷ t) h k = ground (arith, beq-dot s t h.1 k.1)

is_second_octet-dec :
    (b : ℕ) (r : Text) → b < 256 → is_second_octet (dec b ++ (b'.' ∷ r)) ≡ (leb 16 b && leb b 31)
unfolding is_second_octet dec
is_second_octet-dec b r h = ground arith

-- The refused addresses as ranges: 0.0.0.0, loopback 127/8, private 10/8, 192.168/16 and 172.16/12,
-- and link-local 169.254/16.
abbrev pub is_refused_range : ℕ → ℕ → ℕ → ℕ → Bool
is_refused_range a b c d =
    (nat_beq a 0 && (nat_beq b 0 && (nat_beq c 0 && nat_beq d 0)))
    || nat_beq a 127
    || nat_beq a 10
    || (nat_beq a 192 && nat_beq b 168)
    || (nat_beq a 169 && nat_beq b 254)
    || (nat_beq a 172 && (leb 16 b && leb b 31))

module _ (a b c d : ℕ) (ha : a < 256) (hb : b < 256) (hc : c < 256) (hd : d < 256) where
  abbrev behind_a : Text
  behind_a = dec b ++ (b'.' ∷ dec c ++ (b'.' ∷ dec d))

  first_octet :
      (k : ℕ) → k < 256 → starts_with (dotted a b c d) (dec k ++ (b'.' ∷ [])) ≡ nat_beq a k
  unfolding starts_with
  first_octet k hk =
      starts_with-dot behind_a [] (dec a) (dec k) (dec-IsDigits a (omega arith))
        (dec-IsDigits k (omega arith))
      ∙ ground (arith, dec-beq a k)

  two_octets :
      (k l : ℕ)
      → k < 256
      → l < 256
      → starts_with (dotted a b c d) (dec k ++ (b'.' ∷ dec l ++ (b'.' ∷ [])))
        ≡ (nat_beq a k && nat_beq b l)
  unfolding starts_with
  two_octets k l hk hl =
      starts_with-dot behind_a (dec l ++ (b'.' ∷ [])) (dec a) (dec k) (dec-IsDigits a (omega arith))
        (dec-IsDigits k (omega arith))
      ∙ ap (λ x. (dec a == dec k) && x)
          (starts_with-dot (dec c ++ (b'.' ∷ dec d)) [] (dec b) (dec l)
            (dec-IsDigits b (omega arith)) (dec-IsDigits l (omega arith)))
      ∙ ground (arith, dec-beq a k, dec-beq b l)

  all_octets :
      (dotted a b c d == dotted 0 0 0 0)
      ≡ (nat_beq a 0 && (nat_beq b 0 && (nat_beq c 0 && nat_beq d 0)))
  all_octets =
      rw
        (
          beq-dot behind_a (dec 0 ++ (b'.' ∷ dec 0 ++ (b'.' ∷ dec 0))) (dec a) (dec 0)
              (dec-IsDigits a (omega arith)) (dec-IsDigits 0 (omega arith)),
          beq-dot (dec c ++ (b'.' ∷ dec d)) (dec 0 ++ (b'.' ∷ dec 0)) (dec b) (dec 0)
              (dec-IsDigits b (omega arith)) (dec-IsDigits 0 (omega arith)),
          beq-dot (dec d) (dec 0) (dec c) (dec 0) (dec-IsDigits c (omega arith))
              (dec-IsDigits 0 (omega arith)),
        )
        (ground (arith, dec-beq a 0, dec-beq b 0, dec-beq c 0, dec-beq d 0))

  second_octet : a ≡ 172 → is_second_octet (drop 4 (dotted a b c d)) ≡ (leb 16 b && leb b 31)
  unfolding dec
  second_octet e = rw e (is_second_octet-dec b (dec c ++ (b'.' ∷ dec d)) hb)

  is_private-dotted : is_private_or_loopback_ipv4 (dotted a b c d) ≡ is_refused_range a b c d
  unfolding is_private_or_loopback_ipv4 text dec
  is_private-dotted = ground (
    arith,
    all_octets,
    first_octet 127,
    first_octet 10,
    two_octets 192 168,
    two_octets 169 254,
    first_octet 172,
    second_octet,
  )

abbrev IsDotted : Text → Type 0
IsDotted s = All (λ c. (46 ≤ c) × (c ≤ 57)) s

IsDotted-dec : (n : ℕ) → n < 256 → IsDotted (dec n)
unfolding dec
IsDotted-dec n h = ground arith

IsDotted-dot : (s t : Text) → IsDotted s → IsDotted t → IsDotted (s ++ (b'.' ∷ t))
IsDotted-dot s t h k = All-append _ s (b'.' ∷ t) h (omega arith, k)

trim_start-dotted : (s : Text) → IsDotted s → trim_start s ≡ s
unfolding trim_start
trim_start-dotted [] h = refl
trim_start-dotted (c ∷ s) (b, h) = ground arith

trim_end-dotted : (s : Text) → IsDotted s → trim_end s ≡ s
unfolding trim_end
trim_end-dotted [] h = refl
trim_end-dotted (c ∷ []) h = ground arith
trim_end-dotted (c ∷ d ∷ s) (b, h) = rw (trim_end-dotted (d ∷ s) h)

lower-dotted : (s : Text) → IsDotted s → to_lower_case s ≡ s
unfolding to_lower_case
lower-dotted [] h = refl
lower-dotted (c ∷ s) (b, h) = ground (arith, lower-dotted s h)

strip-dotted : (s : Text) → IsDotted s → strip_ipv6_brackets s ≡ s
unfolding strip_ipv6_brackets starts_with
strip-dotted [] h = ground arith
strip-dotted (c ∷ s) (b, h) = ground arith

not_localhost : (s : Text) → IsDotted s → (s == text "localhost") ≡ false
unfolding ◌==◌ text
not_localhost [] h = refl
not_localhost (c ∷ s) (b, h) = ground arith

normalized-dotted : (s : Text) → IsDotted s → strip_ipv6_brackets (to_lower_case (trim s)) ≡ s
unfolding trim
normalized-dotted s h =
    rw (trim_start-dotted s h, trim_end-dotted s h, lower-dotted s h) (strip-dotted s h)

-- A dotted address is refused as a destination exactly if it lies in 0.0.0.0, 127.0.0.0/8,
-- 10.0.0.0/8, 192.168.0.0/16, 169.254.0.0/16 or 172.16.0.0/12, where isIP takes it for IPv4.
pub is_blocked-dotted :
    (is_ip : Text → ℕ) (a b c d : ℕ)
    → a < 256
    → b < 256
    → c < 256
    → d < 256
    → is_ip (dotted a b c d) ≡ 4
    → is_blocked_destination_host is_ip (dotted a b c d) ≡ is_refused_range a b c d
unfolding is_blocked_destination_host is_blocked_normalized
is_blocked-dotted is_ip a b c d ha hb hc hd v4 =
    let digits : IsDotted (dotted a b c d) = IsDotted-dot _ _ (IsDotted-dec a ha) (
      IsDotted-dot _ _ (IsDotted-dec b hb)
        (IsDotted-dot _ _ (IsDotted-dec c hc) (IsDotted-dec d hd))) in
    rw (normalized-dotted (dotted a b c d) digits, not_localhost (dotted a b c d) digits, v4)
      (is_private-dotted a b c d ha hb hc hd)
