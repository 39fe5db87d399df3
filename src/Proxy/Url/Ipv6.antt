-- ===== src/Proxy/Url/Ipv6.antt =====
-- Which IPv6 addresses are refused, by the number that their first group stands for.
use guard_me.Prelude.{
  ℕ, ◌+◌, ◌/◌, ◌%◌, ◌<◌, ◌≡◌, refl, sym, ap, ◌∙◌, ◌≢◌, true, false, ◌&&◌, ◌||◌, none, some, List,
  [], ◌∷◌, ◌++◌, arith, find, leb, ltb, if◌then◌else◌,
}
use guard_me.Text.{Text, text, ◌==◌, starts_with, to_lower_case, trim, is_space, split}
use guard_me.Text.Splitting.{split-append}
use guard_me.Proxy.Url.{
  hex_digit, parse_hex_from, parse_int_hex, first_part, first_hextet, is_link_local_ipv6,
  is_unique_local_ipv6, unwrap_ipv4_mapped, is_private_or_local_ipv6, strip_ipv6_brackets,
  is_blocked_normalized, is_blocked_destination_host,
}

-- A digit in base 16, in lower case.
unfoldable pub hex : ℕ → ℕ
hex d = if ltb d 10 then 48 + d else 87 + d

-- Four digits.
abbrev pub group : ℕ → Text
group v = hex (v / 4096) ∷ hex (v / 256 % 16) ∷ hex (v / 16 % 16) ∷ hex (v % 16) ∷ []

hex_digit-hex : (d : ℕ) → d < 16 → hex_digit (hex d) ≡ some d
unfolding hex_digit hex
hex_digit-hex d h = ground arith

parse-group : (v : ℕ) → v < 65536 → parse_int_hex (group v) ≡ some v
unfolding parse_int_hex parse_hex_from
parse-group v h = ground (
  arith,
  hex_digit-hex (v / 4096) (omega arith),
  hex_digit-hex (v / 256 % 16) (omega arith),
  hex_digit-hex (v / 16 % 16) (omega arith),
  hex_digit-hex (v % 16) (omega arith),
)

-- Digits and letters of a group: no separator, space, bracket or capital.
abbrev IsGroupUnit : ℕ → Type 0
IsGroupUnit c = (c ≢ b':') × (is_space c ≡ false) × (c ≢ b'[')

hex-IsGroupUnit : (d : ℕ) → d < 16 → (hex d ≢ b':') × (hex d ≢ b'[') × (is_space (hex d) ≡ false)
unfolding hex is_space
hex-IsGroupUnit d h = ground arith

split-group : (v : ℕ) → v < 65536 → split b':' (group v) ≡ group v ∷ []
unfolding split
split-group v h = ground (
  arith,
  (hex-IsGroupUnit (v / 4096) (omega arith)).0,
  (hex-IsGroupUnit (v / 256 % 16) (omega arith)).0,
  (hex-IsGroupUnit (v / 16 % 16) (omega arith)).0,
  (hex-IsGroupUnit (v % 16) (omega arith)).0,
)

first_hextet-group :
    (v : ℕ) (rest : Text) → v < 65536 → first_hextet (group v ++ (b':' ∷ rest)) ≡ group v
unfolding first_hextet
first_hextet-group v rest h =
    ap first_part (
      split-append b':' (group v) rest
      ∙ ap (λ (l : List Text). l ++ split b':' rest) (split-group v h))
    ∙ unfold first_part find in refl

by_prefix-group :
    (v : ℕ) (rest : Text)
    → v < 65536
    → (if is_link_local_ipv6 (group v ++ (b':' ∷ rest))
        then true
        else is_unique_local_ipv6 (group v ++ (b':' ∷ rest)))
      ≡ ((leb 0xfe80 v && leb v 0xfebf) || (leb 0xfc00 v && leb v 0xfdff))
unfolding is_link_local_ipv6 is_unique_local_ipv6
by_prefix-group v rest h = rw (first_hextet-group v rest h, parse-group v h) (ground arith)

head_unit : (v : ℕ) → v < 65536 → (hex (v / 4096) ≢ b':') × (hex (v / 4096) ≢ b'l')
unfolding hex
head_unit v h = ground arith

lower-hex : (d : ℕ) → d < 16 → to_lower_case (hex d ∷ []) ≡ hex d ∷ []
unfolding to_lower_case hex
lower-hex d h = ground arith

-- No group begins like "::1", "::ffff:" or "localhost".
not_special : (v : ℕ) (rest : Text) → v < 65536 → ((group v ++ (b':' ∷ rest)) == text "::1") ≡ false
unfolding ◌==◌ text
not_special v rest h = ground (arith, (head_unit v h).0)

not_host :
    (v : ℕ) (rest : Text) → v < 65536 → ((group v ++ (b':' ∷ rest)) == text "localhost") ≡ false
unfolding ◌==◌ text
not_host v rest h = ground (arith, (head_unit v h).1)

not_mapped :
    (is_ip : Text → ℕ) (v : ℕ) (rest : Text)
    → v < 65536
    → unwrap_ipv4_mapped is_ip (group v ++ (b':' ∷ rest)) ≡ none
unfolding unwrap_ipv4_mapped to_lower_case starts_with text hex
not_mapped is_ip v rest h = ground arith

normalized_group :
    (is_ip : Text → ℕ) (v : ℕ) (rest : Text)
    → v < 65536
    → is_ip (group v ++ (b':' ∷ rest)) ≡ 6
    → is_blocked_normalized is_ip (group v ++ (b':' ∷ rest))
      ≡ ((leb 0xfe80 v && leb v 0xfebf) || (leb 0xfc00 v && leb v 0xfdff))
unfolding is_blocked_normalized is_private_or_local_ipv6
normalized_group is_ip v rest h v6 =
    rw (v6, not_host v rest h, not_special v rest h, not_mapped is_ip v rest h)
      (by_prefix-group v rest h)

normalized_mapped :
    (is_ip : Text → ℕ) (s : Text)
    → is_ip (text "::ffff:" ++ s) ≡ 6
    → is_ip (to_lower_case s) ≢ 4
    → is_blocked_normalized is_ip (text "::ffff:" ++ s) ≡ false
unfolding is_blocked_normalized is_private_or_local_ipv6 unwrap_ipv4_mapped text ◌==◌ starts_with
    to_lower_case is_link_local_ipv6 is_unique_local_ipv6 first_hextet first_part split find
    parse_int_hex parse_hex_from hex_digit
normalized_mapped is_ip s v6 not4 = rw v6 (ground arith)

module _ (is_ip : Text → ℕ) (host : Text) where
  abbrev pub normalized : Text
  normalized = strip_ipv6_brackets (to_lower_case (trim host))

  -- An IPv6 address, in brackets or not, is refused exactly if its first group lies in fe80::/10 or
  -- fc00::/7, where that group has four digits and isIP takes the address for IPv6.
  pub is_blocked-group :
      (v : ℕ) (rest : Text)
      → v < 65536
      → normalized ≡ group v ++ (b':' ∷ rest)
      → is_ip normalized ≡ 6
      → is_blocked_destination_host is_ip host
        ≡ ((leb 0xfe80 v && leb v 0xfebf) || (leb 0xfc00 v && leb v 0xfdff))
  unfolding is_blocked_destination_host
  is_blocked-group v rest h shape v6 =
      ap (is_blocked_normalized is_ip) shape
      ∙ normalized_group is_ip v rest h (ap is_ip (sym shape) ∙ v6)

  -- An IPv4-mapped address whose last part isIP does not take for IPv4, as in ::ffff:7f00:1, is
  -- accepted as a destination whatever IPv4 address it stands for.
  pub is_blocked-mapped_hex :
      (s : Text)
      → normalized ≡ text "::ffff:" ++ s
      → is_ip normalized ≡ 6
      → is_ip (to_lower_case s) ≢ 4
      → is_blocked_destination_host is_ip host ≡ false
  unfolding is_blocked_destination_host
  is_blocked-mapped_hex s shape v6 not4 =
      ap (is_blocked_normalized is_ip) shape
      ∙ normalized_mapped is_ip s (ap is_ip (sym shape) ∙ v6) not4
