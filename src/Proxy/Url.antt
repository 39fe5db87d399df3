-- ===== src/Proxy/Url.antt =====
-- proxy/utils/url.util.ts: which destinations the proxy refuses. `is_ip` is `isIP` of node:net,
-- which answers 4, 6 or 0.
pub mod Ipv4
pub mod Ipv6
pub mod Examples
use guard_me.Prelude.{
  ℕ, zero, suc, ◌+◌, ◌-◌, ◌*◌, Bool, true, false, not, ◌&&◌, ◌||◌, Option, none, some, List, [],
  ◌∷◌, leb, nat_beq, drop, find, if◌then◌else◌,
}
use guard_me.Text.{Text, text, ◌==◌, starts_with, ends_with, split, to_lower_case, trim}

abbrev is_empty : Text → Bool
is_empty [] = true
is_empty (c ∷ s) = false

-- `s.slice(0, -1)`
unfoldable pub without_last : Text → Text
without_last [] = []
without_last (c ∷ []) = []
without_last (c ∷ d ∷ s) = c ∷ without_last (d ∷ s)

unfoldable pub strip_ipv6_brackets : Text → Text
strip_ipv6_brackets host =
    if starts_with host (b'[' ∷ []) && ends_with host (b']' ∷ [])
    then without_last (drop 1 host)
    else host

abbrev is_digit : ℕ → Bool
is_digit c = leb b'0' c && leb c b'9'

-- The group (1[6-9]|2\d|3[01]) and the dot behind it.
unfoldable pub is_second_octet : Text → Bool
unfolding starts_with
is_second_octet (c ∷ d ∷ s) =
    ((nat_beq c b'1' && (leb b'6' d && leb d b'9'))
      || (nat_beq c b'2' && is_digit d)
      || (nat_beq c b'3' && (nat_beq d b'0' || nat_beq d b'1')))
    && starts_with s (b'.' ∷ [])
is_second_octet _ = false

unfoldable pub is_private_or_loopback_ipv4 : Text → Bool
is_private_or_loopback_ipv4 ip =
    if ip == text "0.0.0.0"
    then true
    else if starts_with ip (text "127.")
    then true
    else if starts_with ip (text "10.")
    then true
    else if starts_with ip (text "192.168.")
    then true
    else if starts_with ip (text "169.254.")
    then true
    else starts_with ip (text "172.") && is_second_octet (drop 4 ip)

unfoldable pub hex_digit : ℕ → Option ℕ
hex_digit c =
    if leb b'0' c && leb c b'9'
    then some (c - b'0')
    else if leb b'a' c && leb c b'f'
    then some (c - b'a' + 10)
    else if leb b'A' c && leb c b'F'
    then some (c - b'A' + 10)
    else none

unfoldable pub parse_hex_from : ℕ → Text → ℕ
parse_hex_from value [] = value
parse_hex_from value (c ∷ s) = elim (hex_digit c) [
  | none ↦ value
  | some d ↦ parse_hex_from (value * 16 + d) s
]

-- `Number.parseInt(s, 16)`, `none` for NaN, on a text with no space, sign or 0x in front: a part of
-- an address that `isIP` accepts has none.
unfoldable pub parse_int_hex : Text → Option ℕ
parse_int_hex [] = none
parse_int_hex (c ∷ s) = elim (hex_digit c) [ none ↦ none | some d ↦ some (parse_hex_from d s) ]

-- `parts.find((part) => part.length > 0) ?? ''`
unfoldable pub first_part : List Text → Text
first_part parts = elim (find (λ part. not (is_empty part)) parts) [ none ↦ [] | some part ↦ part ]

unfoldable pub first_hextet : Text → Text
first_hextet ip = first_part (split b':' ip)

abbrev is_between : ℕ → ℕ → Option ℕ → Bool
is_between lo hi none = false
is_between lo hi (some value) = leb lo value && leb value hi

unfoldable pub is_link_local_ipv6 : Text → Bool
is_link_local_ipv6 ip =
    let hextet = first_hextet ip in
    if is_empty hextet then false else is_between 0xfe80 0xfebf (parse_int_hex hextet)

unfoldable pub is_unique_local_ipv6 : Text → Bool
is_unique_local_ipv6 ip =
    let hextet = first_hextet ip in
    if is_empty hextet then false else is_between 0xfc00 0xfdff (parse_int_hex hextet)

module _ (is_ip : Text → ℕ) where
  unfoldable pub unwrap_ipv4_mapped : Text → Option Text
  unwrap_ipv4_mapped ip =
      let lower = to_lower_case ip in
      if not (starts_with lower (text "::ffff:"))
      then none
      else if nat_beq (is_ip (drop 7 lower)) 4
      then some (drop 7 lower)
      else none

  unfoldable pub is_private_or_local_ipv6 : Text → Bool
  is_private_or_local_ipv6 ip =
      let by_prefix = if is_link_local_ipv6 ip then true else is_unique_local_ipv6 ip in
      if ip == text "::1" then true else elim (unwrap_ipv4_mapped ip) [
        | none ↦ by_prefix
        | some mapped ↦ if is_empty mapped then by_prefix else is_private_or_loopback_ipv4 mapped
      ]

  unfoldable pub is_blocked_normalized : Text → Bool
  is_blocked_normalized normalized =
      if normalized == text "localhost"
      then true
      else if nat_beq (is_ip normalized) 4
      then is_private_or_loopback_ipv4 normalized
      else if nat_beq (is_ip normalized) 6
      then is_private_or_local_ipv6 normalized
      else false

  unfoldable pub is_blocked_destination_host : Text → Bool
  is_blocked_destination_host host =
      is_blocked_normalized (strip_ipv6_brackets (to_lower_case (trim host)))

-- `scheme === 'https' ? 443 : 80`
unfoldable pub default_port_for_scheme : Text → ℕ
default_port_for_scheme scheme = if scheme == text "https" then 443 else 80
