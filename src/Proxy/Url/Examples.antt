-- ===== src/Proxy/Url/Examples.antt =====
-- Destinations at concrete addresses.
use guard_me.Prelude.{
  ℕ, ◌≡◌, refl, ◌≢◌, true, false, ◌&&◌, ◌∷◌, ◌++◌, arith, leb, all, find, if◌then◌else◌,
}
use guard_me.Text.{Text, text, ◌==◌, starts_with, ends_with, to_lower_case, trim, has_unit, split}
use guard_me.Proxy.Url.{
  is_private_or_loopback_ipv4, is_second_octet, strip_ipv6_brackets, without_last,
  is_private_or_local_ipv6, unwrap_ipv4_mapped, is_link_local_ipv6, is_unique_local_ipv6,
  first_hextet, first_part, parse_int_hex, parse_hex_from, hex_digit, is_blocked_normalized,
  is_blocked_destination_host,
}
use guard_me.Proxy.Url.Ipv4.{dec, dotted, is_refused_range, is_blocked-dotted}
use guard_me.Proxy.Url.Ipv6.{hex, group}

-- A stand-in for `isIP` that serves at the inputs below.
unfoldable pub sample_is_ip : Text → ℕ
unfolding has_unit
sample_is_ip s = if has_unit b':' s then 6 else if all (λ c. leb 46 c && leb c 57) s then 4 else 0

run_urls : Unit {0}
unfolding sample_is_ip is_private_or_loopback_ipv4 is_second_octet strip_ipv6_brackets without_last
    is_private_or_local_ipv6 unwrap_ipv4_mapped is_link_local_ipv6 is_unique_local_ipv6 first_hextet
    first_part parse_int_hex parse_hex_from hex_digit is_blocked_normalized
    is_blocked_destination_host dec hex text ◌==◌ starts_with ends_with to_lower_case trim has_unit
    split find
run_urls = tt

destinations :
    (is_blocked_destination_host sample_is_ip (text "LOCALHOST") ≡ true)
    × (is_blocked_destination_host sample_is_ip (text "[::1]") ≡ true)
    × (is_blocked_destination_host sample_is_ip (text "::ffff:10.0.0.1") ≡ true)
    × (is_blocked_destination_host sample_is_ip (text "::ffff:7f00:1") ≡ false)
    × (is_blocked_destination_host sample_is_ip (text "::") ≡ false)
    × (is_blocked_destination_host sample_is_ip (text "172.32.0.1") ≡ false)
    × (is_blocked_destination_host sample_is_ip (text "example.com") ≡ false)
unfolding run_urls
destinations = (refl, refl, refl, refl, refl, refl, refl)

address_is_v4 : sample_is_ip (dotted 172 20 0 1) ≡ 4
unfolding run_urls
address_is_v4 = refl

is_blocked-dotted_example :
    is_blocked_destination_host sample_is_ip (dotted 172 20 0 1) ≡ is_refused_range 172 20 0 1
is_blocked-dotted_example =
    is_blocked-dotted sample_is_ip 172 20 0 1 (omega arith) (omega arith) (omega arith)
      (omega arith) address_is_v4

link_local_shape :
    strip_ipv6_brackets (to_lower_case (trim (text "[FE80::1]")))
    ≡ group 0xfe80 ++ (b':' ∷ text ":1")
unfolding run_urls
link_local_shape = refl

link_local_v6 : sample_is_ip (strip_ipv6_brackets (to_lower_case (trim (text "[FE80::1]")))) ≡ 6
unfolding run_urls
link_local_v6 = refl

mapped_shape :
    strip_ipv6_brackets (to_lower_case (trim (text "::ffff:7f00:1")))
    ≡ text "::ffff:" ++ text "7f00:1"
unfolding run_urls
mapped_shape = refl

mapped_v6 : sample_is_ip (strip_ipv6_brackets (to_lower_case (trim (text "::ffff:7f00:1")))) ≡ 6
unfolding run_urls
mapped_v6 = refl

mapped_not_v4 : sample_is_ip (to_lower_case (text "7f00:1")) ≢ 4
unfolding run_urls
mapped_not_v4 = omega arith
