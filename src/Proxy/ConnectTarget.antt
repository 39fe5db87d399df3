-- ===== src/Proxy/ConnectTarget.antt =====
-- proxy/utils/connect-target.util.ts: the target of a CONNECT request. `to_number` is JavaScript's
-- `Number` on a text, whose answers are told apart as far as the port's test can.
pub mod RoundTrip
use guard_me.Prelude.{
  ℕ, zero, suc, ◌+◌, ◌≤◌, ◌<◌, ◌≡◌, refl, sym, ap, ◌∙◌, ◌≢◌, ◌⊎◌, inl, inr, Bool, true, false, not,
  ◌&&◌, Option, none, some, List, [], ◌∷◌, ◌++◌, arith, leb, ltb, nat_beq, nat_beq_iff, length,
  filter, All, Bool-cases, Option-cases, if◌then◌else◌,
}
use guard_me.Text.Printing.{Number, integer, fraction}
use guard_me.Text.{Text, text, starts_with, cut_first, cut_last, trim}

-- `Number.isFinite(port) && port > 0 && port <= 65535`
unfoldable pub is_port : Number → Bool
is_port (integer n) = ltb 0 n && leb n 65535
is_port (fraction n) = ltb n 65535
is_port _ = false

pub record ConnectTarget : Type 0 where
  pub host : Text
  pub port : Number

abbrev is_empty : Text → Bool
is_empty [] = true
is_empty (c ∷ s) = false

-- `(s.match(/:/g) ?? []).length`
unfoldable pub colon_count : Text → ℕ
unfolding filter
colon_count s = length (filter (nat_beq b':') s)

-- The host and the text of the port, if the target has the shape of one.
unfoldable pub host_and_port : Text → Option (Text × Option Text)
unfolding starts_with cut_first
host_and_port [] = none
host_and_port (c ∷ s) =
    if nat_beq c b'['
    then (elim (cut_first b']' s) [
      | none ↦ none
      | some p ↦ elim (p.1) [
        | [] ↦ some (p.0, none)
        | d ∷ port ↦ if nat_beq d b':' then some (p.0, some port) else none
      ]
    ])
    else if ltb 1 (colon_count (c ∷ s))
    then none
    else (elim (cut_last b':' (c ∷ s)) [
      | none ↦ some (c ∷ s, none)
      | some p ↦ some (p.0, some p.1)
    ])

module _ (to_number : Text → Number) where
  -- `portPart ? Number(portPart) : 443`, where an empty text is false too
  unfoldable pub port_number : Option Text → Number
  port_number none = integer 443
  port_number (some s) = if is_empty s then integer 443 else to_number s

  -- The tests behind the shape: a host, and a port in range.
  unfoldable pub accept_target : Option (Text × Option Text) → Option ConnectTarget
  accept_target none = none
  accept_target (some p) =
      if is_empty p.0
      then none
      else if is_port (port_number p.1)
      then some (record { host = p.0; port = port_number p.1 })
      else none

  unfoldable pub parse_connect_target : Text → Option ConnectTarget
  parse_connect_target target = accept_target (host_and_port (trim target))
