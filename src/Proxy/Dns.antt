-- ===== src/Proxy/Dns.antt =====
-- proxy/utils/dns.util.ts: resolving a destination. `lookup` is `lookup(host, { all: true })` of
-- node:dns/promises in the race with the timeout, so it answers or fails; `is_ip` is `isIP`.
use guard_me.Prelude.{
  ℕ, ◌≡◌, Bool, false, Option, none, some, List, [], ◌∷◌, Result, ok, err, failure,
  blocked_destination, ◌>>=◌, await-ok, arith, any, head?, All, In, nat_beq, Bool-cases, ◌||◌,
  if◌then◌else◌, inl, inr,
}
use guard_me.Text.{Text}
use guard_me.Proxy.Url.{is_blocked_destination_host}

pub record ResolvedDestination : Type 0 where
  pub address : Text
  pub family : ℕ

module _ (is_ip : Text → ℕ) (lookup : Text → Result (List ResolvedDestination)) where
  unfoldable pub resolve_addresses : Text → Result (List ResolvedDestination)
  resolve_addresses host =
      if nat_beq (is_ip host) 4 || nat_beq (is_ip host) 6
      then ok (record { address = host; family = is_ip host } ∷ [])
      else lookup host

  unfoldable pub resolve_destination_ip : Text → Option Text
  resolve_destination_ip host = elim (resolve_addresses host) [
    | err _ ↦ none
    | ok addresses ↦ elim (head? addresses) [ none ↦ none | some d ↦ some d.address ]
  ]

  abbrev choose : List ResolvedDestination → Result ResolvedDestination
  choose [] = err (failure "Destination host could not be resolved")
  choose (d ∷ ds) =
      if any (λ x. is_blocked_destination_host is_ip x.address) (d ∷ ds)
      then err blocked_destination
      else ok d

  unfoldable pub resolve_allowed_destination : Text → Result ResolvedDestination
  resolve_allowed_destination host = do addresses ← resolve_addresses host; choose addresses

  any-false :
      (f : ResolvedDestination → Bool) (l : List ResolvedDestination)
      → any f l ≡ false
      → All (λ x. f x ≡ false) l
  any-false f [] h = tt
  any-false f (x ∷ xs) h = (ground arith, any-false f xs (ground arith))

  -- The address that a connection is made to is one of the host's addresses, and none of those
  -- addresses is a refused one.
  pub resolve_allowed_destination_sound :
      (host : Text) (d : ResolvedDestination)
      → resolve_allowed_destination host ≡ ok d
      → (l : List ResolvedDestination) × (resolve_addresses host ≡ ok l)
        × In d l
        × All (λ x. is_blocked_destination_host is_ip x.address ≡ false) l
  unfolding resolve_allowed_destination
  resolve_allowed_destination_sound host d h =
      let (l, e, c) = await-ok (resolve_addresses host) choose h in
      let (m, free) = go l c in (l, e, m, free)
    where
      go :
          (l : List ResolvedDestination)
          → choose l ≡ ok d
          → In d l × All (λ x. is_blocked_destination_host is_ip x.address ≡ false) l
      go [] c = absurd (cc)
      go (x ∷ xs) c =
          elim (Bool-cases (any (λ y. is_blocked_destination_host is_ip y.address) (x ∷ xs))) [
            | inl e ↦ absurd (cc)
            | inr e ↦ (
              inl (ground arith),
              any-false (λ y. is_blocked_destination_host is_ip y.address) (x ∷ xs) e,
            )
          ]
