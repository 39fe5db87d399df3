-- ===== src/Proxy/ConnectTarget/RoundTrip.antt =====
-- A CONNECT target that is written from a host and a port is read back.
use guard_me.Prelude.{
  ℕ, ◌≡◌, refl, ap, ◌∙◌, ◌≢◌, inl, inr, true, false, some, [], ◌∷◌, ◌++◌, arith, Bool-cases,
  if◌then◌else◌,
}
use guard_me.Text.{Text, trim, has_unit}
use guard_me.Text.Printing.{Number}
use guard_me.Text.Splitting.{IsFree, cut_first-append, cut_last-append}
use guard_me.Proxy.ConnectTarget.{
  is_port, colon_count, host_and_port, port_number, accept_target, parse_connect_target,
}

-- `host:port`, with brackets round a host that has a colon.
unfoldable pub format_target : Text → Text → Text
unfolding has_unit
format_target host port =
    if has_unit b':' host then b'[' ∷ (host ++ (b']' ∷ b':' ∷ port)) else host ++ (b':' ∷ port)

colon_count_free : (p : Text) → IsFree b':' p → colon_count p ≡ 0
unfolding colon_count
colon_count_free [] f = refl
colon_count_free (d ∷ p) (e, f) = ground (arith, colon_count_free p f)

colon_count_one : (h p : Text) → IsFree b':' h → IsFree b':' p → colon_count (h ++ (b':' ∷ p)) ≡ 1
unfolding colon_count
colon_count_one [] p f g = ground (arith, colon_count_free p g)
colon_count_one (d ∷ h) p (e, f) g = ground (arith, colon_count_one h p f g)

has_no_unit : (c : ℕ) (s : Text) → has_unit c s ≡ false → IsFree c s
unfolding has_unit
has_no_unit c [] h = tt
has_no_unit c (d ∷ s) h = (ground arith, has_no_unit c s (ground arith))

split_plain :
    (h p : Text)
    → h ≢ []
    → IsFree b'[' h
    → IsFree b':' h
    → IsFree b':' p
    → host_and_port (h ++ (b':' ∷ p)) ≡ some (h, some p)
split_plain [] p ne f g k = absurd (ne refl)
split_plain (c ∷ h) p ne f g k =
    unfold host_and_port in
    rw (f.0, colon_count_one (c ∷ h) p g k, cut_last-append b':' (c ∷ h) p k)

split_bracketed :
    (h p : Text)
    → IsFree b']' h
    → host_and_port (b'[' ∷ (h ++ (b']' ∷ b':' ∷ p))) ≡ some (h, some p)
unfolding host_and_port
split_bracketed h p f = rw (cut_first-append b']' h (b':' ∷ p) f)

module _ (to_number : Text → Number) (host port : Text) where
  accepted :
      host ≢ []
      → port ≢ []
      → is_port (to_number port) ≡ true
      → accept_target to_number (some (host, some port))
        ≡ some (record { host = host; port = to_number port })
  unfolding accept_target port_number
  accepted ne some_port valid = ground arith

  -- A host without brackets and a port text that stands for a port number, written with a colon
  -- between them and with brackets round a host that has a colon of its own, are read back as they
  -- are, if the written target has no space at its ends.
  pub parse_connect_target-format_target :
      host ≢ []
      → IsFree b'[' host
      → IsFree b']' host
      → port ≢ []
      → IsFree b':' port
      → is_port (to_number port) ≡ true
      → trim (format_target host port) ≡ format_target host port
      → parse_connect_target to_number (format_target host port)
        ≡ some (record { host = host; port = to_number port })
  unfolding parse_connect_target
  parse_connect_target-format_target ne no_open no_close some_port free valid trimmed =
      ap (accept_target to_number) (ap host_and_port trimmed ∙ shape) ∙ accepted ne some_port valid
    where
      shape : host_and_port (format_target host port) ≡ some (host, some port)
      shape = elim (Bool-cases (has_unit b':' host)) [
        | inl e ↦ unfold format_target in rw e (split_bracketed host port no_close)
        | inr e ↦
            unfold format_target in
            rw e (split_plain host port ne no_open (has_no_unit b':' host e) free)
      ]
