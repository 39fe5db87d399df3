-- ===== src/Proxy/Headers/Kept.antt =====
-- Exactly the headers that are passed on, with their values.
use guard_me.Prelude.{
  ◌≡◌, refl, ap, ◌⊎◌, inl, inr, ◌↔◌, Bool, true, false, ◌||◌, Option, none, some, List, [], ◌∷◌, In,
  if◌then◌else◌,
}
use guard_me.Text.{Text, text, ◌==◌, to_lower_case}
use guard_me.Text.Printing.{Number}
use guard_me.Proxy.Headers.{
  HeaderValue, is_hop_by_hop, request_value, response_value, put_if,
  sanitize_forward_request_headers, sanitize_forward_response_headers,
}

-- Where a header comes from: an entry with its key, whose value the text stands for, and which is
-- not left out.
abbrev pub Origin :
    (Text → Bool) → (HeaderValue → Option Text) → List (Text × HeaderValue) → Text × Text → Type 0
Origin skipped shown headers h =
    (value : HeaderValue) × In (h.0, value) headers
    × (skipped h.0 ≡ false)
    × (shown value ≡ some h.1)

-- One header in front of the others.
abbrev entry : Bool → Option Text → Text → List (Text × Text) → List (Text × Text)
entry skip value key rest = if skip then rest else put_if key value rest

abbrev IsNew : Bool → Option Text → Text → Text × Text → Type 0
IsNew skip value key h = (h.0 ≡ key) × (skip ≡ false) × (value ≡ some h.1)

of_entry :
    (skip : Bool) (value : Option Text) (key : Text) (rest : List (Text × Text)) (h : Text × Text)
    → In h (entry skip value key rest)
    → IsNew skip value key h ⊎ In h rest
of_entry true value key rest h m = inr m
of_entry false none key rest h m = inr m
of_entry false (some v) key rest h (inl e) = inl (cc, refl, cc)
of_entry false (some v) key rest h (inr m) = inr m

to_entry :
    (skip : Bool) (value : Option Text) (key : Text) (rest : List (Text × Text)) (h : Text × Text)
    → IsNew skip value key h ⊎ In h rest
    → In h (entry skip value key rest)
to_entry true value key rest h (inl (k, e, v)) = absurd (cc)
to_entry true value key rest h (inr m) = m
to_entry false none key rest h (inl (k, e, v)) = absurd (cc)
to_entry false none key rest h (inr m) = m
to_entry false (some v) key rest h (inl (k, e, n)) = inl (cc)
to_entry false (some v) key rest h (inr m) = inr m

module _ (skipped : Text → Bool) (shown : HeaderValue → Option Text) where
  -- What both loops compute.
  abbrev kept : List (Text × HeaderValue) → List (Text × Text)
  kept [] = []
  kept ((key, value) ∷ headers) = entry (skipped key) (shown value) key (kept headers)

  kept_iff :
      (headers : List (Text × HeaderValue)) (h : Text × Text)
      → In h (kept headers) ↔ Origin skipped shown headers h
  kept_iff [] h = (λ m. elim m [ ], λ o. elim (o.1) [ ])
  kept_iff ((key, value) ∷ headers) h = let below = kept_iff headers h in (forth below, back below)
    where
      forth :
          (In h (kept headers) ↔ Origin skipped shown headers h)
          → In h (kept ((key, value) ∷ headers))
          → Origin skipped shown ((key, value) ∷ headers) h
      forth below m = elim (of_entry (skipped key) (shown value) key (kept headers) h m) [
        | inl (k, e, v) ↦ (value, inl (cc), cc, v)
        | inr n ↦ let (w, i, e, v) = below.0 n in (w, inr i, e, v)
      ]

      back :
          (In h (kept headers) ↔ Origin skipped shown headers h)
          → Origin skipped shown ((key, value) ∷ headers) h
          → In h (kept ((key, value) ∷ headers))
      back below (w, inl i, e, v) =
          to_entry (skipped key) (shown value) key (kept headers) h (inl (cc, cc, cc))
      back below (w, inr i, e, v) =
          to_entry (skipped key) (shown value) key (kept headers) h (inr (below.1 (w, i, e, v)))

abbrev skips_request : Text → Bool
skips_request key = is_hop_by_hop key || (to_lower_case key == text "host")

request-kept :
    (headers : List (Text × HeaderValue))
    → sanitize_forward_request_headers headers ≡ kept skips_request request_value headers
unfolding sanitize_forward_request_headers
request-kept [] = refl
request-kept ((key, value) ∷ headers) =
    ap (entry (skips_request key) (request_value value) key) (request-kept headers)

-- A request header is passed on exactly if it is a header of the request that is neither meant for
-- one connection only nor the host, and its value is a text or a list of texts that is not empty.
pub sanitize_request_iff :
    (headers : List (Text × HeaderValue)) (h : Text × Text)
    → In h (sanitize_forward_request_headers headers)
      ↔ Origin
          (λ key. is_hop_by_hop key || (to_lower_case key == text "host"))
          request_value
          headers
          h
sanitize_request_iff headers h =
    rw (request-kept headers) (kept_iff skips_request request_value headers h)

module _ (print_number : Number → Text) where
  response-kept :
      (headers : List (Text × HeaderValue))
      → sanitize_forward_response_headers print_number headers
        ≡ kept is_hop_by_hop (response_value print_number) headers
  unfolding sanitize_forward_response_headers
  response-kept [] = refl
  response-kept ((key, value) ∷ headers) =
      ap (entry (is_hop_by_hop key) (response_value print_number value) key) (response-kept headers)

  -- A response header is passed on exactly if it is a header of the response that is not meant for
  -- one connection only, and its value is a text, a number or a list of texts that is not empty.
  pub sanitize_response_iff :
      (headers : List (Text × HeaderValue)) (h : Text × Text)
      → In h (sanitize_forward_response_headers print_number headers)
        ↔ Origin is_hop_by_hop (response_value print_number) headers h
  sanitize_response_iff headers h =
      rw (response-kept headers) (kept_iff is_hop_by_hop (response_value print_number) headers h)
