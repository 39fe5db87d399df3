-- ===== src/Proxy/Headers.antt =====
-- proxy/utils/hop-by-hop-headers.util.ts: which headers are passed on. An object of headers is the
-- list of its entries, whose keys are distinct.
pub mod Kept
use guard_me.Prelude.{
  ℕ, Bool, true, false, ◌||◌, Option, none, some, List, [], ◌∷◌, ◌++◌, any, map, if◌then◌else◌,
}
use guard_me.Text.{Text, text, ◌==◌, to_lower_case}
use guard_me.Text.Printing.{Number}

unfoldable pub hop_by_hop_headers : List Text
hop_by_hop_headers =
    text "connection"
    ∷ text "keep-alive"
    ∷ text "proxy-authenticate"
    ∷ text "proxy-authorization"
    ∷ text "proxy-connection"
    ∷ text "te"
    ∷ text "trailer"
    ∷ text "transfer-encoding"
    ∷ text "upgrade"
    ∷ []

-- A value: a text, texts, a number, or anything else.
pub data HeaderValue : Type 0 where
  one : Text → HeaderValue
  many : List Text → HeaderValue
  numeric : Number → HeaderValue
  other : HeaderValue

-- `value.join(', ')`
unfoldable pub join_comma : List Text → Text
unfolding text
join_comma [] = []
join_comma (v ∷ []) = v
join_comma (v ∷ w ∷ vs) = v ++ text ", " ++ join_comma (w ∷ vs)

unfoldable pub is_hop_by_hop : Text → Bool
is_hop_by_hop key = any (λ h. h == to_lower_case key) hop_by_hop_headers

-- The text that stands for a request header's value, if the header is passed on.
unfoldable pub request_value : HeaderValue → Option Text
request_value (one v) = some v
request_value (many []) = none
request_value (many (v ∷ vs)) = some (join_comma (v ∷ vs))
request_value _ = none

abbrev pub put_if : Text → Option Text → List (Text × Text) → List (Text × Text)
put_if key none rest = rest
put_if key (some v) rest = (key, v) ∷ rest

unfoldable pub sanitize_forward_request_headers : List (Text × HeaderValue) → List (Text × Text)
unfolding request_value
sanitize_forward_request_headers [] = []
sanitize_forward_request_headers ((key, value) ∷ headers) =
    let rest = sanitize_forward_request_headers headers in
    if is_hop_by_hop key || (to_lower_case key == text "host")
    then rest
    else put_if key (request_value value) rest

-- `print_number` is `String` of a number.
module _ (print_number : Number → Text) where
  unfoldable pub response_value : HeaderValue → Option Text
  response_value (one v) = some v
  response_value (many []) = none
  response_value (many (v ∷ vs)) = some (join_comma (v ∷ vs))
  response_value (numeric n) = some (print_number n)
  response_value other = none

  unfoldable pub sanitize_forward_response_headers : List (Text × HeaderValue) → List (Text × Text)
  unfolding response_value
  sanitize_forward_response_headers [] = []
  sanitize_forward_response_headers ((key, value) ∷ headers) =
      let rest = sanitize_forward_response_headers headers in
      if is_hop_by_hop key then rest else put_if key (response_value value) rest
