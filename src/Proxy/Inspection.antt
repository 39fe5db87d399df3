-- ===== src/Proxy/Inspection.antt =====
-- proxy/inspection.service.ts and proxy/utils/proceed-url.util.ts. The URL class of the platform is
-- an interface.
pub mod FileScan
use guard_me.Prelude.{
  ℕ, Bool, true, false, not, ◌||◌, ◌&&◌, Option, none, some, List, [], ◌∷◌, String, Result, ok, err,
  http, failure, ◌++◌, ◌>>=◌, str_eq, if◌then◌else◌,
}
use Prim.Native.String
use guard_me.Text.{Text, text, ◌==◌, has_unit, split, to_upper_case}
use guard_me.Text.Printing.{Number, integer, to_string}
use guard_me.Proxy.Url.{is_blocked_destination_host, default_port_for_scheme}

-- What the source reads of a parsed URL: the protocol without its colon, the host, the port if it
-- is written, and the path.
pub record ParsedUrl : Type 0 where
  pub scheme : Text
  pub hostname : Text
  pub port : Option ℕ
  pub pathname : Text

-- The URL class: `new URL(s)`, which fails on some texts, and its search parameters.
pub record UrlApi : Type 0 where
  pub parse : String → Option ParsedUrl
  pub search_param : String → String → Option String
  pub delete_param : String → String → String
  pub set_param : String → String → String → String

-- What the source reads of a request. `is_absolute` is the test /^https?:\/\//i on its target.
pub record Request : Type 0 where
  pub method : Text
  pub url : String
  pub is_absolute : Bool
  pub host : Option String
  pub client_ip : Text

pub record InspectionResult : Type 0 where
  pub method : Text
  pub normalized_url : String
  pub destination_host : Text
  pub destination_port : Number
  pub destination_scheme : Text
  pub is_file_download : Bool
  pub file_name : Option Text
  pub bypass_token : Option String

abbrev pub guardme_bypass_param : String
guardme_bypass_param = "guardme_bypass"

abbrev is_empty : Text → Bool
is_empty [] = true
is_empty (c ∷ s) = false

-- `parts.pop() ?? ''`
unfoldable pub last_part : List Text → Text
last_part [] = []
last_part (p ∷ []) = p
last_part (p ∷ q ∷ ps) = last_part (q ∷ ps)

unfoldable pub extract_file_name : Text → Option Text
unfolding last_part
extract_file_name pathname =
    let last_segment = last_part (split b'/' pathname) in
    if is_empty last_segment || not (has_unit b'.' last_segment) then none else some last_segment

unfoldable pub resolve_absolute_url : Request → Result String
resolve_absolute_url req = if req.is_absolute then ok req.url else elim req.host [
  | none ↦ err (http 400 "Missing host header")
  | some host ↦
      if str_eq host ""
      then err (http 400 "Missing host header")
      else ok (String.◌++◌ "http://" (String.◌++◌ host req.url))
]

-- The platform's answer to a text that is no URL is a TypeError.
abbrev parsed : UrlApi → String → Result ParsedUrl
parsed urls url = elim (urls.parse url) [ none ↦ err (failure "Invalid URL") | some p ↦ ok p ]

module _ (is_ip : Text → ℕ) (urls : UrlApi) where
  -- The tests on the parsed URL, in the order of the source.
  unfoldable pub check_destination : ParsedUrl → Result (Unit {0})
  check_destination p =
      if not (p.scheme == text "http") && not (p.scheme == text "https")
      then err (http 400 "Only http and https URLs are allowed")
      else if is_blocked_destination_host is_ip p.hostname
      then err (http 400 "Destination host is not allowed")
      else ok tt

  unfoldable pub inspection_of : Text → String → ParsedUrl → InspectionResult
  inspection_of method absolute_url p =
      let file_name = extract_file_name p.pathname in
      record {
        method = to_upper_case method;
        normalized_url = urls.delete_param absolute_url guardme_bypass_param;
        destination_host = p.hostname;
        destination_port = elim p.port [
          | some port ↦ integer port
          | none ↦ integer (default_port_for_scheme p.scheme)
        ];
        destination_scheme = p.scheme;
        is_file_download = elim file_name [ none ↦ false | some _ ↦ true ];
        file_name = file_name;
        bypass_token = urls.search_param absolute_url guardme_bypass_param;
      }

  unfoldable pub inspect : Request → Result InspectionResult
  inspect req = do
    absolute_url ← resolve_absolute_url req
    p ← parsed urls absolute_url
    checked ← check_destination p
    ok (inspection_of req.method absolute_url p)

-- `print_number` is what a template literal makes of a number.
module _ (is_ip : Text → ℕ) (print_number : Number → Text) where
  abbrev pub connect_url : Text → Number → String
  connect_url host port =
      to_string (text "https://" ++ host ++ (b':' ∷ print_number port) ++ text "/")

  abbrev pub connect_inspection : Text → Number → InspectionResult
  connect_inspection host port = record {
    method = text "CONNECT";
    normalized_url = connect_url host port;
    destination_host = host;
    destination_port = port;
    destination_scheme = text "https";
    is_file_download = false;
    file_name = none;
    bypass_token = none;
  }

  unfoldable pub build_connect_inspection : Text → Number → Result InspectionResult
  build_connect_inspection host port =
      if is_blocked_destination_host is_ip host
      then err (http 400 "Destination host is not allowed")
      else ok (connect_inspection host port)
