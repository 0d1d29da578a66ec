-- ===== src/Gateway/Headers.antt =====
-- Header names and values: _RESERVED_UPSTREAM_HEADERS and UpstreamCredentialSettings of
-- kin_gateway/config.py, _validate_header of kin_gateway/upstream/credentials.py, and
-- _selected_headers of kin_gateway/app.py.
use kin_gateway.Prelude.{
  get, ℕ, ◌+◌, String, ◌≡◌, refl, Bool, true, false, not, ◌&&◌, ◌||◌, Option, none, some, List, [],
  ◌∷◌, arith, eq_iff, leb, ◌==◌, if◌then◌else◌, is_empty, codes, truthy, truthy?, str_in, Dict,
}

-- str.lower() on the names that the pattern below admits, which are ASCII.
unfoldable pub lower_code : ℕ → ℕ
lower_code c = if leb b'A' c && leb c b'Z' then c + 32 else c

unfoldable pub lower_codes : List ℕ → List ℕ
unfolding lower_code
lower_codes [] = []
lower_codes (c ∷ cs) = lower_code c ∷ lower_codes cs

-- [A-Za-z0-9-]
unfoldable pub is_name_code : ℕ → Bool
is_name_code c =
    (leb b'A' c && leb c b'Z')
    || (leb b'a' c && leb c b'z')
    || (leb b'0' c && leb c b'9')
    || c == b'-'

all_name_codes : List ℕ → Bool
unfolding is_name_code
all_name_codes [] = true
all_name_codes (c ∷ cs) = is_name_code c && all_name_codes cs

-- re.fullmatch(r"[A-Za-z0-9-]+", value)
unfoldable pub is_header_token : String → Bool
unfolding all_name_codes
is_header_token s = not (is_empty (codes s)) && all_name_codes (codes s)

unfoldable pub codes_eq : List ℕ → List ℕ → Bool
codes_eq [] [] = true
codes_eq (c ∷ cs) (d ∷ ds) = c == d && codes_eq cs ds
codes_eq _ _ = false

codes_in : List ℕ → List String → Bool
unfolding codes_eq
codes_in cs [] = false
codes_in cs (s ∷ ss) = codes_eq cs (codes s) || codes_in cs ss

abbrev pub reserved_headers : List String
reserved_headers =
    "a2a-extensions" ∷ "a2a-version" ∷ "connection" ∷ "content-length" ∷ "content-type" ∷ "host"
    ∷ "transfer-encoding" ∷ []

-- value.lower() in _RESERVED_UPSTREAM_HEADERS
unfoldable pub is_reserved : String → Bool
unfolding codes_in lower_codes
is_reserved name = codes_in (lower_codes (codes name)) reserved_headers

pub data Mode : Type 0 where
  private_mode header_mode : Mode

pub record UpstreamCredentialSettings : Type 0 where
  pub mode : Mode
  pub header_name : Option String
  pub secret_ref : Option String
  pub value_prefix : String

name_is_valid : Option String → Bool
name_is_valid none = true
name_is_valid (some n) = is_header_token n && not (is_reserved n)

mode_is_complete : Mode → Option String → Option String → Bool
mode_is_complete private_mode name secret = true
mode_is_complete header_mode name secret = truthy? name && truthy? secret

-- The two validators of UpstreamCredentialSettings.
unfoldable pub settings_are_valid : UpstreamCredentialSettings → Bool
unfolding name_is_valid mode_is_complete
settings_are_valid s =
    name_is_valid s.header_name && mode_is_complete s.mode s.header_name s.secret_ref

-- "\r" in value or "\n" in value
has_line_break : List ℕ → Bool
has_line_break [] = false
has_line_break (c ∷ cs) = c == 13 || c == 10 || has_line_break cs

-- _validate_header raises where this is false.
unfoldable pub header_is_valid : String → String → Bool
unfolding has_line_break
header_is_valid name held =
    settings_are_valid (record {
      mode = header_mode;
      header_name = some name;
      secret_ref = some "validation-only";
      value_prefix = "";
    })
    && truthy held
    && not (has_line_break (codes held))

-- {name: headers[name] for name in allowed if name in headers}
unfoldable pub selected_headers : Dict String → List String → Dict String
unfolding get
selected_headers headers [] = []
selected_headers headers (name ∷ names) =
    let rest = selected_headers headers names in
    elim (get headers name) [ none ↦ rest | some v ↦ (name, v) ∷ rest ]

abbrev pub forwarded_request_headers : List String
forwarded_request_headers =
    "content-type" ∷ "accept" ∷ "a2a-version" ∷ "a2a-extensions" ∷ "last-event-id" ∷ []

abbrev pub forwarded_response_headers : List String
forwarded_response_headers =
    "content-type" ∷ "cache-control" ∷ "a2a-version" ∷ "etag" ∷ "content-location" ∷ "retry-after"
    ∷ "content-encoding" ∷ []

-- A name has in the selected headers the value that it has in the headers, if it is an allowed one,
-- and none otherwise.
pub selected-get :
    (headers : Dict String) (allowed : List String) (name : String)
    → get (selected_headers headers allowed) name
      ≡ (if str_in name allowed then get headers name else none)
unfolding selected_headers get
selected-get headers [] name = refl
selected-get headers (a ∷ rest) name =
    ground (arith, eq_iff a name, eq_iff name a, selected-get headers rest name)
