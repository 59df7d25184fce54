-- ===== src/HttpUtil.antt =====
-- crates/common/src/http_util.rs: the checks of paths and headers that both proxies share.
pub mod Paths
use mathlib.Core.Option as Opt
use Prim.Native.Char.{Char, code}
use Prim.Native.String.{[] as empty, ◌∷◌ as ◌+>◌}
use text.Mathlib.Text.{starts_with}
use oidc_agent_compat.Prelude.{
  ℕ, suc, ◌+◌, String, ◌<>◌, ◌==◌, Bool, true, false, ◌||◌, Option, none, some, List, [], ◌∷◌, map,
  any, find, leb, ltb, eqb, ◌&&◌, if◌then◌else◌,
}
use oidc_agent_compat.Prelude.Text.{contains_text, trim, split_once, to_ascii_lower, has_char}
use oidc_agent_compat.Prelude.Utf8.{as_bytes, to_char}
use oidc_agent_compat.Prelude.Decimal.{to_decimal}
use oidc_agent_compat.Error.{Error, http, Result, ok, err}
use oidc_agent_compat.External.{External}
use oidc_agent_compat.Proxy.Http.{Header}

-- `MAX_BODY_SIZE`
abbrev pub max_body_size : ℕ
max_body_size = 10_485_760

-- `HOP_BY_HOP_HEADERS`
abbrev pub hop_by_hop_headers : List String
hop_by_hop_headers =
    "connection" ∷ "keep-alive" ∷ "proxy-authenticate" ∷ "proxy-authorization" ∷ "te" ∷ "trailer"
    ∷ "transfer-encoding" ∷ "upgrade" ∷ []

-- `FORWARDABLE_HEADERS`
abbrev pub forwardable_headers : List String
forwardable_headers =
    "content-type" ∷ "accept" ∷ "accept-encoding" ∷ "accept-language" ∷ "user-agent" ∷ []

-- `to_lowercase` of a text of ASCII characters, as paths and header values that are texts are; other
-- characters are kept.
unfoldable pub lowercase : String → String
unfolding to_char
lowercase empty = empty
lowercase (c +> s) = to_char (to_ascii_lower (code c)) +> lowercase s

unfoldable pub is_sse_content_type : String → Bool
unfolding lowercase contains_text
is_sse_content_type content_type = contains_text "text/event-stream" (lowercase content_type)

-- `bytes().position(|b| b < 0x20)`
unfoldable pub control_position : List ℕ → Option ℕ
control_position [] = none
control_position (b ∷ bytes) =
    let rest = control_position bytes in if ltb b 0x20 then some 0 else Opt.map suc rest

unfoldable pub has_encoded_dots : String → Bool
unfolding lowercase contains_text
has_encoded_dots path =
    let path_lower = lowercase path in
    contains_text "%2e%2e" path_lower
    || (contains_text "%2e." path_lower || contains_text ".%2e" path_lower)

unfoldable pub check_control : String → Option ℕ → Result Error String
check_control path none = ok path
check_control path (some pos) =
    err (http ("path contains control character at byte " <> to_decimal pos))

unfoldable pub sanitize_path : String → Result Error String
unfolding contains_text has_encoded_dots check_control control_position as_bytes has_char
sanitize_path path =
    if contains_text ".." path
    then err (http ("path contains '..': " <> path))
    else if has_char b'\\' path
    then err (http ("path contains backslash: " <> path))
    else if has_encoded_dots path
    then err (http ("path contains encoded '..': " <> path))
    else if contains_text "//" path
    then err (http ("path contains '//': " <> path))
    else if starts_with path "http://" || starts_with path "https://"
    then err (http ("path is absolute URL: " <> path))
    else check_control path (control_position (as_bytes path))

-- `split(',')`
unfoldable pub split_commas : String → List String
split_commas empty = empty ∷ []
split_commas (c +> s) =
    let rest = split_commas s in
    if eqb (code c) b','
    then empty ∷ rest
    else elim rest [ [] ↦ (c +> empty) ∷ [] | l ∷ ls ↦ (c +> l) ∷ ls ]

-- `headers.get(name)`, with the value as a text where it is one
abbrev pub header_named : String → List Header → Option Header
header_named name headers = find (λ (h : Header). h.name == name) headers

unfoldable pub connection_headers : Option Header → List String
unfolding split_commas lowercase trim
connection_headers none = []
connection_headers (some h) = elim h.text [
  | none ↦ []
  | some s ↦ map (λ part. lowercase (trim part)) (split_commas s)
]

-- The values are passed on as bytes, so that one that is no text is passed on too.
unfoldable pub forward_named : List String → List Header → List String → List Header
forward_named connection headers [] = []
forward_named connection headers (name ∷ names) =
    let rest = forward_named connection headers names in
    elim (header_named name headers) [
      | none ↦ rest
      | some h ↦ if any (λ c. c == name) connection then rest else h ∷ rest
    ]

unfoldable pub build_forward_headers : List Header → List Header
unfolding forward_named connection_headers
build_forward_headers headers =
    forward_named (connection_headers (header_named "connection" headers)) headers
      forwardable_headers

unfoldable pub is_response_header_stripped : String → Bool
is_response_header_stripped name_lower =
    any (λ h. h == name_lower) hop_by_hop_headers || name_lower == "content-length"
