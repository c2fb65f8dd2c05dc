-- ===== src/Tunnel/Request.antt =====
-- The request that the worker's proxy writes to a backend: serviceURL's joinPath and writeHTTPRequest
-- of internal/worker/proxy.go.
pub mod Laws
pub mod Tests
use Prim.Native.String.{◌++◌ as text_append}
use traefik_connect.Common.{
  String, Bool, true, false, not, ◌&&◌, List, [], ◌∷◌, ◌++◌, ◌==◌, if◌then◌else◌, Unicode, ℤ, pos,
  negsuc, not_positive, itoa, has_prefix,
}
use traefik_connect.Tunnel.Headers.{Header, is_hop_by_hop}

-- tunnel.RequestStart
pub record RequestStart : Type 0 where
  pub method : String
  pub path : String
  pub raw_query : String
  pub host : String
  pub header : Header
  pub content_length : ℤ

-- strings.TrimSuffix(prefix, "/")
pub trim_slash : String → String
trim_slash String.[] = ""
trim_slash (String.◌∷◌ c s) =
    let rest = String.◌∷◌ c (trim_slash s) in if String.◌∷◌ c s == "/" then "" else rest

pub join_path : String → String → String
join_path prefix suffix =
    let base = trim_slash (if prefix == "" then "/" else prefix) in
    if suffix == ""
    then (if prefix == "" then "/" else prefix)
    else if has_prefix suffix "/"
    then text_append base suffix
    else text_append base (text_append "/" suffix)

abbrev pub header_line : String → String → String
header_line k v = text_append k (text_append ": " v)

abbrev pub value_lines : String → List String → List String
value_lines k [] = []
value_lines k (v ∷ vs) = header_line k v ∷ value_lines k vs

-- The lines that the loop over the header writes, where `skip` holds of the keys that it passes over.
unfoldable pub header_lines : (String → Bool) → Header → List String
header_lines skip [] = []
header_lines skip ((k, vs) ∷ header) =
    let rest = header_lines skip header in if skip k then rest else value_lines k vs ++ rest

abbrev pub host_line : RequestStart → String → Bool → String
host_line start backend pass_host_header =
    text_append "Host: "
      (if pass_host_header && not (start.host == "") then start.host else backend)

module _ (u : Unicode) (canonical : String → String) where
  pub request_target : RequestStart → String
  request_target start =
      let path = if start.path == "" then "/" else start.path in
      if start.raw_query == "" then path else text_append path (text_append "?" start.raw_query)

  pub length_lines : RequestStart → Bool → List String
  length_lines start chunked =
      if chunked
      then "Transfer-Encoding: chunked" ∷ []
      else if not_positive start.content_length
      then []
      else text_append "Content-Length: " (itoa start.content_length) ∷ []

  abbrev pub request_line : RequestStart → String
  request_line start =
      text_append start.method (text_append " " (text_append (request_target start) " HTTP/1.1"))

  -- The lines of the request that writeHTTPRequest writes in one piece, each ended by "\r\n", and the
  -- empty line last. `backend` is the host of the backend's URL.
  pub request_lines : RequestStart → String → Bool → Bool → Bool → List String
  request_lines start backend pass_host_header upgrade chunked =
      request_line start
        ∷ host_line start backend pass_host_header
        ∷ header_lines (λ k. is_hop_by_hop u canonical k && not upgrade) start.header
      ++ (length_lines start chunked ++ "" ∷ [])
