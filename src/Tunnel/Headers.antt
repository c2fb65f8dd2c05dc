-- ===== src/Tunnel/Headers.antt =====
-- The headers of a tunnelled request: sanitizeHeaders, copyHeaders, internalHeader, hopByHopHeader
-- and websocketUpgrade of internal/stub/server.go, and sanitizeHeaders, sanitizeResponseHeaders,
-- isHopByHopHeader and isWebSocketUpgrade of internal/worker/proxy.go.
pub mod Laws
pub mod Tests
use traefik_connect.Common.{
  String, Bool, true, not, ◌&&◌, Option, none, some, List, [], ◌∷◌, ◌++◌, ◌==◌, if◌then◌else◌, Dict,
  lookup, insert, any, Unicode, to_lower, equal_fold, contains,
}

-- http.Header: the values of each key, with http.CanonicalHeaderKey as a parameter.
abbrev pub Header : Type 0
Header = Dict (List String)

abbrev pub hop_by_hop_names : List String
hop_by_hop_names =
    "connection" ∷ "keep-alive" ∷ "proxy-authenticate" ∷ "proxy-authorization" ∷ "te" ∷ "trailer"
    ∷ "transfer-encoding" ∷ "upgrade" ∷ []

abbrev pub values_of : Option (List String) → List String
values_of none = []
values_of (some vs) = vs

module _ (u : Unicode) (canonical : String → String) where
  -- hopByHopHeader and isHopByHopHeader
  pub is_hop_by_hop : String → Bool
  is_hop_by_hop key = any (λ name. name == to_lower u key) hop_by_hop_names

  -- internalHeader, of the keys of internal/proxyheaders/headers.go
  pub is_internal : List String → String → Bool
  is_internal internal key = any (λ name. canonical name == canonical key) internal

  -- out.Add(k, v), for each of the values
  unfoldable pub add_values : String → List String → Header → Header
  add_values k [] out = out
  add_values k (v ∷ vs) out =
      add_values k vs (insert (canonical k) (values_of (lookup (canonical k) out) ++ v ∷ []) out)

  -- The loops of the filters, which skip the keys that `skip` holds of.
  unfoldable pub add_kept : (String → Bool) → Header → Header → Header
  add_kept skip [] out = out
  add_kept skip ((k, vs) ∷ header) out =
      let added = add_values k vs out in add_kept skip header (if skip k then out else added)

  -- sanitizeHeaders of the stub
  pub sanitize_headers : List String → Header → Bool → Header
  sanitize_headers internal header upgrade =
      add_kept (λ k. if is_internal internal k then true else not upgrade && is_hop_by_hop k) header
        []

  -- sanitizeResponseHeaders, and sanitizeHeaders, of the worker
  unfoldable pub sanitize_response_headers : Header → Header
  sanitize_response_headers header = add_kept is_hop_by_hop header []

  -- copyHeaders, into a header that it empties first
  unfoldable pub copy_headers : Header → Bool → Header
  copy_headers src upgrade = add_kept (λ k. not upgrade && is_hop_by_hop k) src []

  -- h.Get
  unfoldable pub get : Header → String → String
  get header k = first_of (lookup (canonical k) header)
    where
      first_of : Option (List String) → String
      first_of (some (v ∷ vs)) = v
      first_of _ = ""

  -- websocketUpgrade and isWebSocketUpgrade
  unfoldable pub is_websocket_upgrade : Header → Bool
  is_websocket_upgrade header =
      contains (to_lower u (get header "Connection")) "upgrade"
      && equal_fold u (get header "Upgrade") "websocket"
