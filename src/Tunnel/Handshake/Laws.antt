-- ===== src/Tunnel/Handshake/Laws.antt =====
-- internal/stub/server.go, internal/websocketx/websocketx.go and internal/worker/proxy.go: a stub's
-- handshake at its worker.
use traefik_connect.Common.{
  String, true, false, ◌≡◌, ◌≢◌, refl, [], ◌∷◌, ◌++◌, ok, ==-false, lookup, insert, to_lower,
  equal_fold, contains, has_prefix, after_prefix, Unicode,
}
use traefik_connect.Config.{StubConfig}
use traefik_connect.Tunnel.Headers.{Header, add_kept, add_values, get, is_websocket_upgrade}
use traefik_connect.Tunnel.Stub.{tunnel_headers, token_key, container_key, service_key}
use traefik_connect.Tunnel.Request.{header_lines}
use traefik_connect.Tunnel.Handshake.{
  read_header, switching_line, handshake_header, accept_header, accept_lines, check_handshake,
  websocket_accept,
}

-- What http.CanonicalHeaderKey makes of the keys of a handshake.
pub record GivesHttpKeys (canonical : String → String) : Type 0 where
  pub upgrade : canonical "Upgrade" ≡ "Upgrade"
  pub connection : canonical "Connection" ≡ "Connection"
  pub version : canonical "Sec-WebSocket-Version" ≡ "Sec-Websocket-Version"
  pub key : canonical "Sec-WebSocket-Key" ≡ "Sec-Websocket-Key"
  pub accept : canonical "Sec-WebSocket-Accept" ≡ "Sec-Websocket-Accept"
  pub token : canonical token_key ≡ token_key
  pub container : canonical container_key ≡ container_key
  pub service : canonical service_key ≡ service_key

module _ (u : Unicode) (canonical : String → String) (keys : GivesHttpKeys canonical)
    (cfg : StubConfig) (key : String) where
  abbrev sent : Header
  sent = read_header u canonical (handshake_header key (tunnel_headers cfg))

  -- What the lines of a handshake are read as.
  abbrev received : Header
  received =
      ("Upgrade", "websocket" ∷ [])
      ∷ ("Connection", "Upgrade" ∷ [])
      ∷ ("Sec-Websocket-Version", "13" ∷ [])
      ∷ ("Sec-Websocket-Key", key ∷ [])
      ∷ (token_key, cfg.token ∷ [])
      ∷ (container_key, cfg.container_id ∷ [])
      ∷ (service_key, cfg.service_name ∷ [])
      ∷ []

  sent-received : sent ≡ received
  unfolding read_header handshake_header tunnel_headers add_kept add_values lookup insert
  sent-received =
      rw
        (
          keys.upgrade, keys.connection, keys.version, keys.key, keys.token, keys.container,
          keys.service,
        )
        refl

  sent-upgrade : is_websocket_upgrade u canonical sent ≡ true
  unfolding is_websocket_upgrade get lookup to_lower equal_fold contains has_prefix after_prefix
  sent-upgrade = rw (sent-received, keys.connection, keys.upgrade) refl

  sent-key : get u canonical sent "Sec-WebSocket-Key" ≡ key
  unfolding get lookup
  sent-key = rw (sent-received, keys.key) refl

  answered-accept :
      (accept : String)
      → get u canonical (read_header u canonical (accept_header accept)) "Sec-WebSocket-Accept"
        ≡ accept
  unfolding read_header accept_header add_kept add_values get lookup insert
  answered-accept accept = rw (keys.upgrade, keys.connection, keys.accept) refl

  -- Accept answers the handshake of Dial, with a response that Dial takes, where the key and the digest
  -- are not empty.
  check_handshake-accept_lines :
      (sha1_base64 : String → String)
      → key ≢ ""
      → websocket_accept sha1_base64 key ≢ ""
      → (accept_lines u canonical sha1_base64 sent
          ≡ ok (
              switching_line
                ∷ header_lines (λ k. false) (accept_header (websocket_accept sha1_base64 key))
              ++ "" ∷ []))
        × (check_handshake u canonical sha1_base64 101 "101 Switching Protocols"
              (read_header u canonical (accept_header (websocket_accept sha1_base64 key)))
            ≡ ok tt)
  unfolding accept_lines check_handshake
  check_handshake-accept_lines sha1_base64 some_key some_digest = (
    rw (sent-upgrade, sent-key, ==-false key "" some_key) refl,
    rw (answered-accept _, ==-false _ "" some_digest) refl,
  )
