-- ===== src/Tunnel/Headers/Tests.antt =====
-- The headers of a websocket handshake.
use traefik_connect.Common.{◌≡◌, refl, true, none, [], ◌∷◌, lookup, ap, inl, to_lower}
use traefik_connect.Names.Tests.{ascii}
use traefik_connect.Tunnel.Headers.{
  Header, is_hop_by_hop, is_internal, sanitize_headers, sanitize_response_headers,
}
use traefik_connect.Tunnel.Headers.Laws.{
  KeepsLetters, sanitize_response_headers-lookup, sanitize_headers-lookup,
}

abbrev handshake : Header
handshake =
    ("Connection", "Upgrade" ∷ [])
    ∷ ("Upgrade", "websocket" ∷ [])
    ∷ ("Sec-Websocket-Accept", "x" ∷ [])
    ∷ []

kept : KeepsLetters ascii (λ k. k)
kept a b e = ap (to_lower ascii) e

upgrade_hop : is_hop_by_hop ascii (λ k. k) "Upgrade" ≡ true
unfolding is_hop_by_hop to_lower
upgrade_hop = refl

sanitize_response_headers-lookup_example :
    lookup "Upgrade" (sanitize_response_headers ascii (λ k. k) handshake) ≡ none
sanitize_response_headers-lookup_example =
    sanitize_response_headers-lookup ascii (λ k. k) handshake "Upgrade" kept upgrade_hop

token_internal :
    is_internal ascii (λ k. k) ("X-Traefik-Connect-Token" ∷ []) "X-Traefik-Connect-Token" ≡ true
unfolding is_internal
token_internal = refl

sanitize_headers-lookup_example :
    lookup "X-Traefik-Connect-Token" (
      sanitize_headers ascii
        (λ k. k)
        ("X-Traefik-Connect-Token" ∷ [])
        (("X-Traefik-Connect-Token", "guess" ∷ []) ∷ handshake)
        true)
    ≡ none
sanitize_headers-lookup_example =
    sanitize_headers-lookup ascii (λ k. k) ("X-Traefik-Connect-Token" ∷ [])
      (("X-Traefik-Connect-Token", "guess" ∷ []) ∷ handshake) true "X-Traefik-Connect-Token" kept
      (inl token_internal)
