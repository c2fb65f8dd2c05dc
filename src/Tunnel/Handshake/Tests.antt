-- ===== src/Tunnel/Handshake/Tests.antt =====
-- A stub's handshake at a worker.
use traefik_connect.Common.{
  String, Bool, true, Char, code, eqb, if◌then◌else◌, List, ◌≡◌, refl, [], ◌∷◌,
}
use traefik_connect.Config.{StubConfig}
use traefik_connect.Websocket.{Frame}
use traefik_connect.Tunnel.Request.{header_lines}
use traefik_connect.Tunnel.Proxy.{ProxySettings}
use traefik_connect.Tunnel.Proxy.Tests.{proxy}
use traefik_connect.Tunnel.Handshake.{handshake_header, handshake_lines}

abbrev stub : StubConfig
stub = record {
  listen_addr = ":18181";
  target_url = "http://10.0.0.7:8090/tunnel";
  token = "secret";
  container_id = "c1";
  service_name = "web";
}

abbrev lower_letters : String
lower_letters = "abcdefghijklmnopqrstuvwxyz"

abbrev upper_letters : String
upper_letters = "ABCDEFGHIJKLMNOPQRSTUVWXYZ"

-- The character that stands in the second text where `c` stands in the first.
abbrev translate : String → String → Char → Char
translate (String.◌∷◌ a from) (String.◌∷◌ b to) c =
    if eqb (code a) (code c) then b else translate from to c
translate _ _ c = c

-- http.CanonicalHeaderKey of a valid key: a letter is a capital where the key or a part of it begins.
abbrev key_from : Bool → String → String
key_from begins String.[] = ""
key_from begins (String.◌∷◌ c s) =
    String.◌∷◌
      (if begins
        then translate lower_letters upper_letters c
        else translate upper_letters lower_letters c)
      (key_from (eqb (code c) b'-') s)

abbrev http_key : String → String
http_key = key_from true

said :
    handshake_lines "/tunnel" "w:8090" "k" (("A", "x" ∷ []) ∷ [])
    ≡ "GET /tunnel HTTP/1.1" ∷ "Host: w:8090" ∷ "Upgrade: websocket" ∷ "Connection: Upgrade"
      ∷ "Sec-WebSocket-Version: 13" ∷ "Sec-WebSocket-Key: k" ∷ "A: x" ∷ "" ∷ []
unfolding handshake_lines handshake_header header_lines
said = refl

abbrev worker : ProxySettings String (List Frame)
worker = record proxy { canonical = http_key }
