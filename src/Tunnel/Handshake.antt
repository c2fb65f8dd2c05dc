-- ===== src/Tunnel/Handshake.antt =====
-- internal/websocketx/websocketx.go: Dial, writeClientHandshake and Accept. The lines of a handshake have
-- their keys as the code spells them; net/http reads them under the canonical form of each key.
pub mod Laws
pub mod Tests
use Prim.Native.String.{◌++◌}
use mathlib.Core.List.{◌++◌ as append}
use traefik_connect.Common.{
  ℕ, String, Bool, true, false, not, ◌||◌, Option, none, some, List, [], ◌∷◌, ◌==◌, if◌then◌else◌,
  Result, ok, err, ◌>>=◌, contains, eqb, Unicode,
}
use traefik_connect.Tunnel.Headers.{Header, add_kept, get, is_websocket_upgrade}
use traefik_connect.Tunnel.Request.{header_lines}

-- u.Host, with the port of the scheme where it has none
pub dial_address : String → String → String
dial_address scheme host =
    if contains host ":"
    then host
    else if scheme == "https" || scheme == "wss"
    then host ++ ":443"
    else host ++ ":80"

-- The header lines of a handshake of Dial: its own, and those of the caller.
pub handshake_header : String → Header → Header
handshake_header key extra =
    ("Upgrade", "websocket" ∷ [])
    ∷ ("Connection", "Upgrade" ∷ [])
    ∷ ("Sec-WebSocket-Version", "13" ∷ [])
    ∷ ("Sec-WebSocket-Key", key ∷ [])
    ∷ extra

-- The lines that writeClientHandshake writes, the empty line last.
pub handshake_lines : String → String → String → Header → List String
handshake_lines uri host key extra =
    let path = if uri == "" then "/" else uri in
    let name = if host == "" then "localhost" else host in
    ("GET " ++ (path ++ " HTTP/1.1"))
    ∷ ("Host: " ++ name)
    ∷ append (header_lines (λ k. false) (handshake_header key extra)) ("" ∷ [])

-- Base64 of the SHA-1 of a text.
abbrev accept_salt : String
accept_salt = "258EAFA5-E914-47DA-95CA-C5AB0DC85B11"

-- websocketAccept
pub websocket_accept : (String → String) → String → String
websocket_accept sha1_base64 key = sha1_base64 (key ++ accept_salt)

-- The header lines of the response of Accept.
pub accept_header : String → Header
accept_header accept =
    ("Upgrade", "websocket" ∷ [])
    ∷ ("Connection", "Upgrade" ∷ [])
    ∷ ("Sec-WebSocket-Accept", accept ∷ [])
    ∷ []

abbrev pub switching_line : String
switching_line = "HTTP/1.1 101 Switching Protocols"

-- The header that net/http reads from header lines.
unfoldable pub read_header : Unicode → (String → String) → Header → Header
read_header u canonical lines = add_kept u canonical (λ k. false) lines []

module _ (u : Unicode) (canonical : String → String) (sha1_base64 : String → String) where
  -- The lines that Accept answers a request with, once the connection is hijacked, or its error.
  pub accept_lines : Header → Result (List String)
  accept_lines header =
      let key = get u canonical header "Sec-WebSocket-Key" in
      let accept = websocket_accept sha1_base64 key in
      if not (is_websocket_upgrade u canonical header)
      then err "upgrade required"
      else if key == ""
      then err "missing websocket key"
      else ok (switching_line ∷ append (header_lines (λ k. false) (accept_header accept)) ("" ∷ []))

  -- What Dial makes of the response to its handshake.
  pub check_handshake : ℕ → String → Header → Result (Unit {0})
  check_handshake status status_text header =
      if not (eqb status 101)
      then err ("websocket handshake failed: " ++ status_text)
      else if get u canonical header "Sec-WebSocket-Accept" == ""
      then err "websocket handshake missing accept header"
      else ok tt
