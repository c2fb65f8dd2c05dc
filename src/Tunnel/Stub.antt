-- ===== src/Tunnel/Stub.antt =====
-- internal/stub/server.go: handle, handleHTTP, handleUpgrade and handleUpgradedResponse, over the
-- frames that come from the tunnel. The goroutine that sends the request's body is one step, before the
-- response is read; of the two loops of relayUpgrade, it is the one that reads the tunnel.
pub mod Laws
pub mod Tests
use Prim.Native.String.{◌++◌}
use traefik_connect.Common.{
  ℕ, String, Bool, true, false, not, ◌&&◌, ◌||◌, List, [], ◌∷◌, ◌==◌, if◌then◌else◌, Result, ok,
  err, eqb, ltb, leb, itoa, pos, ℤ, Unicode,
}
use traefik_connect.Config.{StubConfig}
use traefik_connect.Websocket.{Bytes, Frame}
use traefik_connect.Tunnel.Headers.{
  Header, sanitize_headers, copy_headers, is_hop_by_hop, is_websocket_upgrade,
}
use traefik_connect.Tunnel.Request.{RequestStart, header_lines}
use traefik_connect.Tunnel.Pumps.{Sink, eof, text, and_then, pump_body, copy_tunnel_body}
use traefik_connect.Tunnel.Stream.{
  Codec, ResponseStart, read_response_start, write_request_start, write_json,
}

-- What a handler has of http.Request, with the reads of the body.
pub record ClientRequest : Type 0 where
  pub method : String
  pub path : String
  pub raw_query : String
  pub host : String
  pub header : Header
  pub content_length : ℤ
  pub chunks : List Bytes
  pub ending : String

-- The http.ResponseWriter of the client, w.WriteHeader with w.Header as it then is, http.Error, the
-- Hijacker, and the writes to the hijacked connection with the flush of its buffer.
pub record Client (S : Type 0) : Type 0 where
  pub body : Sink Bytes S
  pub write_header : ℕ → Header → S → S
  pub http_error : String → ℕ → S → S
  pub hijack : S → Result (Unit {0}) × S
  pub conn : Sink Bytes S

-- http.CanonicalHeaderKey, http.StatusText, the bytes of a text, the bytes of the JSON of
-- WriteRequestEnd, and tunnel.Dial with the frames that are sent on the tunnel.
pub record StubSettings (S : Type 0) : Type 0 where
  pub cfg : StubConfig
  pub unicode : Unicode
  pub canonical : String → String
  pub status_text : ℕ → String
  pub bytes : String → Bytes
  pub codec : Codec
  pub request_end : Bytes
  pub dial : Header → S → Result (Unit {0}) × S
  pub tunnel : Sink Frame S

abbrev pub token_key : String
token_key = "X-Traefik-Connect-Token"

abbrev pub container_key : String
container_key = "X-Traefik-Connect-Container-Id"

abbrev pub service_key : String
service_key = "X-Traefik-Connect-Service-Name"

abbrev pub internal_keys : List String
internal_keys = token_key ∷ container_key ∷ service_key ∷ []

-- tunnelHeaders; the three keys are canonical.
unfoldable pub tunnel_headers : StubConfig → Header
tunnel_headers cfg =
    (token_key, cfg.token ∷ [])
    ∷ (container_key, cfg.container_id ∷ [])
    ∷ (service_key, cfg.service_name ∷ [])
    ∷ []

-- 100 <= status && status < 200
abbrev pub is_informational : ℕ → Bool
is_informational status = leb 100 status && ltb status 200

pub head_text : List String → String
head_text [] = "\r\n"
head_text (line ∷ lines) = line ++ ("\r\n" ++ head_text lines)

module _ {S : Type 0} (settings : StubSettings S) (client : Client S) where
  -- copyHeadersToWriter, behind a status line and before an empty line
  pub head_bytes : String → Header → Bool → Bytes
  head_bytes status_line header upgrade = settings.bytes (
      head_text (
        status_line
        ∷ header_lines (λ k. not upgrade && is_hop_by_hop settings.unicode settings.canonical k)
            header))

  abbrev pub switching : String
  switching = "HTTP/1.1 101 Switching Protocols"

  -- The 101 response, and relayUpgrade.
  pub relay_upgraded : ResponseStart → List Frame → String → S → Result (Unit {0}) × S
  relay_upgraded start frames ending s =
      and_then (client.conn.write (head_bytes switching start.header true) s)
        (copy_tunnel_body client.conn frames ending)

  -- handleUpgradedResponse
  pub handle_upgraded_response : ResponseStart → List Frame → String → S → Result (Unit {0}) × S
  handle_upgraded_response start frames ending s =
      and_then (client.hijack s) (relay_upgraded start frames ending)

  -- The header of a response is written to the client.
  abbrev pub pass_header : ResponseStart → S → S
  pass_header start s =
      client.write_header start.status
        (copy_headers settings.unicode settings.canonical start.header false) s

  -- The last part of handleHTTP, once the response is not informational; `sent` is what comes of the
  -- request's body.
  unfoldable pub pass_response :
      Result (Unit {0}) → ResponseStart → List Frame → String → S → Result (Unit {0}) × S
  pass_response sent start frames ending s =
      and_then (copy_tunnel_body client.body frames ending (pass_header start s)) (λ s. (sent, s))

  abbrev pub on_start :
      Result (Unit {0})
      → List Frame
      → String
      → S
      → (S → Result (Unit {0}) × S)
      → Result ResponseStart
      → Result (Unit {0}) × S
  on_start sent frames ending s go_on (err e) = (err e, s)
  on_start sent frames ending s go_on (ok start) =
      let next = go_on (pass_header start s) in
      let upgraded = handle_upgraded_response start frames ending s in
      let passed = pass_response sent start frames ending s in
      if is_informational start.status
      then (if eqb start.status 101 then upgraded else next)
      else passed

  -- The loop of handleHTTP that reads the starts of responses.
  unfoldable pub read_responses :
      Result (Unit {0}) → List Frame → String → S → Result (Unit {0}) × S
  read_responses sent [] ending s = (err ending, s)
  read_responses sent (f ∷ frames) ending s =
      on_start sent frames ending s (read_responses sent frames ending)
        (read_response_start settings.codec f)

  pub start_of : ClientRequest → Bool → RequestStart
  start_of r upgrade = record {
    method = r.method;
    path = r.path;
    raw_query = r.raw_query;
    host = r.host;
    header = sanitize_headers settings.unicode settings.canonical internal_keys r.header upgrade;
    content_length = r.content_length;
  }

  abbrev pub pump_request : ClientRequest → S → Result (Unit {0}) × S
  pump_request r s = pump_body settings.tunnel settings.request_end r.chunks r.ending s

  pub handle_http : ClientRequest → List Frame → String → S → Result (Unit {0}) × S
  handle_http r frames ending s = and_then (settings.dial (tunnel_headers settings.cfg) s) (λ s.
      and_then (write_request_start settings.codec settings.tunnel (start_of r false) s)
        (λ s. let (sent, s') = pump_request r s in read_responses sent frames ending s'))

  -- The part of handleUpgrade behind the response's start.
  abbrev pub on_upgrade_start :
      List Frame → String → S → Result ResponseStart → Result (Unit {0}) × S
  on_upgrade_start frames ending s (err e) = (err e, s)
  on_upgrade_start frames ending s (ok start) =
      let line =
        "HTTP/1.1 " ++ (itoa (pos start.status) ++ (" " ++ settings.status_text start.status)) in
      let refused =
        and_then (client.conn.write (head_bytes line start.header false) s)
          (copy_tunnel_body client.conn frames ending) in
      let upgraded = relay_upgraded start frames ending s in
      if eqb start.status 101 then upgraded else refused

  abbrev pub read_upgrade : List Frame → String → S → Result (Unit {0}) × S
  read_upgrade [] ending s = (err ending, s)
  read_upgrade (f ∷ frames) ending s =
      on_upgrade_start frames ending s (read_response_start settings.codec f)

  pub handle_upgrade : ClientRequest → List Frame → String → S → Result (Unit {0}) × S
  handle_upgrade r frames ending s = and_then (client.hijack s) (λ s.
      and_then (settings.dial (tunnel_headers settings.cfg) s) (λ s.
        and_then (write_request_start settings.codec settings.tunnel (start_of r true) s) (λ s.
          and_then (settings.tunnel.write (text settings.request_end) s)
            (read_upgrade frames ending))))

  -- What handle does with the error of handleHTTP.
  abbrev pub or_bad_gateway : Result (Unit {0}) × S → S
  or_bad_gateway (ok _, s) = s
  or_bad_gateway (err e, s) =
      if e == eof then s else client.http_error ("proxy request failed: " ++ e) 502 s

  pub handle : ClientRequest → List Frame → String → S → S
  handle r frames ending s =
      let upgraded = (handle_upgrade r frames ending s).1 in
      let proxied = or_bad_gateway (handle_http r frames ending s) in
      if r.path == "/healthz" || (r.path == "/readyz" || r.path == "/version")
      then s
      else if is_websocket_upgrade settings.unicode settings.canonical r.header
      then upgraded
      else proxied
