-- ===== src/Tunnel/Proxy.antt =====
-- internal/worker/proxy.go: handleTunnel, handleHTTPTunnel and handleWebSocketTunnel, over the frames
-- that come from the tunnel and the responses that the backend sends. The goroutine that passes the
-- request's body on is one step, before the first response is read; of the two loops of
-- relayTunnelAndConn, it is the one that reads the backend.
pub mod Laws
pub mod Tests
use Prim.Native.String.{◌++◌}
use traefik_connect.Common.{
  ℕ, String, Bool, true, false, not, ◌&&◌, ◌||◌, Option, none, some, List, [], ◌∷◌, ◌==◌,
  if◌then◌else◌, Result, ok, err, ◌>>=◌, eqb, ltb, leb, pos, negsuc, ℤ, Unicode,
}
use traefik_connect.Model.{ContainerSpec, ServiceSpec, Snapshot}
use traefik_connect.Websocket.{Bytes, Frame}
use traefik_connect.Worker.{lookup_service}
use traefik_connect.Tunnel.Headers.{Header, get, sanitize_response_headers, is_websocket_upgrade}
use traefik_connect.Tunnel.Request.{RequestStart, join_path, request_lines}
use traefik_connect.Tunnel.Pumps.{
  Sink, text, binary, close, and_then, copy_response, relay_to_tunnel, pump_request_body,
}
use traefik_connect.Tunnel.Stream.{Codec, ResponseStart, read_request_start, write_response_start}
use traefik_connect.Tunnel.Stub.{is_informational, token_key, container_key, service_key}

-- net/url
pub record Urls (U : Type 0) : Type 0 where
  pub parse : String → Result U
  pub path : U → String
  pub with_target : String → String → U → U
  pub print : U → String
  pub host : U → String

-- What http.ReadResponse yields, with the reads of the body.
pub record Response : Type 0 where
  pub status : ℕ
  pub header : Header
  pub chunks : List Bytes
  pub ending : String

-- What the backend sends: its responses, and the error behind them, or the reads of an upgraded
-- connection.
pub record Backend : Type 0 where
  pub responses : List Response
  pub ending : String
  pub reads : List Bytes

pub record ProxySettings (U S : Type 0) : Type 0 where
  pub urls : Urls U
  pub unicode : Unicode
  pub canonical : String → String
  pub bytes : String → Bytes
  pub codec : Codec
  pub token : String
  pub accept : S → Result (Unit {0}) × S
  pub tunnel : Sink Frame S
  pub dial : String → S → Result (Unit {0}) × S
  pub conn : Sink Bytes S

-- The lines of a request, each with its end.
pub request_text : List String → String
request_text [] = ""
request_text (line ∷ lines) = line ++ ("\r\n" ++ request_text lines)

abbrev pub is_set : Option Bool → Bool
is_set none = false
is_set (some b) = b

abbrev pub is_negative : ℤ → Bool
is_negative (pos n) = false
is_negative (negsuc n) = true

abbrev pub is_zero : ℤ → Bool
is_zero (pos n) = eqb n 0
is_zero (negsuc n) = false

-- What handleTunnel answers: an HTTP error, or what comes of the tunnel.
pub data Tunnelled (S : Type 0) : Type 0 where
  turned_down : ℕ → String → Tunnelled S
  served : Result (Unit {0}) → S → Tunnelled S

module _ {U S : Type 0} (settings : ProxySettings U S) where
  -- serviceURL, and url.Parse of its result
  pub target_of : ServiceSpec → RequestStart → Result U
  target_of service start = settings.urls.parse service.backend_url >>= (λ u. settings.urls.parse (
      settings.urls.print (
        settings.urls.with_target (join_path (settings.urls.path u) start.path) start.raw_query u)))

  -- writeHTTPRequest
  abbrev pub write_request :
      RequestStart → ServiceSpec → U → Bool → Bool → S → Result (Unit {0}) × S
  write_request start service u upgrade chunked = settings.conn.write (
      settings.bytes (
        request_text (
          request_lines settings.unicode settings.canonical start (settings.urls.host u)
            (is_set service.pass_host_header) upgrade chunked)))

  -- The connection to the backend, with the request written to it.
  abbrev pub connected :
      RequestStart → ServiceSpec → Bool → Bool → Result U → S → Result (Unit {0}) × S
  connected start service upgrade chunked (err e) s = (err e, s)
  connected start service upgrade chunked (ok u) s =
      let host = settings.urls.host u in
      let dialled =
        and_then (settings.dial host s) (write_request start service u upgrade chunked) in
      if host == "" then (err "backend url missing host", s) else dialled

  unfoldable pub send_start : Response → S → Result (Unit {0}) × S
  send_start r = write_response_start settings.codec settings.tunnel (record {
    status = r.status;
    header = sanitize_response_headers settings.unicode settings.canonical r.header;
  })

  -- The last part of handleHTTPTunnel; `sent` is what comes of the request's body.
  abbrev pub finish_response : Result (Unit {0}) → Response → S → Result (Unit {0}) × S
  finish_response sent r s =
      and_then (copy_response settings.tunnel r.chunks r.ending s)
        (λ s. and_then (settings.tunnel.write close s) (λ s. (sent, s)))

  -- The loop of handleHTTPTunnel that reads the responses.
  unfoldable pub send_responses :
      Result (Unit {0}) → List Response → String → S → Result (Unit {0}) × S
  send_responses sent [] ending s = (err ending, s)
  send_responses sent (r ∷ responses) ending s = and_then (send_start r s) (λ s.
      let more = send_responses sent responses ending s in
      let last = finish_response sent r s in if is_informational r.status then more else last)

  -- The request's body goes to the backend, unless it is known to be empty.
  abbrev pub pass_body : RequestStart → List Frame → String → S → Result (Unit {0}) × S
  pass_body start frames ending s =
      let passed =
        pump_request_body settings.conn (is_negative start.content_length) frames ending s in
      if is_zero start.content_length then (ok tt, s) else passed

  pub handle_http_tunnel :
      RequestStart → ServiceSpec → List Frame → String → Backend → S → Result (Unit {0}) × S
  handle_http_tunnel start service frames ending backend s =
      and_then
        (connected start service false (is_negative start.content_length) (target_of service start)
          s)
        (λ s.
          let (sent, s') = pass_body start frames ending s in
          send_responses sent backend.responses backend.ending s')

  abbrev pub answer_upgrade : Backend → List Response → S → Result (Unit {0}) × S
  answer_upgrade backend [] s = (err backend.ending, s)
  answer_upgrade backend (r ∷ responses) s = and_then (send_start r s) (λ s.
      let refused =
        and_then (copy_response settings.tunnel r.chunks r.ending s)
          (settings.tunnel.write close) in
      let relayed = relay_to_tunnel settings.tunnel backend.reads backend.ending s in
      if eqb r.status 101 then relayed else refused)

  pub handle_websocket_tunnel : RequestStart → ServiceSpec → Backend → S → Result (Unit {0}) × S
  handle_websocket_tunnel start service backend s =
      and_then (connected start service true false (target_of service start) s)
        (answer_upgrade backend backend.responses)

  -- The 404 response; the errors of its writes are not looked at.
  pub not_found : S → S
  not_found s =
      let (_, s₁) =
        write_response_start settings.codec settings.tunnel
          (record {
            status = 404;
            header = ("Content-Type", "text/plain; charset=utf-8" ∷ []) ∷ [];
          })
          s in
      let (_, s₂) = settings.tunnel.write (binary (settings.bytes "service not found\n")) s₁ in
      (settings.tunnel.write close s₂).1

  abbrev pub serve_service :
      RequestStart
      → List Frame
      → String
      → Backend
      → S
      → Option (ContainerSpec × ServiceSpec)
      → Result (Unit {0}) × S
  serve_service start frames ending backend s none = (ok tt, not_found s)
  serve_service start frames ending backend s (some (container, service)) =
      let upgraded = handle_websocket_tunnel start service backend s in
      let proxied = handle_http_tunnel start service frames ending backend s in
      if is_websocket_upgrade settings.unicode settings.canonical start.header
      then upgraded
      else proxied

  abbrev pub serve_start :
      Snapshot
      → String
      → String
      → List Frame
      → String
      → Backend
      → S
      → Result RequestStart
      → Result (Unit {0}) × S
  serve_start snap id name frames ending backend s (err e) = (err e, s)
  serve_start snap id name frames ending backend s (ok start) =
      serve_service start frames ending backend s (lookup_service snap id name)

  abbrev pub serve_frames :
      Snapshot → String → String → Backend → String → List Frame → S → Result (Unit {0}) × S
  serve_frames snap id name backend ending [] s = (err ending, s)
  serve_frames snap id name backend ending (f ∷ frames) s =
      serve_start snap id name frames ending backend s (read_request_start settings.codec f)

  abbrev pub as_served : Result (Unit {0}) × S → Tunnelled S
  as_served (r, s) = served r s

  -- handleTunnel, over the snapshot that the agent holds when it looks the service up
  unfoldable pub handle_tunnel : Snapshot → Header → List Frame → String → Backend → S → Tunnelled S
  handle_tunnel snap header frames ending backend s =
      let id = get settings.unicode settings.canonical header container_key in
      let name = get settings.unicode settings.canonical header service_key in
      let accepted =
        as_served
          (and_then (settings.accept s) (serve_frames snap id name backend ending frames)) in
      if not (is_websocket_upgrade settings.unicode settings.canonical header)
      then turned_down 426 "upgrade required"
      else if not (get settings.unicode settings.canonical header token_key == settings.token)
      then turned_down 401 "unauthorized"
      else if id == "" || name == ""
      then turned_down 400 "missing tunnel metadata"
      else accepted
