-- ===== src/Tunnel/Pumps.antt =====
-- The loops that move bodies through a tunnel: pumpBody, copyTunnelBodyToWriter and
-- copyTunnelBodyToConn of internal/stub/server.go, and pumpTunnelRequestBodyToConn, writeHTTPChunk
-- and copyResponseToTunnel of internal/worker/proxy.go; and the two loops of relayUpgrade and of
-- relayTunnelAndConn, each until it ends by itself.
pub mod Laws
pub mod Tests
use traefik_connect.Common.{
  ℕ, zero, suc, ◌+◌, ◌/◌, ◌%◌, String, Bool, List, [], ◌∷◌, ◌++◌, if◌then◌else◌, eqb, ltb, ◌==◌,
  is_empty, length, Result, ok, err,
}
use traefik_connect.Websocket.{Bytes, Frame, op_text, op_binary, op_close}

-- What is written to: a connection of the tunnel takes frames, another connection takes bytes.
pub record Sink (A S : Type 0) : Type 0 where
  pub write : A → S → Result (Unit {0}) × S

abbrev pub eof : String
eof = "EOF"

abbrev pub text : Bytes → Frame
text payload = record { opcode = op_text; payload = payload }

abbrev pub binary : Bytes → Frame
binary payload = record { opcode = op_binary; payload = payload }

abbrev pub close : Frame
close = record { opcode = op_close; payload = [] }

-- What follows a write that worked; its error ends the loop.
abbrev pub and_then :
    {S : Type 0} → Result (Unit {0}) × S → (S → Result (Unit {0}) × S) → Result (Unit {0}) × S
and_then (err e, s) next = (err e, s)
and_then (ok _, s) next = next s

digit_code : ℕ → ℕ
digit_code d = if ltb d 10 then 48 + d else 87 + d

-- The hexadecimal digits of `n` before `rest`; a fuel of `n` is enough, since `n / 16 < n`.
hex_before : ℕ → ℕ → Bytes → Bytes
hex_before zero n rest = digit_code n ∷ rest
hex_before (suc fuel) n rest =
    let more = hex_before fuel (n / 16) (digit_code (n % 16) ∷ rest) in
    if ltb n 16 then digit_code n ∷ rest else more

-- fmt's %x
pub hex : ℕ → Bytes
hex n = hex_before n n []

abbrev pub crlf : Bytes
crlf = 13 ∷ 10 ∷ []

-- "0\r\n\r\n"
abbrev pub last_chunk : Bytes
last_chunk = 48 ∷ 13 ∷ 10 ∷ 13 ∷ 10 ∷ []

module _ {S : Type 0} (tunnel : Sink Frame S) where
  -- pumpBody: the body's reads as binary frames, and the message of WriteRequestEnd, whose JSON is
  -- `end_json`, at the end of the body.
  pub pump_body : Bytes → List Bytes → String → S → Result (Unit {0}) × S
  pump_body end_json [] ending s =
      if ending == eof then tunnel.write (text end_json) s else (err ending, s)
  pump_body end_json (chunk ∷ chunks) ending s =
      let skipped = pump_body end_json chunks ending s in
      let sent = and_then (tunnel.write (binary chunk) s) (pump_body end_json chunks ending) in
      if is_empty chunk then skipped else sent

  -- copyResponseToTunnel
  pub copy_response : List Bytes → String → S → Result (Unit {0}) × S
  copy_response [] ending s = if ending == eof then (ok tt, s) else (err ending, s)
  copy_response (chunk ∷ chunks) ending s =
      let skipped = copy_response chunks ending s in
      let sent = and_then (tunnel.write (binary chunk) s) (copy_response chunks ending) in
      if is_empty chunk then skipped else sent

  -- The loop of relayUpgrade and of relayTunnelAndConn that reads the connection and writes to the
  -- tunnel.
  pub relay_to_tunnel : List Bytes → String → S → Result (Unit {0}) × S
  relay_to_tunnel [] ending s = (err ending, s)
  relay_to_tunnel (chunk ∷ chunks) ending s =
      let skipped = relay_to_tunnel chunks ending s in
      let sent = and_then (tunnel.write (binary chunk) s) (relay_to_tunnel chunks ending) in
      if is_empty chunk then skipped else sent

module _ {S : Type 0} (conn : Sink Bytes S) where
  -- writeHTTPChunk
  pub write_http_chunk : Bytes → S → Result (Unit {0}) × S
  write_http_chunk [] s = (ok tt, s)
  write_http_chunk (b ∷ bs) s =
      and_then (conn.write (hex (length (b ∷ bs)) ++ crlf) s)
        (λ s. and_then (conn.write (b ∷ bs) s) (conn.write crlf))

  -- copyTunnelBodyToWriter, which also flushes, copyTunnelBodyToConn, and the loops of relayUpgrade and
  -- of relayTunnelAndConn that read the tunnel
  unfoldable pub copy_tunnel_body : List Frame → String → S → Result (Unit {0}) × S
  copy_tunnel_body [] ending s = (err ending, s)
  copy_tunnel_body (f ∷ frames) ending s =
      let next = copy_tunnel_body frames ending s in
      let written = and_then (conn.write f.payload s) (copy_tunnel_body frames ending) in
      if eqb f.opcode op_binary
      then (if is_empty f.payload then next else written)
      else if eqb f.opcode op_close
      then (err eof, s)
      else next

  -- pumpTunnelRequestBodyToConn
  pub pump_request_body : Bool → List Frame → String → S → Result (Unit {0}) × S
  pump_request_body chunked [] ending s = (err ending, s)
  pump_request_body chunked (f ∷ frames) ending s =
      let next = pump_request_body chunked frames ending s in
      let chunk =
        and_then (write_http_chunk f.payload s) (pump_request_body chunked frames ending) in
      let plain = and_then (conn.write f.payload s) (pump_request_body chunked frames ending) in
      let finished = conn.write last_chunk s in
      if eqb f.opcode op_binary
      then (if is_empty f.payload then next else if chunked then chunk else plain)
      else if eqb f.opcode op_close
      then (if chunked then finished else (ok tt, s))
      else next
