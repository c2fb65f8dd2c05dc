-- ===== src/Tunnel/Stream.antt =====
-- internal/tunnel/tunnel.go: the messages that open and answer a tunnelled request. What is still to be
-- read from a tunnel is its frames and the error behind them. A status is not negative.
use Prim.Native.String.{◌++◌}
use traefik_connect.Common.{ℕ, String, ◌==◌, if◌then◌else◌, Result, ok, err, ◌>>=◌, eqb, itoa, pos}
use traefik_connect.Websocket.{Bytes, Frame, op_text}
use traefik_connect.Tunnel.Headers.{Header}
use traefik_connect.Tunnel.Request.{RequestStart}
use traefik_connect.Tunnel.Pumps.{Sink, text}

pub record ResponseStart : Type 0 where
  pub status : ℕ
  pub header : Header

-- json.Marshal and json.Unmarshal of the two messages, each with its type, and fmt's %q.
pub record Codec : Type 0 where
  pub encode_request : String → RequestStart → Result Bytes
  pub decode_request : Bytes → Result (String × RequestStart)
  pub encode_response : String → ResponseStart → Result Bytes
  pub decode_response : Bytes → Result (String × ResponseStart)
  pub quote : String → String

abbrev pub request_start : String
request_start = "request_start"

abbrev pub response_start : String
response_start = "response_start"

-- The first part of readJSON, for the frame that was read.
unfoldable pub text_payload : Frame → Result Bytes
text_payload f =
    if eqb f.opcode op_text then ok f.payload else err ("unexpected opcode " ++ itoa (pos f.opcode))

abbrev expect : {M : Type 0} → (String → String) → String → String × M → Result M
expect quote type (found, msg) =
    if found == type then ok msg else err ("unexpected message " ++ quote found)

module _ (codec : Codec) where
  -- ReadRequestStart and ReadResponseStart, for the frame that was read
  pub read_request_start : Frame → Result RequestStart
  read_request_start f =
      text_payload f >>= codec.decode_request >>= expect codec.quote request_start

  unfoldable pub read_response_start : Frame → Result ResponseStart
  read_response_start f =
      text_payload f >>= codec.decode_response >>= expect codec.quote response_start

  -- writeJSON
  abbrev pub write_json : {S : Type 0} → Sink Frame S → Result Bytes → S → Result (Unit {0}) × S
  write_json tunnel (err e) s = (err e, s)
  write_json tunnel (ok raw) s = tunnel.write (text raw) s

  pub write_request_start : {S : Type 0} → Sink Frame S → RequestStart → S → Result (Unit {0}) × S
  write_request_start tunnel msg s = write_json tunnel (codec.encode_request request_start msg) s

  unfoldable pub write_response_start :
      {S : Type 0} → Sink Frame S → ResponseStart → S → Result (Unit {0}) × S
  write_response_start tunnel msg s = write_json tunnel (codec.encode_response response_start msg) s
