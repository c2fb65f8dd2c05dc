-- ===== src/Tunnel/Exchange.antt =====
-- internal/worker/proxy.go and internal/stub/server.go: a backend's responses at the client. The
-- worker's tunnel keeps what is written to it, and the client what it is sent.
pub mod Tests
use traefik_connect.Common.{
  ℕ, String, Bool, true, false, List, [], ◌∷◌, ◌++◌, map, append-nil, append_assoc, Result, ok, err,
  eqb, ◌≡◌, refl, ap, ◌∙◌, sym, All,
}
use traefik_connect.Websocket.{Bytes, Frame}
use traefik_connect.Tunnel.Headers.{Header, sanitize_response_headers, copy_headers}
use traefik_connect.Tunnel.Pumps.{
  Sink, eof, text, and_then, binary, close, copy_response, copy_tunnel_body,
}
use traefik_connect.Tunnel.Pumps.Laws.{frame_buffer, concat, data_frames, copy_response_lem}
use traefik_connect.Tunnel.Stream.{
  text_payload, ResponseStart, response_start, read_response_start, write_response_start,
}
use traefik_connect.Tunnel.Stub.{
  StubSettings, Client, is_informational, pass_response, read_responses,
}
use traefik_connect.Tunnel.Proxy.{
  ProxySettings, Response, finish_response, send_start, send_responses,
}

-- What a client has been sent: the headers of the responses, and the body.
pub record Seen : Type 0 where
  pub heads : List (ℕ × Header)
  pub body : Bytes

abbrev pub client : Client Seen
client = record {
  body = record { write = λ bs seen. (ok tt, record seen { body = seen.body ++ bs }) };
  write_header = λ status header seen. record seen { heads = seen.heads ++ (status, header) ∷ [] };
  http_error = λ text code seen. seen;
  hijack = λ seen. (err "hijacking unsupported", seen);
  conn = record { write = λ bs seen. (ok tt, seen) };
}

copy_tunnel_body-client :
    (cs : List Bytes) (rest : List Frame) (ending : String) (seen : Seen)
    → copy_tunnel_body client.body (data_frames cs ++ close ∷ rest) ending seen
      ≡ (err eof, record seen { body = seen.body ++ concat cs })
unfolding copy_tunnel_body data_frames
copy_tunnel_body-client [] rest ending seen = rw (append-nil seen.body) refl
copy_tunnel_body-client ([] ∷ cs) rest ending seen = copy_tunnel_body-client cs rest ending seen
copy_tunnel_body-client ((b ∷ bs) ∷ cs) rest ending seen =
    copy_tunnel_body-client cs rest ending (record seen { body = seen.body ++ b ∷ bs })
    ∙ ap (λ r. (err eof, record seen { body = r })) (append_assoc seen.body (b ∷ bs) (concat cs))

abbrev raw_of : Result Bytes → Bytes
raw_of (err e) = []
raw_of (ok raw) = raw

module _ {U : Type 0} (proxy : ProxySettings U (List Frame)) (stub : StubSettings Seen)
    (buffered : proxy.tunnel ≡ frame_buffer) (agreed : stub.codec ≡ proxy.codec) where
  -- The message that tells of a response.
  abbrev start_msg : Response → ResponseStart
  start_msg r = record {
    status = r.status;
    header = sanitize_response_headers proxy.unicode proxy.canonical r.header;
  }

  start_frame : Response → Frame
  start_frame r = text (raw_of (proxy.codec.encode_response response_start (start_msg r)))

  -- The message that tells of a response is encoded, and decoded as it was.
  abbrev pub IsCarried : Response → Type 0
  IsCarried r =
      (raw : Bytes) × (proxy.codec.encode_response response_start (start_msg r) ≡ ok raw)
      × (proxy.codec.decode_response raw ≡ ok (response_start, start_msg r))

  -- The frames of an exchange: interim responses, and the last one.
  reply_frames : List Response → Response → List Frame
  reply_frames [] r = start_frame r ∷ data_frames r.chunks ++ close ∷ []
  reply_frames (q ∷ qs) r = start_frame q ∷ reply_frames qs r

  -- The header of a response as the client gets it.
  abbrev pub passed : Response → ℕ × Header
  passed r = (
    r.status,
    copy_headers stub.unicode stub.canonical
        (sanitize_response_headers proxy.unicode proxy.canonical r.header) false,
  )

  -- Not the last response, and not one that switches protocols.
  abbrev pub IsInterim : Response → Type 0
  IsInterim r = (is_informational r.status ≡ true) × (eqb r.status 101 ≡ false) × IsCarried r

  send_start_lem :
      (r : Response) (s : List Frame)
      → IsCarried r
      → send_start proxy r s ≡ (ok tt, s ++ start_frame r ∷ [])
  unfolding send_start write_response_start start_frame
  send_start_lem r s (raw, e, _) = rw (e, buffered) refl

  start_frame_lem :
      (r : Response)
      → IsCarried r
      → read_response_start stub.codec (start_frame r) ≡ ok (start_msg r)
  unfolding read_response_start start_frame text_payload
  start_frame_lem r (raw, e, d) = rw (agreed, e, d) refl

  finish_response_lem :
      (sent : Result (Unit {0})) (r : Response) (s : List Frame)
      → r.ending ≡ eof
      → finish_response proxy sent r s ≡ (sent, s ++ (data_frames r.chunks ++ close ∷ []))
  finish_response_lem sent r s whole =
      rw (buffered, whole, copy_response_lem r.chunks s)
        (ap (λ t. (sent, t)) (append_assoc s (data_frames r.chunks) (close ∷ [])))

  send_responses_lem :
      (sent : Result (Unit {0})) (qs more : List Response) (r : Response) (ending : String)
      (s : List Frame)
      → All IsInterim qs
      → IsCarried r
      → is_informational r.status ≡ false
      → r.ending ≡ eof
      → send_responses proxy sent (qs ++ r ∷ more) ending s ≡ (sent, s ++ reply_frames qs r)
  unfolding send_responses reply_frames
  send_responses_lem sent [] more r ending s hs carried final whole =
      rw
        (
          send_start_lem r s carried,
          final,
          finish_response_lem sent r (s ++ start_frame r ∷ []) whole,
        )
        (ap (λ t. (sent, t)) (append_assoc s (start_frame r ∷ []) _))
  send_responses_lem sent (q ∷ qs) more r ending s ((h, _, c), hs) carried final whole =
      rw
        (
          send_start_lem q s c,
          h,
          send_responses_lem sent qs more r ending (s ++ start_frame q ∷ []) hs carried final whole,
        )
        (ap (λ t. (sent, t)) (append_assoc s (start_frame q ∷ []) (reply_frames qs r)))

  read_responses_lem :
      (sent : Result (Unit {0})) (qs : List Response) (r : Response) (ending : String) (seen : Seen)
      → All IsInterim qs
      → IsCarried r
      → is_informational r.status ≡ false
      → read_responses stub client sent (reply_frames qs r) ending seen ≡ (
        err eof,
        record {
          heads = seen.heads ++ map passed (qs ++ r ∷ []);
          body = seen.body ++ concat r.chunks;
        },
      )
  unfolding read_responses pass_response reply_frames
  read_responses_lem sent [] r ending seen hs carried final =
      rw (start_frame_lem r carried, final)
        (ap (λ t. and_then t (λ seen. (sent, seen)))
          (copy_tunnel_body-client r.chunks [] ending
            (record seen { heads = seen.heads ++ passed r ∷ [] })))
  read_responses_lem sent (q ∷ qs) r ending seen ((h, other, c), hs) carried final =
      rw (start_frame_lem q c, h, other)
        (read_responses_lem sent qs r ending (record seen { heads = seen.heads ++ passed q ∷ [] })
            hs carried final
          ∙ ap (λ hs. (err eof, record { heads = hs; body = seen.body ++ concat r.chunks }))
              (append_assoc seen.heads (passed q ∷ []) (map passed (qs ++ r ∷ []))))

  -- What a backend answers reaches the client: the status and the header, without its hop-by-hop keys,
  -- of every interim response but 101 and of the last response, and the whole body of the last
  -- response, in order and once, where the backend ends the body and no message fails to be encoded or
  -- written.
  pub read_responses-send_responses :
      (sent sent' : Result (Unit {0})) (qs more : List Response) (r : Response)
      (ending ending' : String)
      → All IsInterim qs
      → IsCarried r
      → is_informational r.status ≡ false
      → r.ending ≡ eof
      → read_responses stub client sent'
          (send_responses proxy sent (qs ++ r ∷ more) ending []).1
          ending'
          (record { heads = []; body = [] })
        ≡ (err eof, record { heads = map passed (qs ++ r ∷ []); body = concat r.chunks })
  read_responses-send_responses sent sent' qs more r ending ending' hs carried final whole =
      rw (send_responses_lem sent qs more r ending [] hs carried final whole)
        (read_responses_lem sent' qs r ending' (record { heads = []; body = [] }) hs carried final)
