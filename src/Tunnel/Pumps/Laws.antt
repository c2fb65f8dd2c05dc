-- ===== src/Tunnel/Pumps/Laws.antt =====
-- What comes out at the far end of a tunnel.
use traefik_connect.Common.{
  ℕ, String, ◌≡◌, refl, ap, ◌∙◌, Bool, true, false, List, [], ◌∷◌, ◌++◌, append-nil, append_assoc,
  length, ok, err,
}
use traefik_connect.Websocket.{Bytes, Frame}
use traefik_connect.Tunnel.Pumps.{
  relay_to_tunnel, Sink, eof, text, binary, close, hex, crlf, last_chunk, pump_body, copy_response,
  write_http_chunk, copy_tunnel_body, pump_request_body,
}

-- A connection that takes all that is written to it.
abbrev pub frame_buffer : Sink Frame (List Frame)
frame_buffer = record { write = λ f s. (ok tt, s ++ f ∷ []) }

abbrev pub byte_buffer : Sink Bytes Bytes
byte_buffer = record { write = λ bs s. (ok tt, s ++ bs) }

abbrev pub concat : List Bytes → Bytes
concat [] = []
concat (c ∷ cs) = c ++ concat cs

-- The frames that carry a body: one for each read that is not empty.
unfoldable pub data_frames : List Bytes → List Frame
data_frames [] = []
data_frames ([] ∷ cs) = data_frames cs
data_frames ((b ∷ bs) ∷ cs) = binary (b ∷ bs) ∷ data_frames cs

abbrev pub encode_chunk : Bytes → Bytes
encode_chunk [] = []
encode_chunk (b ∷ bs) = (hex (length (b ∷ bs)) ++ crlf) ++ ((b ∷ bs) ++ crlf)

-- The body in HTTP's chunked coding, without its end.
abbrev pub encode_chunks : List Bytes → Bytes
encode_chunks [] = []
encode_chunks (c ∷ cs) = encode_chunk c ++ encode_chunks cs

pub copy_response_lem :
    (cs : List Bytes) (s : List Frame)
    → copy_response frame_buffer cs eof s ≡ (ok tt, s ++ data_frames cs)
unfolding copy_response data_frames
copy_response_lem [] s = rw (append-nil s) refl
copy_response_lem ([] ∷ cs) s = copy_response_lem cs s
copy_response_lem ((b ∷ bs) ∷ cs) s =
    copy_response_lem cs (s ++ binary (b ∷ bs) ∷ [])
    ∙ ap (λ r. (ok tt, r)) (append_assoc s (binary (b ∷ bs) ∷ []) (data_frames cs))

copy_tunnel_body_lem :
    (cs : List Bytes) (rest : List Frame) (ending : String) (s : Bytes)
    → copy_tunnel_body byte_buffer (data_frames cs ++ close ∷ rest) ending s
      ≡ (err eof, s ++ concat cs)
unfolding copy_tunnel_body data_frames
copy_tunnel_body_lem [] rest ending s = rw (append-nil s) refl
copy_tunnel_body_lem ([] ∷ cs) rest ending s = copy_tunnel_body_lem cs rest ending s
copy_tunnel_body_lem ((b ∷ bs) ∷ cs) rest ending s =
    copy_tunnel_body_lem cs rest ending (s ++ b ∷ bs)
    ∙ ap (λ r. (err eof, r)) (append_assoc s (b ∷ bs) (concat cs))

-- A response body that the worker's proxy reads from the backend to its end and sends, with the
-- close message behind it, is written by the stub as it was read, and the stub stops there, whatever
-- frames come later.
copy_tunnel_body-copy_response :
    (cs : List Bytes) (rest : List Frame) (ending : String)
    → copy_tunnel_body byte_buffer
        ((copy_response frame_buffer cs eof []).1 ++ close ∷ rest)
        ending
        []
      ≡ (err eof, concat cs)
copy_tunnel_body-copy_response cs rest ending =
    rw (copy_response_lem cs []) (copy_tunnel_body_lem cs rest ending [])

relay_to_tunnel_lem :
    (cs : List Bytes) (ending : String) (s : List Frame)
    → relay_to_tunnel frame_buffer cs ending s ≡ (err ending, s ++ data_frames cs)
unfolding relay_to_tunnel data_frames
relay_to_tunnel_lem [] ending s = rw (append-nil s) refl
relay_to_tunnel_lem ([] ∷ cs) ending s = relay_to_tunnel_lem cs ending s
relay_to_tunnel_lem ((b ∷ bs) ∷ cs) ending s =
    relay_to_tunnel_lem cs ending (s ++ binary (b ∷ bs) ∷ [])
    ∙ ap (λ r. (err ending, r)) (append_assoc s (binary (b ∷ bs) ∷ []) (data_frames cs))

copy_to_end_lem :
    (cs : List Bytes) (ending : String) (s : Bytes)
    → copy_tunnel_body byte_buffer (data_frames cs) ending s ≡ (err ending, s ++ concat cs)
unfolding copy_tunnel_body data_frames
copy_to_end_lem [] ending s = rw (append-nil s) refl
copy_to_end_lem ([] ∷ cs) ending s = copy_to_end_lem cs ending s
copy_to_end_lem ((b ∷ bs) ∷ cs) ending s =
    copy_to_end_lem cs ending (s ++ b ∷ bs)
    ∙ ap (λ r. (err ending, r)) (append_assoc s (b ∷ bs) (concat cs))

-- On an upgraded connection the bytes that one side's relay reads are written by the other side's in
-- their order, up to the end of the tunnel, however they were cut into reads.
copy_tunnel_body-relay_to_tunnel :
    (cs : List Bytes) (closed ending : String)
    → copy_tunnel_body byte_buffer (relay_to_tunnel frame_buffer cs closed []).1 ending []
      ≡ (err ending, concat cs)
copy_tunnel_body-relay_to_tunnel cs closed ending =
    rw (relay_to_tunnel_lem cs closed []) (copy_to_end_lem cs ending [])

pump_body_lem :
    (json : Bytes) (cs : List Bytes) (s : List Frame)
    → pump_body frame_buffer json cs eof s ≡ (ok tt, s ++ (data_frames cs ++ text json ∷ []))
unfolding pump_body data_frames
pump_body_lem json [] s = refl
pump_body_lem json ([] ∷ cs) s = pump_body_lem json cs s
pump_body_lem json ((b ∷ bs) ∷ cs) s =
    pump_body_lem json cs (s ++ binary (b ∷ bs) ∷ [])
    ∙ ap (λ r. (ok tt, r))
        (append_assoc s (binary (b ∷ bs) ∷ []) (data_frames cs ++ text json ∷ []))

-- What a pump makes of the reads of a body.
abbrev pub delivered : Bool → List Bytes → Bytes
delivered true cs = encode_chunks cs
delivered false cs = concat cs

pump_plain_lem :
    (cs : List Bytes) (rest : List Frame) (ending : String) (s : Bytes)
    → pump_request_body byte_buffer false (data_frames cs ++ rest) ending s
      ≡ pump_request_body byte_buffer false rest ending (s ++ concat cs)
unfolding pump_request_body data_frames
pump_plain_lem [] rest ending s = rw (append-nil s) refl
pump_plain_lem ([] ∷ cs) rest ending s = pump_plain_lem cs rest ending s
pump_plain_lem ((b ∷ bs) ∷ cs) rest ending s =
    pump_plain_lem cs rest ending (s ++ b ∷ bs)
    ∙ ap (λ r. pump_request_body byte_buffer false rest ending r)
        (append_assoc s (b ∷ bs) (concat cs))

write_http_chunk_lem :
    (b : ℕ) (bs s : Bytes)
    → write_http_chunk byte_buffer (b ∷ bs) s ≡ (ok tt, s ++ encode_chunk (b ∷ bs))
unfolding write_http_chunk
write_http_chunk_lem b bs s =
    ap (λ r. (ok tt, r))
      (append_assoc (s ++ (hex (length (b ∷ bs)) ++ crlf)) (b ∷ bs) crlf
        ∙ append_assoc s (hex (length (b ∷ bs)) ++ crlf) ((b ∷ bs) ++ crlf))

pump_chunked_lem :
    (cs : List Bytes) (rest : List Frame) (ending : String) (s : Bytes)
    → pump_request_body byte_buffer true (data_frames cs ++ rest) ending s
      ≡ pump_request_body byte_buffer true rest ending (s ++ encode_chunks cs)
unfolding pump_request_body data_frames
pump_chunked_lem [] rest ending s = rw (append-nil s) refl
pump_chunked_lem ([] ∷ cs) rest ending s = pump_chunked_lem cs rest ending s
pump_chunked_lem ((b ∷ bs) ∷ cs) rest ending s = rw (write_http_chunk_lem b bs s) (
    pump_chunked_lem cs rest ending (s ++ encode_chunk (b ∷ bs))
    ∙ ap (λ r. pump_request_body byte_buffer true rest ending r)
        (append_assoc s (encode_chunk (b ∷ bs)) (encode_chunks cs)))

pump_lem :
    (chunked : Bool) (cs : List Bytes) (rest : List Frame) (ending : String)
    → pump_request_body byte_buffer chunked (data_frames cs ++ rest) ending []
      ≡ pump_request_body byte_buffer chunked rest ending (delivered chunked cs)
pump_lem true cs rest ending = pump_chunked_lem cs rest ending []
pump_lem false cs rest ending = pump_plain_lem cs rest ending []

text_ignored :
    (chunked : Bool) (json : Bytes) (ending : String) (s : Bytes)
    → pump_request_body byte_buffer chunked (text json ∷ []) ending s ≡ (err ending, s)
unfolding pump_request_body
text_ignored chunked json ending s = refl

-- A request body that the stub reads to its end and sends reaches the backend in full, in chunks if
-- it is chunked; but the message with which the stub ends the body is passed over: the worker's loop
-- goes on reading, writes no last chunk, and ends with the error that ends the connection.
pub pump_request_body-pump_body :
    (chunked : Bool) (json : Bytes) (cs : List Bytes) (ending : String)
    → pump_request_body byte_buffer chunked (pump_body frame_buffer json cs eof []).1 ending []
      ≡ (err ending, delivered chunked cs)
pump_request_body-pump_body chunked json cs ending = rw (pump_body_lem json cs []) (
    pump_lem chunked cs (text json ∷ []) ending
    ∙ text_ignored chunked json ending (delivered chunked cs))

abbrev pub ended : Bool → Bytes → Bytes
ended true bs = bs ++ last_chunk
ended false bs = bs

close_ends :
    (chunked : Bool) (rest : List Frame) (ending : String) (s : Bytes)
    → pump_request_body byte_buffer chunked (close ∷ rest) ending s ≡ (ok tt, ended chunked s)
unfolding pump_request_body
close_ends true rest ending s = refl
close_ends false rest ending s = refl

-- Had the same frames been followed by a close message, the worker's loop would end there without an
-- error, with the last chunk written where the body is chunked, whatever frames come later.
pump_request_body-close :
    (chunked : Bool) (cs : List Bytes) (rest : List Frame) (ending : String)
    → pump_request_body byte_buffer chunked
        ((copy_response frame_buffer cs eof []).1 ++ close ∷ rest)
        ending
        []
      ≡ (ok tt, ended chunked (delivered chunked cs))
pump_request_body-close chunked cs rest ending = rw (copy_response_lem cs []) (
    pump_lem chunked cs (close ∷ rest) ending
    ∙ close_ends chunked rest ending (delivered chunked cs))
