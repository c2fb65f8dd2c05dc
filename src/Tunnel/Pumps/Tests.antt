-- ===== src/Tunnel/Pumps/Tests.antt =====
-- A body of three reads, one of them empty.
use traefik_connect.Common.{◌≡◌, List, [], ◌∷◌, true, err}
use traefik_connect.Websocket.{Bytes}
use traefik_connect.Tunnel.Pumps.{eof, pump_body, pump_request_body}
use traefik_connect.Tunnel.Pumps.Laws.{
  frame_buffer, byte_buffer, delivered, pump_request_body-pump_body,
}

abbrev reads : List Bytes
reads = (72 ∷ []) ∷ [] ∷ (105 ∷ 33 ∷ []) ∷ []

pump_request_body-pump_body_example :
    pump_request_body byte_buffer true
      (pump_body frame_buffer (123 ∷ 125 ∷ []) reads eof []).1
      "reset"
      []
    ≡ (err "reset", delivered true reads)
pump_request_body-pump_body_example =
    pump_request_body-pump_body true (123 ∷ 125 ∷ []) reads "reset"
