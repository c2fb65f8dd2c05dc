-- ===== src/Tunnel/Stub/Laws.antt =====
-- internal/stub/server.go: how handleHTTP ends.
use traefik_connect.Common.{
  String, true, false, List, [], ◌∷◌, Result, ok, err, eqb, is_empty, Bool-cases, inl, inr,
}
use traefik_connect.Websocket.{Bytes, Frame, op_binary, op_close}
use traefik_connect.Tunnel.Pumps.{Sink, and_then, copy_tunnel_body}
use traefik_connect.Tunnel.Stream.{ResponseStart, read_response_start, write_request_start}
use traefik_connect.Tunnel.Stub.{
  ClientRequest, Client, StubSettings, tunnel_headers, is_informational, relay_upgraded, head_bytes,
  switching, handle_upgraded_response, pass_header, pass_response, on_start, read_responses,
  start_of, pump_request, handle_http,
}

abbrev pub IsErr : Result (Unit {0}) → Type 0
IsErr (ok x) = ⊥
IsErr (err e) = Unit

and_then-IsErr :
    {S : Type 0} (p : Result (Unit {0}) × S) (next : S → Result (Unit {0}) × S)
    → ((s : S) → IsErr (next s).0)
    → IsErr (and_then p next).0
and_then-IsErr (err e, s) next h = tt
and_then-IsErr (ok x, s) next h = h s

copy_tunnel_body-IsErr :
    {S : Type 0} (conn : Sink Bytes S) (frames : List Frame) (ending : String) (s : S)
    → IsErr (copy_tunnel_body conn frames ending s).0
unfolding copy_tunnel_body
copy_tunnel_body-IsErr conn [] ending s = tt
copy_tunnel_body-IsErr conn (f ∷ frames) ending s = elim (Bool-cases (eqb f.opcode op_binary)) [
  | inl e ↦ elim (Bool-cases (is_empty f.payload)) [
    | inl k ↦ rw (e, k) (copy_tunnel_body-IsErr conn frames ending s)
    | inr k ↦
        rw (e, k)
          (and_then-IsErr (conn.write f.payload s) (copy_tunnel_body conn frames ending)
            (copy_tunnel_body-IsErr conn frames ending))
  ]
  | inr e ↦ elim (Bool-cases (eqb f.opcode op_close)) [
    | inl k ↦ rw (e, k) tt
    | inr k ↦ rw (e, k) (copy_tunnel_body-IsErr conn frames ending s)
  ]
]

module _ {S : Type 0} (settings : StubSettings S) (client : Client S)
    (sent : Result (Unit {0})) where
  handle_upgraded_response-IsErr :
      (start : ResponseStart) (frames : List Frame) (ending : String) (s : S)
      → IsErr (handle_upgraded_response settings client start frames ending s).0
  unfolding handle_upgraded_response relay_upgraded
  handle_upgraded_response-IsErr start frames ending s =
      and_then-IsErr (client.hijack s) (relay_upgraded settings client start frames ending) (λ s.
        and_then-IsErr
          (client.conn.write
            (head_bytes settings client (switching settings client) start.header true) s)
          (copy_tunnel_body client.conn frames ending)
          (copy_tunnel_body-IsErr client.conn frames ending))

  pass_response-IsErr :
      (start : ResponseStart) (frames : List Frame) (ending : String) (s : S)
      → IsErr (pass_response settings client sent start frames ending s).0
  unfolding pass_response
  pass_response-IsErr start frames ending s =
      failing (copy_tunnel_body client.body frames ending (pass_header settings client start s))
        (copy_tunnel_body-IsErr client.body frames ending (pass_header settings client start s))
    where
      failing : (p : Result (Unit {0}) × S) → IsErr p.0 → IsErr (and_then p (λ s. (sent, s))).0
      failing (ok x, s) h = elim h [ ]
      failing (err e, s) h = tt

  on_start-IsErr :
      (frames : List Frame) (ending : String) (s : S) (go_on : S → Result (Unit {0}) × S)
      (r : Result ResponseStart)
      → ((s : S) → IsErr (go_on s).0)
      → IsErr (on_start settings client sent frames ending s go_on r).0
  on_start-IsErr frames ending s go_on (err e) h = tt
  on_start-IsErr frames ending s go_on (ok start) h =
      elim (Bool-cases (is_informational start.status)) [
        | inr e ↦ rw e (pass_response-IsErr start frames ending s)
        | inl e ↦ elim (Bool-cases (eqb start.status 101)) [
          | inl k ↦ rw (e, k) (handle_upgraded_response-IsErr start frames ending s)
          | inr k ↦ rw (e, k) (h (pass_header settings client start s))
        ]
      ]

  read_responses-IsErr :
      (frames : List Frame) (ending : String) (s : S)
      → IsErr (read_responses settings client sent frames ending s).0
  unfolding read_responses
  read_responses-IsErr [] ending s = tt
  read_responses-IsErr (f ∷ frames) ending s =
      on_start-IsErr frames ending s (read_responses settings client sent frames ending)
        (read_response_start settings.codec f) (read_responses-IsErr frames ending)

-- handleHTTP returns an error whatever happens: the wait for the goroutine that sends the request's
-- body, which is its last statement, is never reached, not even behind a complete response.
pub handle_http-IsErr :
    {S : Type 0} (settings : StubSettings S) (client : Client S) (r : ClientRequest)
    (frames : List Frame) (ending : String) (s : S)
    → IsErr (handle_http settings client r frames ending s).0
unfolding handle_http
handle_http-IsErr settings client r frames ending s =
    and_then-IsErr (settings.dial (tunnel_headers settings.cfg) s) _ (λ s.
      and_then-IsErr
        (write_request_start settings.codec settings.tunnel (start_of settings client r false) s) _
        (λ s.
          let (sent, s') = pump_request settings client r s in
          read_responses-IsErr settings client sent frames ending s'))
