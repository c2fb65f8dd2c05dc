-- ===== src/Tunnel/Exchange/Tests.antt =====
-- An interim response, and a response with a body in two reads.
use traefik_connect.Common.{[], ◌∷◌, ◌≡◌, refl, ok, err}
use traefik_connect.Tunnel.Headers.{sanitize_response_headers, copy_headers, add_kept}
use traefik_connect.Tunnel.Pumps.{eof}
use traefik_connect.Tunnel.Stub.{read_responses}
use traefik_connect.Tunnel.Stub.Tests.{stub_with}
use traefik_connect.Tunnel.Proxy.{Response, send_responses}
use traefik_connect.Tunnel.Proxy.Tests.{proxy}
use traefik_connect.Tunnel.Exchange.{client, read_responses-send_responses}

abbrev early : Response
early = record { status = 103; header = []; chunks = []; ending = eof }

abbrev final : Response
final = record { status = 200; header = []; chunks = (1 ∷ 2 ∷ []) ∷ (3 ∷ []) ∷ []; ending = eof }

read_responses-send_responses_example :
    read_responses
      (stub_with (record { write = λ f seen. (ok tt, seen) }))
      client
      (ok tt)
      (send_responses proxy (ok tt) (early ∷ final ∷ []) "EOF" []).1
      "EOF"
      (record { heads = []; body = [] })
    ≡ (err eof, record { heads = (103, []) ∷ (200, []) ∷ []; body = 1 ∷ 2 ∷ 3 ∷ [] })
unfolding sanitize_response_headers copy_headers add_kept
read_responses-send_responses_example =
    read_responses-send_responses proxy (stub_with (record { write = λ f seen. (ok tt, seen) }))
      refl refl (ok tt) (ok tt) (early ∷ []) [] final "EOF" "EOF"
      ((refl, refl, (103 ∷ [], refl, refl)), tt) (200 ∷ [], refl, refl) refl refl
