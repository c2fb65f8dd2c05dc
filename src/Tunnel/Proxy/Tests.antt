-- ===== src/Tunnel/Proxy/Tests.antt =====
-- A worker's proxy whose tunnel keeps what is written to it.
use traefik_connect.Common.{
  String, true, false, List, [], ◌∷◌, ◌==◌, ◌≡◌, refl, Result, ok, err, pos, lookup, to_lower,
  equal_fold, contains, has_prefix, after_prefix,
}
use traefik_connect.Names.Tests.{ascii}
use traefik_connect.Receiver.Tests.{web_snapshot}
use traefik_connect.Websocket.{Bytes, Frame}
use traefik_connect.Tunnel.Headers.{Header, get, is_websocket_upgrade}
use traefik_connect.Tunnel.Request.{RequestStart}
use traefik_connect.Tunnel.Pumps.Laws.{frame_buffer}
use traefik_connect.Tunnel.Stream.{Codec, ResponseStart, request_start, response_start}
use traefik_connect.Tunnel.Stub.{token_key, container_key, service_key}
use traefik_connect.Tunnel.Proxy.{ProxySettings, Backend, turned_down, served, handle_tunnel}
use traefik_connect.Tunnel.Proxy.Laws.{handle_tunnel-served}

abbrev pub plain_start : RequestStart
plain_start = record {
  method = "GET";
  path = "/";
  raw_query = "";
  host = "a.example";
  header = [];
  content_length = pos 0;
}

-- A response's message is its status.
abbrev pub codec : Codec
codec = record {
  encode_request = λ type msg. ok [];
  decode_request = λ raw. ok (request_start, plain_start);
  encode_response = λ type msg. ok (msg.status ∷ []);
  decode_response = status_of;
  quote = λ s. s;
}
  where
    status_of : Bytes → Result (String × ResponseStart)
    status_of [] = err "unexpected end of JSON input"
    status_of (status ∷ bs) = ok (response_start, record { status = status; header = [] })

abbrev pub proxy : ProxySettings String (List Frame)
proxy = record {
  urls = record {
    parse = λ s. ok s;
    path = λ u. "";
    with_target = λ path query u. u;
    print = λ u. u;
    host = λ u. "172.17.0.2:80";
  };
  unicode = ascii;
  canonical = λ k. k;
  bytes = λ s. [];
  codec = codec;
  token = "secret";
  accept = λ s. (ok tt, s);
  tunnel = frame_buffer;
  dial = λ host s. (ok tt, s);
  conn = record { write = λ bs s. (ok tt, s) };
}

abbrev pub no_backend : Backend
no_backend = record { responses = []; ending = "EOF"; reads = [] }

abbrev opening : Header
opening =
    ("Connection", "Upgrade" ∷ [])
    ∷ ("Upgrade", "websocket" ∷ [])
    ∷ (token_key, "secret" ∷ [])
    ∷ (container_key, "c1" ∷ [])
    ∷ (service_key, "web" ∷ [])
    ∷ []

-- The stub hangs up at once.
hung_up : handle_tunnel proxy web_snapshot opening [] "EOF" no_backend [] ≡ served (err "EOF") []
unfolding handle_tunnel get is_websocket_upgrade lookup to_lower equal_fold contains has_prefix
    after_prefix
hung_up = refl

-- Another token.
locked_out :
    handle_tunnel (record proxy { token = "other" }) web_snapshot opening [] "EOF" no_backend []
    ≡ turned_down 401 "unauthorized"
unfolding handle_tunnel get is_websocket_upgrade lookup to_lower equal_fold contains has_prefix
    after_prefix
locked_out = refl

handle_tunnel-served_example :
    (is_websocket_upgrade ascii (λ k. k) opening ≡ true)
    × ((get ascii (λ k. k) opening token_key == "secret") ≡ true)
    × ((get ascii (λ k. k) opening container_key == "") ≡ false)
    × ((get ascii (λ k. k) opening service_key == "") ≡ false)
handle_tunnel-served_example =
    handle_tunnel-served proxy web_snapshot opening [] "EOF" no_backend [] [] (err "EOF") hung_up
