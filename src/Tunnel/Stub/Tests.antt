-- ===== src/Tunnel/Stub/Tests.antt =====
-- A stub whose tunnel keeps what is written to it.
use traefik_connect.Common.{[], ◌∷◌, ok, ℕ, suc, pos}
use traefik_connect.Names.Tests.{ascii}
use traefik_connect.Tunnel.Stub.{ClientRequest, Client, StubSettings, handle_http}
use traefik_connect.Tunnel.Stub.Laws.{IsErr, handle_http-IsErr}
use traefik_connect.Config.{StubConfig}
use traefik_connect.Websocket.{Frame}
use traefik_connect.Tunnel.Pumps.{Sink, text, binary, close}
use traefik_connect.Tunnel.Proxy.Tests.{codec}

abbrev pub stub_config : StubConfig
stub_config = record {
  listen_addr = ":18181";
  target_url = "http://10.0.0.7:8090/tunnel";
  token = "secret";
  container_id = "c1";
  service_name = "web";
}

-- A stub, for any state.
abbrev pub stub_with : {S : Type 0} → Sink Frame S → StubSettings S
stub_with tunnel = record {
  cfg = stub_config;
  unicode = ascii;
  canonical = λ k. k;
  status_text = λ code. "OK";
  bytes = λ s. [];
  codec = codec;
  request_end = [];
  dial = λ header s. (ok tt, s);
  tunnel = tunnel;
}

-- A client that counts what it is sent.
abbrev counter : Client ℕ
counter = record {
  body = record { write = λ bs n. (ok tt, suc n) };
  write_header = λ status header n. suc n;
  http_error = λ text code n. n;
  hijack = λ n. (ok tt, n);
  conn = record { write = λ bs n. (ok tt, n) };
}

abbrev get_root : ClientRequest
get_root = record {
  method = "GET";
  path = "/";
  raw_query = "";
  host = "a.example";
  header = [];
  content_length = pos 0;
  chunks = [];
  ending = "EOF";
}

handle_http-IsErr_example :
    IsErr
      (handle_http
        (stub_with (record { write = λ f n. (ok tt, n) }))
        counter
        get_root
        (text (200 ∷ []) ∷ binary (1 ∷ []) ∷ close ∷ [])
        "EOF"
        0).0
handle_http-IsErr_example =
    handle_http-IsErr (stub_with (record { write = λ f n. (ok tt, n) })) counter get_root
      (text (200 ∷ []) ∷ binary (1 ∷ []) ∷ close ∷ []) "EOF" 0
