-- ===== src/Parse/Tests.antt =====
-- A library and a container to try the parser on.
use Prim.Native.String.{◌++◌}
use traefik_connect.Common.{String, [], ◌∷◌, ok, true}
use traefik_connect.Names.Tests.{ascii}
use traefik_connect.Dockerx.{ContainerInspect}
use traefik_connect.Parse.Backend.{Library}

-- A URL is its text.
abbrev pub text_urls : Library String
text_urls = record {
  unicode = ascii;
  parse = λ s. ok s;
  scheme = λ s. "http";
  with_scheme = λ scheme s. s;
  of_host = λ scheme host. scheme ++ ("://" ++ host);
  print = λ s. s;
  quote = λ s. "\"" ++ (s ++ "\"");
}

abbrev pub web_inspect : ContainerInspect
web_inspect = record {
  id = "0123456789abcdef";
  name = "/web";
  image = "sha256:2";
  hostname = "web";
  config_image = "nginx";
  labels =
      ("traefik.enable", "true")
      ∷ ("traefik.http.routers.web.rule", "Host(`a.example`)")
      ∷ ("traefik.http.services.web.loadbalancer.server.port", "80")
      ∷ [];
  exposed_ports = [];
  running = true;
  network_mode = "bridge";
  ip_address = "172.17.0.2";
  ports = [];
  networks = [];
}
