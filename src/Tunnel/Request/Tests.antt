-- ===== src/Tunnel/Request/Tests.antt =====
-- A GET request.
use traefik_connect.Common.{has_prefix, ◌≡◌, refl, false, [], ◌∷◌, In, inl, inr, ◌⊎◌, pos}
use traefik_connect.Names.Tests.{ascii}
use traefik_connect.Tunnel.Headers.{is_hop_by_hop}
use traefik_connect.Tunnel.Request.{
  RequestStart, request_line, host_line, request_lines, join_path, trim_slash,
}
use traefik_connect.Tunnel.Request.Laws.{IsKeptLine, IsEndLine, request_lines_lem}

joined : join_path "/api/" "v1" ≡ "/api/v1"
unfolding join_path trim_slash has_prefix
joined = refl

abbrev start : RequestStart
start = record {
  method = "GET";
  path = "/x";
  raw_query = "a=1";
  host = "a.example";
  header = ("Accept", "*/*" ∷ []) ∷ [];
  content_length = pos 0;
}

there :
    In "Host: 172.17.0.2:80" (request_lines ascii (λ k. k) start "172.17.0.2:80" false false false)
unfolding request_lines
there = inr (inl refl)

request_lines_lem_example :
    (("Host: 172.17.0.2:80" ≡ request_line ascii (λ k. k) start)
      ⊎ ("Host: 172.17.0.2:80" ≡ host_line start "172.17.0.2:80" false))
    ⊎ (IsKeptLine (is_hop_by_hop ascii (λ k. k)) "Host: 172.17.0.2:80"
        ⊎ IsEndLine ascii (λ k. k) start false "Host: 172.17.0.2:80")
request_lines_lem_example =
    request_lines_lem ascii (λ k. k) start "172.17.0.2:80" false false "Host: 172.17.0.2:80" there
