-- ===== src/Render/Snapshot/Tests.antt =====
-- Two containers rendered, one with a router through two middlewares.
use Prim.Native.String.{◌++◌}
use mathlib.Core.List.Permᴰ
use mathlib.Core.List.{Permᴰ}
use traefik_connect.Common.{
  String, false, [], ◌∷◌, All, inl, inr, pos, ◌≡◌, refl, lookup, eq_iff, arith, ◌==◌, false, insert,
  sort_texts, sort_with, sort_by, insert_sorted, trim_space, to_lower, itoa, is_digit, is_letter,
  is_space, trim_left, trim_right,
}
use traefik_connect.Model.{
  RouterSpec, ContainerSpec, Snapshot, zero_router, zero_service, zero_middleware,
}
use traefik_connect.Names.Tests.{ascii}
use traefik_connect.Names.{sanitize_name, sanitize_runes}
use traefik_connect.Render.{
  name_map, qualified_name, resolved_names, render_router, heading, indentation, key_value,
  list_items, map_items, render_service, render_tls, string_list, string_map,
}
use traefik_connect.Render.Middleware.{render_headers, render_middleware, render_redirect_scheme}
use traefik_connect.Render.Snapshot.{
  less_container, write_blocks, render_containers, write_section, bodies, render_container,
  render_snapshot,
}
use traefik_connect.Render.Snapshot.Order.{
  render_router-unordered, render_snapshot-unordered, render_container-unordered,
}
use traefik_connect.Render.Snapshot.Closed.{IsClosed, render_container-IsClosed}

abbrev quoted : String → String
quoted s = "\"" ++ (s ++ "\"")

abbrev chained : RouterSpec
chained = record zero_router {
  rule = "Host(`a.example`)";
  middlewares = "strip" ∷ "auth" ∷ [];
  service = "svc";
}

abbrev web : ContainerSpec
web = record {
  id = "abcdef1234567890";
  name = "web";
  image = "web:1";
  labels = [];
  exported_at = 5;
  resolution_notes = [];
  routers = ("site", chained) ∷ [];
  services = ("svc", record zero_service { backend_url = "http://10.0.0.7:80" }) ∷ [];
  middlewares =
      ("strip", record zero_middleware { strip_prefix_prefixes = "/a" ∷ [] })
      ∷ ("auth", record zero_middleware { basic_auth_users = "u:p" ∷ [] })
      ∷ [];
}

abbrev bare : ContainerSpec
bare = record web { id = "0"; name = "api"; routers = []; services = []; middlewares = [] }

abbrev two : Snapshot
two = record {
  worker_id = "w";
  advertise_addr = "10.0.0.7";
  proxy_port = pos 8090;
  captured_at = 5;
  version = "v1";
  hash = "h";
  containers = web ∷ bare ∷ [];
  decision_notes = [];
}

two_rendered :
    render_snapshot ascii quoted two
    ≡ "http:\n  routers:\n    w-web-abcdef123456-site:\n      rule: \"Host(`a.example`)\"\n"
      ++ ("      middlewares:\n        - \"w-web-abcdef123456-auth\"\n"
          ++ ("        - \"w-web-abcdef123456-strip\"\n      service: \"w-web-abcdef123456-svc\"\n"
              ++ ("  services:\n    w-web-abcdef123456-svc:\n      loadBalancer:\n        servers:\n"
                  ++ ("          - url: \"http://10.0.0.7:80\"\n  middlewares:\n"
                      ++ ("    w-web-abcdef123456-auth:\n      basicAuth:\n        users:\n"
                          ++ ("          - \"u:p\"\n    w-web-abcdef123456-strip:\n      stripPrefix:\n"
                              ++ "        prefixes:\n          - \"/a\"\n"))))))
unfolding render_snapshot write_blocks render_containers sort_with less_container render_container
    sort_texts write_section heading indentation bodies sort_by render_router qualified_name
    sanitize_name trim_space to_lower itoa insert lookup insert_sorted is_digit is_letter is_space
    trim_left trim_right sanitize_runes render_headers render_middleware render_redirect_scheme
    key_value list_items map_items name_map render_service render_tls resolved_names string_list
    string_map
two_rendered = refl

render_router-unordered_example :
    render_router quoted "r" chained [] (("auth", "A") ∷ ("strip", "B") ∷ [])
    ≡ render_router quoted "r"
        (record chained { middlewares = "auth" ∷ "strip" ∷ [] })
        []
        (("auth", "A") ∷ ("strip", "B") ∷ [])
render_router-unordered_example =
    render_router-unordered quoted "r" chained [] (("auth", "A") ∷ ("strip", "B") ∷ []) []
      ("auth" ∷ "strip" ∷ []) Permᴰ.nil (Permᴰ.swap refl refl)

render_snapshot-unordered_example :
    render_snapshot ascii quoted two
    ≡ render_snapshot ascii quoted (record two { containers = bare ∷ web ∷ [] })
unfolding less_container
render_snapshot-unordered_example =
    render_snapshot-unordered ascii quoted two (bare ∷ web ∷ []) (Permᴰ.swap refl refl)
      ((inl (inr refl), tt), (tt, tt))

lookup-swap :
    {V : Type 0} (a b : String) (x y : V)
    → (a == b) ≡ false
    → (k : String) → lookup k ((a, x) ∷ (b, y) ∷ []) ≡ lookup k ((b, y) ∷ (a, x) ∷ [])
unfolding lookup
lookup-swap a b x y ne k = ground (arith, eq_iff a k, eq_iff b k, eq_iff a b)

render_container-unordered_example :
    render_container ascii quoted "w" web
    ≡ render_container ascii quoted "w" (record web {
      middlewares =
          ("auth", record zero_middleware { basic_auth_users = "u:p" ∷ [] })
          ∷ ("strip", record zero_middleware { strip_prefix_prefixes = "/a" ∷ [] })
          ∷ [];
    })
render_container-unordered_example =
    render_container-unordered ascii quoted "w" web web.routers web.services
      (("auth", record zero_middleware { basic_auth_users = "u:p" ∷ [] })
        ∷ ("strip", record zero_middleware { strip_prefix_prefixes = "/a" ∷ [] })
        ∷ [])
      (record { same_keys = Permᴰ.refl _; same_values = λ k. refl })
      (record { same_keys = Permᴰ.refl _; same_values = λ k. refl })
      (record {
        same_keys = Permᴰ.swap refl refl;
        same_values = lookup-swap "strip" "auth" _ _ refl;
      })

render_container-IsClosed_example :
    All (IsClosed ascii quoted "w" web) (render_container ascii quoted "w" web).routers
render_container-IsClosed_example = render_container-IsClosed ascii quoted "w" web
