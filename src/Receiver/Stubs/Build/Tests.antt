-- ===== src/Receiver/Stubs/Build/Tests.antt =====
-- The stubs of an example.
use traefik_connect.Common.{
  ok, ◌≡◌, refl, [], ◌∷◌, All, map, lookup, insert, sort_by, insert_sorted, sort_texts, trim_space,
  itoa, to_lower, is_letter, is_digit, join, is_space, trim_left, trim_right,
}
use traefik_connect.Receiver.Tests.{web_settings, web_snapshot, web_container}
use traefik_connect.Receiver.Stubs.{
  StubSpec, group_routers, add_router, build_stub, unhashed_stub, stub_labels, target_url,
  put_routers, router_edits, http_router_edits, put_middlewares, service_edits, own_edits,
  tls_edits, tcp_router_edits,
}
use traefik_connect.Receiver.Stubs.Build.{
  built, build_desired_stubs, all_stubs, container_stubs, service_stubs,
}
use traefik_connect.Names.{sanitize_name, short_hash, sanitize_runes}
use traefik_connect.Receiver.Labels.{run}
use mathlib.Core.List.{Perm}
use traefik_connect.Common.Sort.Laws.{IsSorted}
use traefik_connect.Receiver.Stubs.Laws.{IsMarked}
use traefik_connect.Receiver.Stubs.Build.Laws.{routed_services, build_desired_stubs_lem}
use traefik_connect.Model.{Snapshot}

abbrev pub web_cleaned : Snapshot
web_cleaned = record web_snapshot { containers = web_container ∷ [] }

abbrev pub web_stub : StubSpec
web_stub = record {
  name = "tc-0123456789ab";
  image = "traefik-connect";
  container_id = "c1";
  container_name = "web";
  service_name = "web";
  desired_hash = "h1";
  image_id = "sha256:1";
  labels =
      ("traefik-connect.managed", "true")
      ∷ ("traefik-connect.worker-id", "w1")
      ∷ ("traefik-connect.container-id", "c1")
      ∷ ("traefik-connect.container-name", "web")
      ∷ ("traefik-connect.service-name", "web")
      ∷ ("traefik-connect.desired-hash", "h1")
      ∷ ("traefik.enable", "true")
      ∷ ("traefik.http.services.web.loadbalancer.server.port", "18181")
      ∷ ("traefik.tcp.services.web.loadbalancer.server.port", "18181")
      ∷ ("traefik.http.routers.web.rule", "Host(`a.example`)")
      ∷ ("traefik.http.routers.web.entrypoints", "websecure")
      ∷ ("traefik.http.routers.web.service", "web")
      ∷ [];
  env =
      "STUB_TARGET_URL=http://10.0.0.7:8090/tunnel" ∷ "STUB_TOKEN=secret" ∷ "STUB_CONTAINER_ID=c1"
      ∷ "STUB_SERVICE_NAME=web" ∷ "STUB_LISTEN_ADDR=:18181" ∷ [];
}

-- One stub, for the service that the router sends to.
pub web_built : build_desired_stubs web_settings web_cleaned "sha256:1" ≡ built (web_stub ∷ [])
unfolding build_desired_stubs all_stubs container_stubs service_stubs lookup insert sort_by
    insert_sorted sort_texts trim_space itoa to_lower is_letter is_digit join is_space trim_left
    trim_right group_routers add_router build_stub unhashed_stub stub_labels target_url put_routers
    router_edits http_router_edits put_middlewares service_edits own_edits tls_edits
    tcp_router_edits sanitize_name short_hash sanitize_runes run
web_built = refl

build_desired_stubs_lem_example :
    IsSorted (λ spec. spec.name) (web_stub ∷ [])
    × All (IsMarked "w1") (web_stub ∷ [])
    × Perm
        (map (λ spec. spec.service_name) (web_stub ∷ []))
        (routed_services web_cleaned.containers)
build_desired_stubs_lem_example =
    build_desired_stubs_lem web_settings web_cleaned "sha256:1" (web_stub ∷ []) web_built

pub stub_built :
    build_stub web_settings web_cleaned "sha256:1" web_container "web" ("web" ∷ []) ≡ ok web_stub
unfolding lookup insert sort_by insert_sorted sort_texts trim_space itoa to_lower is_letter is_digit
    join is_space trim_left trim_right group_routers add_router build_stub unhashed_stub stub_labels
    target_url put_routers router_edits http_router_edits put_middlewares service_edits own_edits
    tls_edits tcp_router_edits sanitize_name short_hash sanitize_runes run
stub_built = refl
