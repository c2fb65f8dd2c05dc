-- ===== src/Receiver/Stubs.antt =====
-- internal/receiver/store.go: buildDesiredStubs, the stub containers that a snapshot calls for. This
-- file has the stub of one service, and the child `Build` the loops.
pub mod Build
pub mod Laws
use Prim.Native.String.{◌++◌}
use mathlib.Core.List.{◌++◌ as append}
use traefik_connect.Common.{
  at_or, String, true, Option, none, some, List, [], ◌∷◌, ◌==◌, if◌then◌else◌, Dict, insert, lookup,
  keys, pos, itoa, sort_texts, Result, ok, err, Unicode,
}
use traefik_connect.Model.{
  zero_router, zero_service, RouterSpec, ServiceSpec, TlsSpec, MiddlewareSpec, ContainerSpec,
  Snapshot,
}
use traefik_connect.Names.{sanitize_name, short_hash}
use traefik_connect.Receiver.Labels.{
  Edit, run, put, put_text, put_bool, put_int, put_list, put_all, middleware_labels,
  tcp_rule_from_http_rule,
}

pub record StubSpec : Type 0 where
  pub name : String
  pub image : String
  pub container_id : String
  pub container_name : String
  pub service_name : String
  pub desired_hash : String
  pub image_id : String
  pub labels : Dict String
  pub env : List String

-- What util.CanonicalHash is given.
pub record HashInput : Type 0 where
  pub worker_id : String
  pub container : String
  pub service : String
  pub target : String
  pub image_id : String
  pub labels : Dict String
  pub image : String

-- The arguments of buildDesiredStubs beside the snapshot, and the two digests of crypto/sha1 and
-- crypto/sha256 that it computes with.
pub record StubSettings : Type 0 where
  pub unicode : Unicode
  pub sha1_hex : List String → String
  pub canonical_hash : HashInput → Result String
  pub docker_network : String
  pub stub_image : String
  pub token : String

abbrev pub managed_label : String
managed_label = "traefik-connect.managed"

abbrev pub worker_label : String
worker_label = "traefik-connect.worker-id"

abbrev pub hash_label : String
hash_label = "traefik-connect.desired-hash"

abbrev pub sorted_keys {ℓ} : {V : Type ℓ} → Dict V → List String
sorted_keys m = sort_texts (keys m)

-- One round of the loop that fills routerNamesByService, for a router of `service`.
pub add_router : String → String → Dict (List String) → Dict (List String)
add_router service name by_service =
    if service == ""
    then by_service
    else insert service (append (at_or [] by_service service) (name ∷ [])) by_service

-- routerNamesByService, from the router names in their order
pub group_routers : Dict RouterSpec → List String → Dict (List String) → Dict (List String)
group_routers routers [] by_service = by_service
group_routers routers (name ∷ names) by_service =
    group_routers routers names
      (add_router (at_or zero_router routers name).service name by_service)

tls_edits : String → TlsSpec → Edit
tls_edits p tls = put_text (p ++ ".tls.certresolver") tls.cert_resolver

-- A router with TLS becomes a TCP router.
tcp_router_edits : String → String → RouterSpec → TlsSpec → List Edit
tcp_router_edits service name r tls =
    let p = "traefik.tcp.routers." ++ name in
    put (p ++ ".rule") (tcp_rule_from_http_rule r.rule)
    ∷ put_list (p ++ ".entrypoints") r.entry_points
    ∷ put (p ++ ".tls") "true"
    ∷ tls_edits p tls
    ∷ put_int (p ++ ".priority") r.priority
    ∷ put (p ++ ".service") service
    ∷ []

abbrev pub put_found : String → Option MiddlewareSpec → Edit
put_found name none m = m
put_found name (some mw) m = put_all "" (middleware_labels name mw) m

-- The labels of the middlewares that a router names and the container has.
pub put_middlewares : Dict MiddlewareSpec → List String → Edit
put_middlewares mws [] m = m
put_middlewares mws (name ∷ names) m =
    put_middlewares mws names (put_found name (lookup name mws) m)

http_router_edits : Dict MiddlewareSpec → String → String → RouterSpec → List Edit
http_router_edits mws service name r =
    let p = "traefik.http.routers." ++ name in
    put (p ++ ".rule") r.rule
    ∷ put_list (p ++ ".entrypoints") r.entry_points
    ∷ put_list (p ++ ".middlewares") r.middlewares
    ∷ put (p ++ ".service") service
    ∷ put_int (p ++ ".priority") r.priority
    ∷ put_middlewares mws r.middlewares
    ∷ []

pub router_edits : Dict MiddlewareSpec → String → String → RouterSpec → Option TlsSpec → List Edit
router_edits mws service name r none = http_router_edits mws service name r
router_edits mws service name r (some tls) = tcp_router_edits service name r tls

pub put_routers : ContainerSpec → String → List String → Edit
put_routers c service [] m = m
put_routers c service (name ∷ names) m =
    let r = at_or zero_router c.routers name in
    put_routers c service names (run (router_edits c.middlewares service name r r.tls) m)

-- The receiver's own labels.
own_edits : Snapshot → ContainerSpec → String → List Edit
own_edits snap c service =
    put managed_label "true"
    ∷ put worker_label snap.worker_id
    ∷ put "traefik-connect.container-id" c.id
    ∷ put "traefik-connect.container-name" c.name
    ∷ put "traefik-connect.service-name" service
    ∷ put hash_label ""
    ∷ []

-- The labels that Traefik reads about the service.
service_edits : StubSettings → String → ServiceSpec → List Edit
service_edits s service svc =
    put "traefik.enable" "true"
    ∷ put_text "traefik.docker.network" s.docker_network
    ∷ put ("traefik.http.services." ++ (service ++ ".loadbalancer.server.port")) "18181"
    ∷ put ("traefik.tcp.services." ++ (service ++ ".loadbalancer.server.port")) "18181"
    ∷ put_bool ("traefik.http.services." ++ (service ++ ".loadbalancer.passhostheader"))
        svc.pass_host_header
    ∷ put_bool ("traefik.http.services." ++ (service ++ ".loadbalancer.sticky")) svc.sticky
    ∷ []

pub stub_labels : StubSettings → Snapshot → ContainerSpec → String → List String → Dict String
stub_labels s snap c service routers = put_routers c service routers (
    run (service_edits s service (at_or zero_service c.services service))
      (run (own_edits snap c service) []))

pub target_url : Snapshot → String
target_url snap = "http://" ++ (snap.advertise_addr ++ (":" ++ (itoa snap.proxy_port ++ "/tunnel")))

abbrev hash_input :
    StubSettings → Snapshot → ContainerSpec → String → String → String → Dict String → HashInput
hash_input s snap c service target image_id labels = record {
  worker_id = snap.worker_id;
  container = c.id;
  service = service;
  target = target;
  image_id = image_id;
  labels = labels;
  image = s.stub_image;
}

abbrev with_hash : StubSpec → Result String → Result StubSpec
with_hash spec (err e) = err e
with_hash spec (ok hash) =
    ok (record spec { desired_hash = hash; labels = insert hash_label hash spec.labels })

-- The environment of a stub.
abbrev pub stub_env : String → String → String → String → List String
stub_env target token container_id service =
    ("STUB_TARGET_URL=" ++ target)
    ∷ ("STUB_TOKEN=" ++ token)
    ∷ ("STUB_CONTAINER_ID=" ++ container_id)
    ∷ ("STUB_SERVICE_NAME=" ++ service)
    ∷ "STUB_LISTEN_ADDR=:18181"
    ∷ []

-- The stub for one service of a container, before its hash is known.
pub unhashed_stub :
    StubSettings → Snapshot → String → ContainerSpec → String → List String → StubSpec
unhashed_stub s snap image_id c service routers = record {
  name =
      sanitize_name s.unicode
        ("tc-" ++ short_hash s.sha1_hex (snap.worker_id ∷ c.id ∷ service ∷ []));
  image = s.stub_image;
  container_id = c.id;
  container_name = c.name;
  service_name = service;
  desired_hash = "";
  image_id = image_id;
  labels = stub_labels s snap c service routers;
  env = stub_env (target_url snap) s.token c.id service;
}

-- The stub for one service of a container, given the names of its routers.
pub build_stub :
    StubSettings → Snapshot → String → ContainerSpec → String → List String → Result StubSpec
build_stub s snap image_id c service routers =
    let spec = unhashed_stub s snap image_id c service routers in
    let target = "STUB_TARGET_URL=" ++ target_url snap in
    with_hash spec (s.canonical_hash (hash_input s snap c service target image_id spec.labels))
