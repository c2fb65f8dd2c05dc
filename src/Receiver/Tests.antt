-- ===== src/Receiver/Tests.antt =====
-- A snapshot, an engine and a store to try the receiver on.
use traefik_connect.Common.{
  String, true, none, List, [], ◌∷◌, ◌==◌, if◌then◌else◌, Result, ok, err, keep_if, not, pos,
}
use traefik_connect.Names.Tests.{ascii}
use traefik_connect.Model.{RouterSpec, ServiceSpec, ContainerSpec, Snapshot}
use traefik_connect.Dockerx.{ContainerInspect}
use traefik_connect.Receiver.World.{World}
use traefik_connect.Receiver.Stubs.{StubSettings}
use traefik_connect.Receiver.Reconcile.{Ranges}
use traefik_connect.Receiver.Store.{WorkerRecord, StoreSettings, Store}

abbrev pub web_router : RouterSpec
web_router = record {
  name = "web";
  rule = "Host(`a.example`)";
  entry_points = "websecure" ∷ [];
  tls = none;
  middlewares = [];
  service = "web";
  priority = none;
}

abbrev pub web_service : ServiceSpec
web_service = record {
  name = "web";
  port = pos 80;
  backend_url = "http://172.17.0.2:80";
  backend_source = "container-ip";
  pass_host_header = none;
  sticky = none;
}

abbrev pub web_container : ContainerSpec
web_container = record {
  id = "c1";
  name = "web";
  image = "nginx";
  labels = [];
  exported_at = 5;
  resolution_notes = [];
  routers = ("web", web_router) ∷ [];
  services = ("web", web_service) ∷ [];
  middlewares = [];
}

-- A container without an id beside a good one.
abbrev pub nameless_container : ContainerSpec
nameless_container = record web_container { id = "" }

abbrev pub web_snapshot : Snapshot
web_snapshot = record {
  worker_id = "w1";
  advertise_addr = "10.0.0.7";
  proxy_port = pos 8090;
  captured_at = 7;
  version = "v1";
  hash = "";
  containers = nameless_container ∷ web_container ∷ [];
  decision_notes = [];
}

abbrev pub web_settings : StubSettings
web_settings = record {
  unicode = ascii;
  sha1_hex = λ parts. "0123456789abcdef";
  canonical_hash = λ input. ok "h1";
  docker_network = "";
  stub_image = "traefik-connect";
  token = "secret";
}

abbrev pub stub_inspect : ContainerInspect
stub_inspect = record {
  id = "stub";
  name = "/tc-0123456789ab";
  image = "sha256:1";
  hostname = "stub";
  config_image = "traefik-connect";
  labels =
      ("traefik-connect.managed", "true")
      ∷ ("traefik-connect.worker-id", "w1")
      ∷ ("traefik-connect.desired-hash", "h1")
      ∷ [];
  exposed_ports = "18181/tcp" ∷ [];
  running = true;
  network_mode = "bridge";
  ip_address = "172.17.0.9";
  ports = [];
  networks = [];
}

-- Someone else's container.
abbrev pub other_inspect : ContainerInspect
other_inspect = record stub_inspect { id = "other"; name = "/db"; labels = [] }

abbrev pub inspect_by_id : String → Result ContainerInspect
inspect_by_id id =
    if id == "stub"
    then ok stub_inspect
    else if id == "other"
    then ok other_inspect
    else err "no such container"

-- Its state is the ids of its containers.
abbrev pub engine : World (List String)
engine = record {
  inspect_image = λ name w. (ok "sha256:1", w);
  list_containers = λ w. (ok w, w);
  inspect_container = λ id w. (inspect_by_id id, w);
  create_container = λ name req w. (ok "new", "new" ∷ w);
  connect_network = λ network id w. (ok tt, w);
  start_container = λ id w. (ok tt, w);
  remove_container = λ id w. (ok tt, keep_if (λ other. not (other == id)) w);
  write_file = λ name body w. (ok tt, w);
  remove_file = λ name w. (ok tt, w);
  make_dir = λ w. (ok tt, w);
  read_dir = λ w. (ok [], w);
  read_file = λ name w. (err "no such file", w);
}

abbrev pub in_order : Ranges
in_order = record { specs = λ m. m; existing = λ m. m }

abbrev pub web_store_settings : StoreSettings (List String)
web_store_settings = record {
  api = engine;
  stubs = web_settings;
  ranges = in_order;
  order = λ m. m;
  ttl = pos 10;
  encode = λ r. ok "{}";
  decode = λ raw. err "invalid character";
  hash_snapshot = λ snap. ok "h0";
}

abbrev pub web_record : WorkerRecord
web_record = record {
  snapshot = record web_snapshot { captured_at = 3; containers = web_container ∷ [] };
  updated_at = 4;
  managed_containers = "tc-0123456789ab" ∷ [];
}

abbrev pub web_store : Store (List String)
web_store = record { workers = ("w1", web_record) ∷ []; world = "stub" ∷ "other" ∷ [] }
