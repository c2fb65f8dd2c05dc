-- ===== src/Worker/Sync.antt =====
-- internal/worker/agent.go: syncOnce, which collects the containers, signs their snapshot and posts it
-- to the master. The state `W` of the world is what the Docker engine, the clock, the context and the
-- master go through.
pub mod Collected
pub mod Accepted
pub mod Consistent
pub mod Tests
use Prim.Native.String.{◌++◌}
use traefik_connect.Common.{
  ℕ, String, Bool, true, false, not, Option, none, some, List, [], ◌∷◌, ◌==◌, if◌then◌else◌, Result,
  ok, err, ◌>>=◌, leb, ℤ, length,
}
use traefik_connect.Model.{Instant, ContainerSpec, Snapshot}
use traefik_connect.Dockerx.{ContainerInspect}
use traefik_connect.Config.{AgentConfig}
use traefik_connect.Parse.Backend.{Library}
use traefik_connect.Parse.Container.{
  Exported, exported, not_exported, panicked, Orders, build_container,
}
use traefik_connect.Websocket.{Bytes}
use traefik_connect.Api.{Request, Crypto, sign_body}
use traefik_connect.Worker.{AgentStatus, set_error, set_success, listen_port}

-- The request of syncOnce: its path at the master, and the headers that ValidateRequest does not read.
pub record Post : Type 0 where
  pub path : String
  pub content_type : String
  pub agent : String
  pub request : Request

pub record Response : Type 0 where
  pub status : ℕ
  pub status_text : String
  pub body : Bytes

-- The calls of syncOnce: ctx.Err, ListContainers, for the ids, InspectContainer, time.Now, net's
-- SplitHostPort, CanonicalHash of the snapshot, json.Marshal, the HTTP client with
-- http.NewRequestWithContext, and the two decoders of a response.
pub record Calls (W : Type 0) : Type 0 where
  pub canceled : W → Option String
  pub list_containers : W → Result (List String) × W
  pub inspect : String → W → Result ContainerInspect × W
  pub now : W → Instant
  pub split_host_port : String → Result String
  pub canonical_hash : Snapshot → Result String
  pub marshal : Snapshot → Result Bytes
  pub send : Post → W → Result Response × W
  pub decode_message : Bytes → String
  pub decode_response : Bytes → Result (Unit {0})

pub record Agent : Type 0 where
  pub status : AgentStatus
  pub snapshot : Snapshot

-- What the loop has: the containers or the context's error; `none` is a panic of BuildContainer, which
-- ends the process.
abbrev pub Collected : Type 0
Collected = Option (Result (List ContainerSpec))

abbrev pub also : ContainerSpec → Collected → Collected
also c none = none
also c (some r) = some (r >>= (λ cs. ok (c ∷ cs)))

abbrev pub add_exported : Exported → Collected → Collected
add_exported (exported c) rest = also c rest
add_exported (not_exported reason) rest = rest
add_exported panicked rest = none

abbrev pub unless_canceled : {W : Type 0} → Option String → W → Collected × W → Collected × W
unless_canceled (some e) w rest = (some (err e), w)
unless_canceled none w rest = rest

unfoldable pub signed_post : AgentConfig → Crypto → Snapshot → Bytes → Post
signed_post cfg crypto snap body = record {
  path = "/v1/snapshot";
  content_type = "application/json";
  agent = cfg.user_agent;
  request = record {
    method = "POST";
    authorization = "Bearer " ++ cfg.token;
    timestamp = crypto.format_time snap.captured_at;
    signature = sign_body crypto cfg.token snap.captured_at body;
    body = ok body;
  };
}

module _ {U W : Type 0} (lib : Library U) (orders : Orders) (cfg : AgentConfig)
    (calls : Calls W) where
  -- What a round of the loop adds for one container.
  abbrev pub add_inspected : Instant → Result ContainerInspect → Collected → Collected
  add_inspected now (err e) rest = rest
  add_inspected now (ok ins) rest =
      add_exported (build_container lib orders now ins cfg.advertise_addr) rest

  -- The loop of syncOnce over the ids of the containers.
  unfoldable pub collect_containers : List String → W → Collected × W
  collect_containers [] w = (some (ok []), w)
  collect_containers (id ∷ ids) w =
      let (ins, w₁) = calls.inspect id w in
      let (rest, w₂) = collect_containers ids w₁ in
      unless_canceled (calls.canceled w) w (add_inspected (calls.now w₁) ins rest, w₂)

  -- The snapshot before it has its hash.
  abbrev pub unhashed : Instant → List ContainerSpec → Snapshot
  unhashed now cs = record {
    worker_id = cfg.worker_id;
    advertise_addr = cfg.advertise_addr;
    proxy_port = listen_port calls.split_host_port cfg.proxy_listen_addr;
    captured_at = now;
    version = "v1";
    hash = "";
    containers = cs;
    decision_notes = [];
  }

  -- What a response means.
  unfoldable pub answered : Response → Result (Unit {0})
  answered r =
      let message = calls.decode_message r.body in
      let refused =
        err
          ("receiver rejected snapshot: " ++ (if message == "" then r.status_text else message)) in
      if leb 300 r.status then refused else calls.decode_response r.body

  abbrev pub stored : Snapshot → W → Result (Unit {0}) → Agent → Result (Unit {0}) × (Agent × W)
  stored snap w (err e) a = (err e, (a, w))
  stored snap w (ok _) a =
      let status = set_success (calls.now w) snap.hash (length snap.containers) a.status in
      (ok tt, (record { status = status; snapshot = snap }, w))

  abbrev pub sent : Snapshot → Result Response × W → Agent → Result (Unit {0}) × (Agent × W)
  sent snap (r, w) a = stored snap w (r >>= answered) a

  abbrev pub marshalled :
      Crypto → Snapshot → W → Result Bytes → Agent → Result (Unit {0}) × (Agent × W)
  marshalled crypto snap w (err e) a = (err e, (a, w))
  marshalled crypto snap w (ok body) a =
      sent snap (calls.send (signed_post cfg crypto snap body) w) a

  abbrev pub hashed :
      Crypto → Snapshot → W → Result String → Agent → Result (Unit {0}) × (Agent × W)
  hashed crypto snap w (err e) a = (err e, (a, w))
  hashed crypto snap w (ok hash) a =
      let named = record snap { hash = hash } in marshalled crypto named w (calls.marshal named) a

  abbrev pub collected :
      Crypto → Instant → Collected × W → Agent → Option (Result (Unit {0}) × (Agent × W))
  collected crypto now (none, w) a = none
  collected crypto now (some (err e), w) a = some (err e, (a, w))
  collected crypto now (some (ok cs), w) a =
      let snap = unhashed now cs in some (hashed crypto snap w (calls.canonical_hash snap) a)

  abbrev pub listed :
      Crypto → Result (List String) × W → Agent → Option (Result (Unit {0}) × (Agent × W))
  listed crypto (err e, w) a = some (err e, (a, w))
  listed crypto (ok ids, w) a = collected crypto (calls.now w) (collect_containers ids w) a

  -- syncOnce; `none` is a panic.
  unfoldable pub sync_once : Crypto → Agent → W → Option (Result (Unit {0}) × (Agent × W))
  sync_once crypto a w = listed crypto (calls.list_containers w) a
