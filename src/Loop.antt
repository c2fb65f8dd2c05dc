-- ===== src/Loop.antt =====
-- internal/receiver/store.go and internal/parse/labels.go together: a master that is also a worker
-- sees the stubs that it made among the containers of its Docker engine.
pub mod Tests
use traefik_connect.Common.{String, ◌≡◌, List, In, In-All}
use traefik_connect.Model.{Instant, Snapshot}
use traefik_connect.Dockerx.{ContainerInspect}
use traefik_connect.Receiver.Stubs.{StubSpec, StubSettings}
use traefik_connect.Receiver.Stubs.Laws.{IsMarked}
use traefik_connect.Receiver.Stubs.Build.{built, build_desired_stubs}
use traefik_connect.Receiver.Stubs.Build.Laws.{build_desired_stubs_lem}
use traefik_connect.Parse.Backend.{Library}
use traefik_connect.Parse.Container.{not_exported, Orders, build_container}
use traefik_connect.Parse.Container.Laws.{build_container-managed}

-- A stub that the master makes for any worker is never exported by a worker that runs on the
-- master's host: a container with the stub's labels is turned down as managed.
pub stub-not_exported :
    {U : Type 0} (lib : Library U) (orders : Orders) (now : Instant) (ins : ContainerInspect)
    (advertise_addr : String) (settings : StubSettings) (snap : Snapshot) (image_id : String)
    (specs : List StubSpec) (spec : StubSpec)
    → build_desired_stubs settings snap image_id ≡ built specs
    → In spec specs
    → ins.labels ≡ spec.labels
    → build_container lib orders now ins advertise_addr
      ≡ not_exported "not exported: managed container"
stub-not_exported lib orders now ins advertise_addr settings snap image_id specs spec h m same =
    let (sorted, marks, services) = build_desired_stubs_lem settings snap image_id specs h in
    let marked = In-All (IsMarked snap.worker_id) specs spec marks m in
    build_container-managed lib orders now ins advertise_addr (rw same marked.managed)
