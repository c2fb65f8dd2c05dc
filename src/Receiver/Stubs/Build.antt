-- ===== src/Receiver/Stubs/Build.antt =====
-- internal/receiver/store.go: the loops of buildDesiredStubs over the containers and their services
pub mod Tests
pub mod Laws
use mathlib.Core.List.{◌++◌}
use traefik_connect.Common.{
  at_or, ◌>>=◌, String, List, [], ◌∷◌, ◌==◌, if◌then◌else◌, Dict, is_empty, not_positive, sort_by,
  Result, ok, err,
}
use traefik_connect.Model.{ContainerSpec, Snapshot, ValidationIssue}
use traefik_connect.Receiver.Validate.{issue}
use traefik_connect.Receiver.Stubs.{StubSpec, StubSettings, sorted_keys, group_routers, build_stub}

module _ (s : StubSettings) (snap : Snapshot) (image_id : String) where
  pub service_stubs : ContainerSpec → Dict (List String) → List String → Result (List StubSpec)
  service_stubs c by_service [] = ok []
  service_stubs c by_service (service ∷ services) =
      let rest = service_stubs c by_service services in
      let routers = at_or [] by_service service in
      if is_empty routers
      then rest
      else do spec ← build_stub s snap image_id c service routers; specs ← rest; ok (spec ∷ specs)

  pub container_stubs : ContainerSpec → Result (List StubSpec)
  container_stubs c =
      service_stubs c (group_routers c.routers (sorted_keys c.routers) []) (sorted_keys c.services)

  pub all_stubs : List ContainerSpec → Result (List StubSpec)
  all_stubs [] = ok []
  all_stubs (c ∷ cs) = do specs ← container_stubs c; rest ← all_stubs cs; ok (specs ++ rest)

-- Go's three results: the specs, or the issues and the error.
pub data Desired : Type 0 where
  built : List StubSpec → Desired
  refused : List ValidationIssue → String → Desired

abbrev pub sorted_specs : Result (List StubSpec) → Desired
sorted_specs (err e) = refused [] e
sorted_specs (ok specs) = built (sort_by (λ spec. spec.name) specs)

pub build_desired_stubs : StubSettings → Snapshot → String → Desired
build_desired_stubs s snap image_id =
    if snap.advertise_addr == ""
    then refused
        (issue snap.worker_id "" "" "snapshot" "advertise_addr" "missing advertise address" ∷ [])
        "missing advertise address"
    else if not_positive snap.proxy_port
    then refused (issue snap.worker_id "" "" "snapshot" "proxy_port" "missing proxy port" ∷ [])
        "missing proxy port"
    else sorted_specs (all_stubs s snap image_id snap.containers)
