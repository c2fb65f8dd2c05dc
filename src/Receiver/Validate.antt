-- ===== src/Receiver/Validate.antt =====
-- internal/receiver/store.go: validateSnapshot, hasSnapshotIssue and persistedRecordCompatible
pub mod Tests
pub mod Laws
use traefik_connect.Common.{
  String, Bool, true, false, ◌||◌, List, [], ◌∷◌, ◌++◌, ◌==◌, if◌then◌else◌, any, is_empty,
  not_positive,
}
use traefik_connect.Model.{ContainerSpec, Snapshot, ValidationIssue}

abbrev pub issue : String → String → String → String → String → String → ValidationIssue
issue worker_id container_id container scope field message = record {
  worker_id = worker_id;
  container_id = container_id;
  container = container;
  scope = scope;
  field = field;
  message = message;
}

abbrev pub seen_id : String → List String → Bool
seen_id id seen = any (λ s. s == id) seen

pub record Checked : Type 0 where
  pub issues : List ValidationIssue
  pub kept : List ContainerSpec

abbrev pub report : ValidationIssue → Checked → Checked
report i r = record r { issues = i ∷ r.issues }

abbrev pub keep : ContainerSpec → Checked → Checked
keep c r = record r { kept = c ∷ r.kept }

-- The loop over the containers of worker `w`, given the ids seen before: the issues and the
-- containers that it appends from here on. A guard that fails reports an issue and continues.
pub check_containers : String → List ContainerSpec → List String → Checked
check_containers w [] seen = record { issues = []; kept = [] }
check_containers w (c ∷ cs) seen =
    let rest = check_containers w cs seen in
    let rest_seen = check_containers w cs (c.id ∷ seen) in
    if c.id == ""
    then report (issue w c.id c.name "container" "id" "missing container id") rest
    else if seen_id c.id seen
    then report (issue w c.id c.name "container" "id" "duplicate container id") rest
    else if c.name == ""
    then report (issue w c.id "" "container" "name" "missing container name") rest_seen
    else if is_empty c.routers || is_empty c.services
    then report (issue w c.id c.name "container" "routes" "missing routers or services") rest_seen
    else keep c rest_seen

-- The issues about the snapshot itself.
pub snapshot_issues : Snapshot → List ValidationIssue
snapshot_issues s =
    (if s.advertise_addr == ""
      then issue s.worker_id "" "" "snapshot" "advertise_addr" "missing advertise address" ∷ []
      else [])
    ++ (if not_positive s.proxy_port
        then issue s.worker_id "" "" "snapshot" "proxy_port" "missing proxy port" ∷ []
        else [])

pub validate_snapshot : Snapshot → List ValidationIssue × Snapshot
validate_snapshot s =
    if s.worker_id == ""
    then (
      issue "" "" "" "snapshot" "worker_id" "missing worker id" ∷ [],
      record s { containers = [] },
    )
    else (let r = check_containers s.worker_id s.containers [] in
        (snapshot_issues s ++ r.issues, record s { containers = r.kept }))

pub has_snapshot_issue : List ValidationIssue → Bool
has_snapshot_issue issues = any (λ i. i.scope == "snapshot") issues

-- persistedRecordCompatible reads the record's snapshot alone.
unfoldable pub persisted_record_compatible : Snapshot → Bool
persisted_record_compatible s =
    if s.worker_id == ""
    then false
    else if s.advertise_addr == ""
    then false
    else if not_positive s.proxy_port
    then false
    else true
