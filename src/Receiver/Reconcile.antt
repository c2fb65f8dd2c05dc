-- ===== src/Receiver/Reconcile.antt =====
-- internal/receiver/store.go: reconcileWorker, and what it calls.
pub mod Tests
pub mod Settled
pub mod Sparing
use Prim.Native.String.{◌++◌ as text_append}
use traefik_connect.Common.{
  String, Bool, true, false, ◌&&◌, not, Option, none, some, List, [], ◌∷◌, ◌++◌, ◌==◌,
  if◌then◌else◌, Dict, lookup, insert, is_empty, Result, ok, err, text_at, trim_prefix, is_some,
}
use traefik_connect.Model.{Snapshot, ValidationIssue}
use traefik_connect.Dockerx.{ContainerInspect, ContainerCreateRequest}
use traefik_connect.Receiver.World.{World}
use traefik_connect.Receiver.Validate.{issue}
use traefik_connect.Receiver.Stubs.{StubSpec, StubSettings, managed_label, worker_label, hash_label}
use traefik_connect.Receiver.Stubs.Build.{Desired, built, refused, build_desired_stubs}

pub record ManagedContainer : Type 0 where
  pub id : String
  pub name : String
  pub desired_hash : String
  pub image_id : String
  pub running : Bool

-- The stub is there as it should be.
abbrev pub is_current : ManagedContainer → StubSpec → Bool
is_current current spec =
    current.desired_hash == spec.desired_hash
    && current.image_id == spec.image_id
    && current.running

abbrev pub is_managed_by : String → ContainerInspect → Bool
is_managed_by worker_id ins =
    text_at ins.labels managed_label == "true" && text_at ins.labels worker_label == worker_id

pub to_managed : ContainerInspect → ManagedContainer
to_managed ins = record {
  id = ins.id;
  name = trim_prefix ins.name "/";
  desired_hash = text_at ins.labels hash_label;
  image_id = ins.image;
  running = ins.running;
}

-- One round of the loop of listManagedContainers.
pub add_managed : String → Result ContainerInspect → Dict ManagedContainer → Dict ManagedContainer
add_managed worker_id (err e) out = out
add_managed worker_id (ok ins) out =
    if is_managed_by worker_id ins
    then insert (trim_prefix ins.name "/") (to_managed ins) out
    else out

pub create_request : StubSpec → ContainerCreateRequest
create_request spec = record {
  image = spec.image;
  env = spec.env;
  cmd = "stub" ∷ [];
  labels = spec.labels;
  exposed_ports = "18181/tcp" ∷ [];
  auto_remove = false;
}

-- The orders in which Go happens to range over the two maps.
pub record Ranges : Type 0 where
  pub specs : Dict StubSpec → Dict StubSpec
  pub existing : Dict ManagedContainer → Dict ManagedContainer

-- What the loop over the desired stubs has gathered, and the world.
pub record Progress (W : Type 0) : Type 0 where
  pub managed : List String
  pub issues : List ValidationIssue
  pub world : W

pub record Reconciled (W : Type 0) : Type 0 where
  pub managed : List String
  pub issues : List ValidationIssue
  pub failure : Option String
  pub world : W

-- desiredByName
pub by_name : List StubSpec → Dict StubSpec → Dict StubSpec
by_name [] out = out
by_name (spec ∷ specs) out = by_name specs (insert spec.name spec out)

module _ {W : Type 0} (api : World W) where
  pub list_managed_from :
      String → List String → Dict ManagedContainer → W → Dict ManagedContainer × W
  list_managed_from worker_id [] out w = (out, w)
  list_managed_from worker_id (id ∷ ids) out w =
      let (ins, w') = api.inspect_container id w in
      list_managed_from worker_id ids (add_managed worker_id ins out) w'

  abbrev pub with_summaries : String → Result (List String) × W → Result (Dict ManagedContainer) × W
  with_summaries worker_id (err e, w) = (err e, w)
  with_summaries worker_id (ok ids, w) =
      let (out, w') = list_managed_from worker_id ids [] w in (ok out, w')

  pub list_managed_containers : String → W → Result (Dict ManagedContainer) × W
  list_managed_containers worker_id w = with_summaries worker_id (api.list_containers w)

  -- A step that fails after the container was created removes it again.
  abbrev pub or_undo : String → (W → Result String × W) → Result (Unit {0}) × W → Result String × W
  or_undo id next (ok _, w) = next w
  or_undo id next (err e, w) = (err e, (api.remove_container id w).1)

  abbrev pub start_created : String → W → Result String × W
  start_created id w = or_undo id (λ w'. (ok id, w')) (api.start_container id w)

  abbrev pub with_created : String → Result String × W → Result String × W
  with_created network (err e, w) = (err e, w)
  with_created network (ok id, w) =
      let started = start_created id w in
      let connected = or_undo id (start_created id) (api.connect_network network id w) in
      if network == "" then started else connected

  pub create_stub_container : String → StubSpec → W → Result String × W
  create_stub_container network spec w =
      with_created network (api.create_container spec.name (create_request spec) w)

  -- The end of a round that has called createStubContainer.
  abbrev pub note_created : String → String → StubSpec → Progress W → Result String × W → Progress W
  note_created worker_id name spec p (err e, w) = record p {
    issues =
        p.issues ++ issue worker_id spec.container_id spec.container_name "stub" "create" e ∷ [];
    world = w;
  }
  note_created worker_id name spec p (ok id, w) = record p {
    managed = if id == "" then p.managed else p.managed ++ name ∷ [];
    world = w;
  }

  -- One round of the loop over desiredByName, given existing[name].
  pub reconcile_spec :
      String → String → String → StubSpec → Option ManagedContainer → Progress W → Progress W
  reconcile_spec network worker_id name spec none p =
      note_created worker_id name spec p (create_stub_container network spec p.world)
  reconcile_spec network worker_id name spec (some current) p =
      let w = (api.remove_container current.id p.world).1 in
      let replaced = note_created worker_id name spec p (create_stub_container network spec w) in
      if is_current current spec then record p { managed = p.managed ++ name ∷ [] } else replaced

  pub reconcile_specs :
      String → String → Dict ManagedContainer → Dict StubSpec → Progress W → Progress W
  reconcile_specs network worker_id existing [] p = p
  reconcile_specs network worker_id existing ((name, spec) ∷ specs) p =
      reconcile_specs network worker_id existing specs
        (reconcile_spec network worker_id name spec (lookup name existing) p)

  -- The loop over the existing stubs that removes those no longer desired.
  pub remove_stale : Dict StubSpec → Dict ManagedContainer → W → W
  remove_stale desired [] w = w
  remove_stale desired ((name, current) ∷ existing) w =
      remove_stale desired existing
        (if is_some (lookup name desired) then w else (api.remove_container current.id w).1)

  abbrev pub conclude : Dict StubSpec → Progress W → W → Reconciled W
  conclude desired p w = record {
    managed = p.managed;
    issues = p.issues;
    failure =
        if is_empty p.managed && not (is_empty desired)
        then some "failed to create any managed stub containers"
        else none;
    world = w;
  }

  abbrev pub fail_with : List ValidationIssue → String → W → Reconciled W
  fail_with issues e w = record { managed = []; issues = issues; failure = some e; world = w }

  abbrev pub start_progress : W → Progress W
  start_progress w = record { managed = []; issues = []; world = w }

  module _ (settings : StubSettings) (ranges : Ranges) (snap : Snapshot) where
    abbrev pub with_existing : Dict StubSpec → Result (Dict ManagedContainer) × W → Reconciled W
    with_existing desired (err e, w) = fail_with [] e w
    with_existing desired (ok existing, w) =
        let p =
          reconcile_specs settings.docker_network snap.worker_id existing (ranges.specs desired)
            (start_progress w) in
        conclude desired p (remove_stale desired (ranges.existing existing) p.world)

    abbrev pub with_desired : Desired → W → Reconciled W
    with_desired (refused issues e) w = fail_with issues e w
    with_desired (built specs) w =
        with_existing (by_name specs []) (list_managed_containers snap.worker_id w)

    abbrev pub with_image : Result String × W → Reconciled W
    with_image (err e, w) = fail_with [] (text_append "inspect stub image: " e) w
    with_image (ok image_id, w) = with_desired (build_desired_stubs settings snap image_id) w

    pub reconcile_worker : W → Reconciled W
    reconcile_worker w = with_image (api.inspect_image settings.stub_image w)
