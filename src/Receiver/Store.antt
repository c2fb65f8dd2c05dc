-- ===== src/Receiver/Store.antt =====
-- internal/receiver/store.go: the store of worker records, and its operations. The mutex makes each
-- operation one step; `World` has the Docker engine and the state directory.
pub mod Tests
pub mod NoImage
pub mod Upsert
pub mod Replay
pub mod Refine
pub mod Lifecycle
use Prim.Native.String.{◌++◌ as text_append}
use traefik_connect.Common.{
  String, Bool, false, Option, none, some, List, [], ◌++◌, ◌==◌, if◌then◌else◌, Dict, lookup,
  insert, is_empty, Result, ok, err, leb, ℤ, pos,
}
use traefik_connect.Model.{Instant, Snapshot, ValidationIssue}
use traefik_connect.Receiver.World.{World}
use traefik_connect.Receiver.Validate.{validate_snapshot, has_snapshot_issue}
use traefik_connect.Receiver.Stubs.{StubSettings}
use traefik_connect.Receiver.Reconcile.{Ranges, Reconciled, reconcile_worker}

pub record WorkerRecord : Type 0 where
  pub snapshot : Snapshot
  pub updated_at : Instant
  pub managed_containers : List String

-- What stays the same while the store lives, with json.MarshalIndent of a record,
-- json.Unmarshal, and util.CanonicalHash of a snapshot without its hash.
pub record StoreSettings (W : Type 0) : Type 0 where
  pub api : World W
  pub stubs : StubSettings
  pub ranges : Ranges
  pub order : Dict WorkerRecord → Dict WorkerRecord
  pub ttl : ℤ
  pub encode : WorkerRecord → Result String
  pub decode : String → Result WorkerRecord
  pub hash_snapshot : Snapshot → Result String

pub record Store (W : Type 0) : Type 0 where
  pub workers : Dict WorkerRecord
  pub world : W

pub record Upserted : Type 0 where
  pub stored : Snapshot
  pub issues : List ValidationIssue
  pub managed : List String
  pub failure : Option String

abbrev pub zero_snapshot : Snapshot
zero_snapshot = record {
  worker_id = "";
  advertise_addr = "";
  proxy_port = pos 0;
  captured_at = 0;
  version = "";
  hash = "";
  containers = [];
  decision_notes = [];
}

abbrev pub rejected : List ValidationIssue → List String → String → Upserted
rejected issues managed e = record {
  stored = zero_snapshot;
  issues = issues;
  managed = managed;
  failure = some e;
}

-- What Upsert returns at its end, given reconcileWorker's error.
abbrev pub answer : Snapshot → List ValidationIssue → List String → Option String → Upserted
answer snap issues managed none = record {
  stored = snap;
  issues = issues;
  managed = managed;
  failure = none;
}
answer snap issues managed (some e) =
    if is_empty managed
    then rejected issues managed e
    else record { stored = snap; issues = issues; managed = managed; failure = none }

abbrev pub state_file : String → String
state_file worker_id = text_append worker_id ".json"

-- The snapshot is no newer than the one that is stored for the worker.
abbrev pub is_stale : Option WorkerRecord → Snapshot → Bool
is_stale none snap = false
is_stale (some prev) snap = leb snap.captured_at prev.snapshot.captured_at

abbrev pub managed_of : Option WorkerRecord → List String
managed_of none = []
managed_of (some prev) = prev.managed_containers

-- An error of CanonicalHash leaves the hash empty.
abbrev pub with_hash : Snapshot → Result String → Snapshot
with_hash snap (ok h) = record snap { hash = h }
with_hash snap (err e) = snap

module _ {W : Type 0} (settings : StoreSettings W) where
  abbrev pub with_body : String → Result String → W → Result (Unit {0}) × W
  with_body worker_id (err e) w = (err e, w)
  with_body worker_id (ok body) w = settings.api.write_file (state_file worker_id) body w

  pub persist : WorkerRecord → W → Result (Unit {0}) × W
  persist r w = with_body r.snapshot.worker_id (settings.encode r) w

  pub fill_hash : Snapshot → Snapshot
  fill_hash snap =
      let filled = with_hash snap (settings.hash_snapshot snap) in
      if snap.hash == "" then filled else snap

  -- The end of Upsert, after the second persistLocked.
  abbrev pub finish_upsert :
      Snapshot
      → List ValidationIssue
      → Reconciled W
      → Dict WorkerRecord
      → Result (Unit {0}) × W
      → Store W × Upserted
  finish_upsert snap issues r workers (err e, w) =
      (record { workers = workers; world = w }, rejected issues r.managed e)
  finish_upsert snap issues r workers (ok _, w) =
      (record { workers = workers; world = w }, answer snap issues r.managed r.failure)

  -- Reconciliation and what follows it, at the time `now`.
  abbrev pub reconcile_upsert :
      Instant
      → Snapshot
      → List ValidationIssue
      → Dict WorkerRecord
      → Reconciled W
      → Store W × Upserted
  reconcile_upsert now snap issues workers r =
      let rec : WorkerRecord = record {
        snapshot = snap;
        updated_at = now;
        managed_containers = r.managed;
      } in
      finish_upsert snap (issues ++ r.issues) r (insert snap.worker_id rec workers)
        (persist rec r.world)

  abbrev pub persisted_upsert :
      Instant
      → Snapshot
      → List ValidationIssue
      → Dict WorkerRecord
      → Result (Unit {0}) × W
      → Store W × Upserted
  persisted_upsert now snap issues workers (err e, w) =
      (record { workers = workers; world = w }, rejected issues [] e)
  persisted_upsert now snap issues workers (ok _, w) =
      reconcile_upsert now snap issues workers
        (reconcile_worker settings.api settings.stubs settings.ranges snap w)

  -- The part of Upsert that writes, for a snapshot that was accepted; `now₁` and `now₂` are the
  -- answers of its two calls of time.Now.
  pub accept : Instant → Instant → Snapshot → List ValidationIssue → Store W → Store W × Upserted
  accept now₁ now₂ snap issues s =
      let rec : WorkerRecord = record {
        snapshot = snap;
        updated_at = now₁;
        managed_containers = managed_of (lookup snap.worker_id s.workers);
      } in
      persisted_upsert now₂ snap issues (insert snap.worker_id rec s.workers) (persist rec s.world)

  pub upsert : Instant → Instant → Snapshot → Store W → Store W × Upserted
  upsert now₁ now₂ snapshot s =
      let (issues, cleaned) = validate_snapshot snapshot in
      let accepted = accept now₁ now₂ (fill_hash cleaned) issues s in
      if cleaned.worker_id == ""
      then (s, rejected issues [] "worker id is required")
      else if has_snapshot_issue issues
      then (s, rejected issues [] "snapshot is missing required proxy metadata")
      else if is_stale (lookup cleaned.worker_id s.workers) cleaned
      then (s, rejected issues [] "replayed or stale snapshot")
      else accepted
