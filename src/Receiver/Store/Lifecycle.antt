-- ===== src/Receiver/Store/Lifecycle.antt =====
-- internal/receiver/store.go: Load, reconcileAll, RemoveExpired and Statuses.
pub mod Laws
pub mod Fit
use Prim.Native.Nat.{min}
use traefik_connect.Common.{
  ℕ, ◌-◌, String, Bool, true, false, not, ◌||◌, none, some, List, [], ◌∷◌, ◌==◌, if◌then◌else◌,
  Dict, lookup, insert, remove, is_empty, Result, ok, err, ltb, ℤ, pos, negsuc, not_positive,
  length, map, sort_by, max_int64,
}
use traefik_connect.Model.{Instant}
use traefik_connect.Receiver.Validate.{persisted_record_compatible}
use traefik_connect.Receiver.Reconcile.{
  ManagedContainer, Reconciled, list_managed_containers, reconcile_worker,
}
use traefik_connect.Receiver.Store.{WorkerRecord, StoreSettings, Store, state_file, persist}

-- filepath.Ext(name) == ".json", for a name without a slash: the name ends in it.
pub has_json_ext : String → Bool
has_json_ext String.[] = false
has_json_ext (String.◌∷◌ c s) =
    let rest = has_json_ext s in if String.◌∷◌ c s == ".json" then true else rest

-- now.Sub(updated) > ttl, where Sub stops at the largest time.Duration. A time before `updated`
-- gives a negative duration, which no positive ttl is below.
pub is_expired : ℤ → Instant → WorkerRecord → Bool
is_expired (negsuc n) now r = false
is_expired (pos ttl) now r = ltb ttl (min max_int64 (now - r.updated_at))

pub record Status : Type 0 where
  pub worker_id : String
  pub captured_at : Instant
  pub updated_at : Instant
  pub hash : String
  pub container_count : ℕ
  pub managed_containers : List String

pub to_status : String × WorkerRecord → Status
to_status (id, r) = record {
  worker_id = r.snapshot.worker_id;
  captured_at = r.snapshot.captured_at;
  updated_at = r.updated_at;
  hash = r.snapshot.hash;
  container_count = length r.snapshot.containers;
  managed_containers = r.managed_containers;
}

module _ {W : Type 0} (settings : StoreSettings W) where
  -- The loop of removeManagedContainers.
  pub remove_named : Dict ManagedContainer → List String → W → W
  remove_named existing [] w = w
  remove_named existing (name ∷ names) w =
      remove_named existing names (elim (lookup name existing) [
        | none ↦ w
        | some current ↦ (settings.api.remove_container current.id w).1
      ])

  abbrev pub remove_listed :
      List String → Result (Dict ManagedContainer) × W → Result (Unit {0}) × W
  remove_listed names (err e, w) = (err e, w)
  remove_listed names (ok existing, w) = (ok tt, remove_named existing names w)

  pub remove_managed_containers : String → List String → W → Result (Unit {0}) × W
  remove_managed_containers worker_id names w =
      remove_listed names (list_managed_containers settings.api worker_id w)

  pub expire : String → WorkerRecord → Store W → Store W
  expire id r s = record {
    workers = remove id s.workers;
    world =
        (settings.api.remove_file (state_file id)
          (remove_managed_containers r.snapshot.worker_id r.managed_containers s.world).1).1;
  }

  -- A round of the loop of RemoveExpired.
  pub expire_round : Instant → String → WorkerRecord → Store W → Store W
  expire_round now id r s = if is_expired settings.ttl now r then expire id r s else s

  pub expire_all : Instant → Dict WorkerRecord → Store W → Store W
  expire_all now [] s = s
  expire_all now ((id, r) ∷ rs) s = expire_all now rs (expire_round now id r s)

  -- A ttl of 0 or less keeps all.
  pub remove_expired : Instant → Store W → Store W
  remove_expired now s =
      let expired = expire_all now (settings.order s.workers) s in
      if not_positive settings.ttl then s else expired

  pub statuses : Store W → List Status
  statuses s = sort_by (λ t. t.worker_id) (map to_status (settings.order s.workers))

  -- The end of a round of the loop of reconcileAll, at the time `now`.
  pub note_reconciled : Instant → String → WorkerRecord → Reconciled W → Store W → Store W
  note_reconciled now id r result s =
      let updated : WorkerRecord = record r {
        managed_containers = result.managed;
        updated_at = now;
      } in
      let stored : Store W = record {
        workers = insert id updated s.workers;
        world = (persist settings updated result.world).1;
      } in
      elim result.failure [
        | none ↦ stored
        | some e ↦ if is_empty result.managed then record s { world = result.world } else stored
      ]

  -- Each round reads the clock.
  pub reconcile_each : (String → Instant) → Dict WorkerRecord → Store W → Store W
  reconcile_each clock [] s = s
  reconcile_each clock ((id, r) ∷ rs) s = reconcile_each clock rs (
      note_reconciled (clock id) id r
        (reconcile_worker settings.api settings.stubs settings.ranges r.snapshot s.world) s)

  pub reconcile_all : (String → Instant) → Store W → Store W
  reconcile_all clock s = reconcile_each clock (settings.order s.workers) s

  -- A round of the loop of Load, for a file that was read.
  abbrev pub load_record : String → Result WorkerRecord → Store W → Store W
  load_record name (err e) s = s
  load_record name (ok r) s =
      if persisted_record_compatible r.snapshot
      then record s { workers = insert r.snapshot.worker_id r s.workers }
      else record s { world = (settings.api.remove_file name s.world).1 }

  abbrev pub load_read : String → Dict WorkerRecord → Result String × W → Store W
  load_read name workers (err e, w) = record { workers = workers; world = w }
  load_read name workers (ok raw, w) =
      load_record name (settings.decode raw) (record { workers = workers; world = w })

  pub load_file : String → Store W → Store W
  load_file name s = load_read name s.workers (settings.api.read_file name s.world)

  pub load_files : List (String × Bool) → Store W → Store W
  load_files [] s = s
  load_files ((name, is_dir) ∷ entries) s =
      load_files entries
        (let loaded = load_file name s in if is_dir || not (has_json_ext name) then s else loaded)

  abbrev pub load_entries :
      (String → Instant)
      → Dict WorkerRecord
      → Result (List (String × Bool)) × W
      → Store W × Result (Unit {0})
  load_entries clock workers (err e, w) = (record { workers = workers; world = w }, err e)
  load_entries clock workers (ok entries, w) =
      (reconcile_all clock (load_files entries (record { workers = workers; world = w })), ok tt)

  abbrev pub load_made :
      (String → Instant) → Dict WorkerRecord → Result (Unit {0}) × W → Store W × Result (Unit {0})
  load_made clock workers (err e, w) = (record { workers = workers; world = w }, err e)
  load_made clock workers (ok _, w) = load_entries clock workers (settings.api.read_dir w)

  pub load : (String → Instant) → Store W → Store W × Result (Unit {0})
  load clock s = load_made clock s.workers (settings.api.make_dir s.world)
