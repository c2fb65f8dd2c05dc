-- ===== src/Receiver/Store/Lifecycle/Fit.antt =====
-- internal/receiver/store.go: that every record is fit to be loaded again, under its own worker's id.
use traefik_connect.Common.{
  String, Bool, true, false, ◌||◌, not, List, [], ◌∷◌, ◌==◌, if◌then◌else◌, Dict, insert, is_empty,
  Result, ok, err, ◌≡◌, refl, ◌∙◌, All, In, All-In, In-All, All-insert, All-remove, Bool-cases, inl,
  inr, not_positive, ◌++◌, lookup, Option-cases,
}
use traefik_connect.Model.{Instant, Snapshot, ValidationIssue}
use traefik_connect.Receiver.Validate.{
  validate_snapshot, persisted_record_compatible, has_snapshot_issue,
}
use traefik_connect.Receiver.Validate.Laws.{has_snapshot_issue_iff, validate_snapshot-compatible}
use traefik_connect.Receiver.Reconcile.{Reconciled, reconcile_worker}
use traefik_connect.Receiver.Store.{
  WorkerRecord, StoreSettings, Store, with_hash, persist, fill_hash, persisted_upsert, accept,
  upsert, is_stale, managed_of, finish_upsert,
}
use traefik_connect.Receiver.Store.Lifecycle.{
  is_expired, has_json_ext, expire, expire_round, expire_all, remove_expired, note_reconciled,
  reconcile_each, reconcile_all, load_record, load_read, load_file, load_files, load_entries,
  load_made, load,
}

-- The record stands under the id of the worker that its snapshot names, and Load would take it.
abbrev pub IsFit : String × WorkerRecord → Type 0
IsFit (id, r) = (id ≡ r.snapshot.worker_id) × (persisted_record_compatible r.snapshot ≡ true)

abbrev pub AreFit : {W : Type 0} → Store W → Type 0
AreFit s = All IsFit s.workers

with_hash-compatible :
    (snap : Snapshot) (h : Result String)
    → persisted_record_compatible (with_hash snap h) ≡ persisted_record_compatible snap
unfolding persisted_record_compatible
with_hash-compatible snap (ok h) = refl
with_hash-compatible snap (err e) = refl

-- A range over a map visits nothing but entries of the map.
abbrev pub RangesOver : (Dict WorkerRecord → Dict WorkerRecord) → Type 0
RangesOver order = (m : Dict WorkerRecord) (e : String × WorkerRecord) → In e (order m) → In e m

module _ {W : Type 0} (settings : StoreSettings W) where
  fill_hash-compatible :
      (snap : Snapshot)
      → persisted_record_compatible (fill_hash settings snap) ≡ persisted_record_compatible snap
  unfolding fill_hash
  fill_hash-compatible snap = elim (Bool-cases (snap.hash == "")) [
    | inl e ↦ rw e (with_hash-compatible snap (settings.hash_snapshot snap))
    | inr e ↦ rw e refl
  ]

  finish_upsert-AreFit :
      (snap : Snapshot) (issues : List ValidationIssue) (r : Reconciled W)
      (workers : Dict WorkerRecord) (p : Result (Unit {0}) × W)
      → All IsFit workers
      → AreFit (finish_upsert settings snap issues r workers p).0
  finish_upsert-AreFit snap issues r workers (err e, w) hs = hs
  finish_upsert-AreFit snap issues r workers (ok u, w) hs = hs

  persisted_upsert-AreFit :
      (now : Instant) (snap : Snapshot) (issues : List ValidationIssue)
      (workers : Dict WorkerRecord) (p : Result (Unit {0}) × W)
      → persisted_record_compatible snap ≡ true
      → All IsFit workers
      → AreFit (persisted_upsert settings now snap issues workers p).0
  persisted_upsert-AreFit now snap issues workers (err e, w) h hs = hs
  persisted_upsert-AreFit now snap issues workers (ok u, w) h hs =
      let r = reconcile_worker settings.api settings.stubs settings.ranges snap w in
      let rec : WorkerRecord = record {
        snapshot = snap;
        updated_at = now;
        managed_containers = r.managed;
      } in
      finish_upsert-AreFit snap (issues ++ r.issues) r (insert snap.worker_id rec workers)
        (persist settings rec r.world) (All-insert IsFit snap.worker_id rec workers (refl, h) hs)

  accept-AreFit :
      (now₁ now₂ : Instant) (snap : Snapshot) (issues : List ValidationIssue) (s : Store W)
      → persisted_record_compatible snap ≡ true
      → AreFit s
      → AreFit (accept settings now₁ now₂ snap issues s).0
  unfolding accept
  accept-AreFit now₁ now₂ snap issues s h hs =
      let rec : WorkerRecord = record {
        snapshot = snap;
        updated_at = now₁;
        managed_containers = managed_of (lookup snap.worker_id s.workers);
      } in
      persisted_upsert-AreFit now₂ snap issues (insert snap.worker_id rec s.workers)
        (persist settings rec s.world) h
        (All-insert IsFit snap.worker_id rec s.workers (refl, h) hs)

  pub upsert-AreFit :
      (now₁ now₂ : Instant) (snapshot : Snapshot) (s : Store W)
      → AreFit s
      → AreFit (upsert settings now₁ now₂ snapshot s).0
  unfolding upsert
  upsert-AreFit now₁ now₂ snapshot s hs =
      let (issues, cleaned) = validate_snapshot snapshot in
      elim (Bool-cases (cleaned.worker_id == "")) [
        | inl e ↦ rw e hs
        | inr e₁ ↦ elim (Bool-cases (has_snapshot_issue issues)) [
          | inl e ↦ rw (e₁, e) hs
          | inr e₂ ↦ elim (Bool-cases (is_stale (lookup cleaned.worker_id s.workers) cleaned)) [
            | inl e ↦ rw (e₁, e₂, e) hs
            | inr e ↦
                (let fit =
                    fill_hash-compatible cleaned
                    ∙ validate_snapshot-compatible snapshot
                    ∙ (has_snapshot_issue_iff snapshot).0 e₂ in
                  rw (e₁, e₂, e)
                    (accept-AreFit now₁ now₂ (fill_hash settings cleaned) issues s fit hs))
          ]
        ]
      ]

  expire_round-AreFit :
      (now : Instant) (id : String) (r : WorkerRecord) (s : Store W)
      → AreFit s
      → AreFit (expire_round settings now id r s)
  unfolding expire_round expire
  expire_round-AreFit now id r s hs = elim (Bool-cases (is_expired settings.ttl now r)) [
    | inl e ↦ rw e (All-remove IsFit id s.workers hs)
    | inr e ↦ rw e hs
  ]

  expire_all-AreFit :
      (now : Instant) (rs : Dict WorkerRecord) (s : Store W)
      → AreFit s
      → AreFit (expire_all settings now rs s)
  unfolding expire_all
  expire_all-AreFit now [] s hs = hs
  expire_all-AreFit now ((id, r) ∷ rs) s hs =
      expire_all-AreFit now rs (expire_round settings now id r s)
        (expire_round-AreFit now id r s hs)

  pub remove_expired-AreFit :
      (now : Instant) (s : Store W) → AreFit s → AreFit (remove_expired settings now s)
  unfolding remove_expired
  remove_expired-AreFit now s hs = elim (Bool-cases (not_positive settings.ttl)) [
    | inl e ↦ rw e hs
    | inr e ↦ rw e (expire_all-AreFit now (settings.order s.workers) s hs)
  ]

  note_reconciled-AreFit :
      (now : Instant) (id : String) (r : WorkerRecord) (result : Reconciled W) (s : Store W)
      → IsFit (id, r)
      → AreFit s
      → AreFit (note_reconciled settings now id r result s)
  unfolding note_reconciled
  note_reconciled-AreFit now id r result s h hs =
      let updated : WorkerRecord = record r {
        managed_containers = result.managed;
        updated_at = now;
      } in
      let stored = All-insert IsFit id updated s.workers h hs in
      elim (Option-cases result.failure) [
        | inl e ↦ rw e stored
        | inr (f, e) ↦ elim (Bool-cases (is_empty result.managed)) [
          | inl none_left ↦ rw (e, none_left) hs
          | inr some_left ↦ rw (e, some_left) stored
        ]
      ]

  reconcile_each-AreFit :
      (clock : String → Instant) (rs : Dict WorkerRecord) (s : Store W)
      → All IsFit rs
      → AreFit s
      → AreFit (reconcile_each settings clock rs s)
  unfolding reconcile_each
  reconcile_each-AreFit clock [] s h hs = hs
  reconcile_each-AreFit clock ((id, r) ∷ rs) s (h, h') hs =
      let result =
        reconcile_worker settings.api settings.stubs settings.ranges r.snapshot s.world in
      reconcile_each-AreFit clock rs (note_reconciled settings (clock id) id r result s) h'
        (note_reconciled-AreFit (clock id) id r result s h hs)

  reconcile_all-AreFit :
      RangesOver settings.order
      → (clock : String → Instant) (s : Store W) → AreFit s
      → AreFit (reconcile_all settings clock s)
  unfolding reconcile_all
  reconcile_all-AreFit ranged clock s hs =
      let entries =
        All-In IsFit (settings.order s.workers)
          (λ e m. In-All IsFit s.workers e hs (ranged s.workers e m)) in
      reconcile_each-AreFit clock (settings.order s.workers) s entries hs

  load_record-AreFit :
      (name : String) (d : Result WorkerRecord) (s : Store W)
      → AreFit s
      → AreFit (load_record settings name d s)
  load_record-AreFit name (err e) s hs = hs
  load_record-AreFit name (ok r) s hs = elim (Bool-cases (persisted_record_compatible r.snapshot)) [
    | inl e ↦ rw e (All-insert IsFit r.snapshot.worker_id r s.workers (refl, e) hs)
    | inr e ↦ rw e hs
  ]

  load_read-AreFit :
      (name : String) (workers : Dict WorkerRecord) (p : Result String × W)
      → All IsFit workers
      → AreFit (load_read settings name workers p)
  load_read-AreFit name workers (err e, w) hs = hs
  load_read-AreFit name workers (ok raw, w) hs =
      load_record-AreFit name (settings.decode raw) (record { workers = workers; world = w }) hs

  load_file-AreFit : (name : String) (s : Store W) → AreFit s → AreFit (load_file settings name s)
  unfolding load_file
  load_file-AreFit name s hs =
      load_read-AreFit name s.workers (settings.api.read_file name s.world) hs

  either-AreFit : (b : Bool) (s t : Store W) → AreFit s → AreFit t → AreFit (if b then s else t)
  either-AreFit true s t hs ht = hs
  either-AreFit false s t hs ht = ht

  load_files-AreFit :
      (entries : List (String × Bool)) (s : Store W)
      → AreFit s
      → AreFit (load_files settings entries s)
  unfolding load_files
  load_files-AreFit [] s hs = hs
  load_files-AreFit ((name, is_dir) ∷ entries) s hs =
      let skipped = is_dir || not (has_json_ext name) in
      let loaded = load_file settings name s in
      load_files-AreFit entries (if skipped then s else loaded)
        (either-AreFit skipped s loaded hs (load_file-AreFit name s hs))

  module _ (ranged : RangesOver settings.order) (clock : String → Instant) where
    load_entries-AreFit :
        (workers : Dict WorkerRecord) (p : Result (List (String × Bool)) × W)
        → All IsFit workers
        → AreFit (load_entries settings clock workers p).0
    load_entries-AreFit workers (err e, w) hs = hs
    load_entries-AreFit workers (ok entries, w) hs =
        let s : Store W = record { workers = workers; world = w } in
        reconcile_all-AreFit ranged clock (load_files settings entries s)
          (load_files-AreFit entries s hs)

    load_made-AreFit :
        (workers : Dict WorkerRecord) (p : Result (Unit {0}) × W)
        → All IsFit workers
        → AreFit (load_made settings clock workers p).0
    load_made-AreFit workers (err e, w) hs = hs
    load_made-AreFit workers (ok u, w) hs = load_entries-AreFit workers (settings.api.read_dir w) hs

    pub load-AreFit : (s : Store W) → AreFit s → AreFit (load settings clock s).0
    unfolding load
    load-AreFit s hs = load_made-AreFit s.workers (settings.api.make_dir s.world) hs
