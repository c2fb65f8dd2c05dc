-- ===== src/Receiver/Store/Refine.antt =====
-- internal/receiver/store.go: what the store promises, as a board with the newest snapshot of each worker,
-- and that Upsert keeps it.
pub mod Tests
use traefik_connect.Common.{
  String, Bool, true, false, not, ◌&&◌, Option, none, some, List, [], ◌∷◌, ◌==◌, if◌then◌else◌,
  lookup, leb, ◌≡◌, refl, ap, ◌∙◌, sym, ◌≢◌, arith, Bool-cases, inl, inr, eq_iff, ◌⊎◌,
}
use traefik_connect.Model.{Instant, Snapshot}
use traefik_connect.Receiver.Validate.{validate_snapshot, has_snapshot_issue}
use traefik_connect.Receiver.Validate.Laws.{validate_snapshot-time}
use traefik_connect.Receiver.Store.{
  WorkerRecord, StoreSettings, Store, is_stale, fill_hash, accept, upsert,
}
use traefik_connect.Receiver.Store.Upsert.{IsStored, admitted, accept-IsStored}
use traefik_connect.Receiver.Store.Replay.{SameOrder, fill_hash-SameOrder}

-- The newest snapshot of each worker.
abbrev pub Board : Type 0
Board = String → Option Snapshot

-- The newer of a snapshot and what is on the board; what is there stays at the same time.
pub newest : Snapshot → Option Snapshot → Option Snapshot
newest snap none = some snap
newest snap (some old) = if leb snap.captured_at old.captured_at then some old else some snap

pub offer : Snapshot → Board → Board
offer snap board k = if snap.worker_id == k then newest snap (board k) else board k

abbrev snapshot_of : Option WorkerRecord → Option Snapshot
snapshot_of none = none
snapshot_of (some r) = some r.snapshot

-- What the store has on its board.
abbrev pub view : {W : Type 0} → Store W → Board
view s k = snapshot_of (lookup k s.workers)

-- A snapshot can be taken: it names its worker and has the data that a stub needs.
abbrev pub is_valid : Snapshot → Bool
is_valid snapshot =
    let (issues, cleaned) = validate_snapshot snapshot in
    not (cleaned.worker_id == "") && not (has_snapshot_issue issues)

stale-newest :
    (o : Option WorkerRecord) (cleaned snap : Snapshot)
    → snap.captured_at ≡ cleaned.captured_at
    → is_stale o cleaned ≡ true
    → newest snap (snapshot_of o) ≡ snapshot_of o
unfolding newest
stale-newest none cleaned snap e h = cc
stale-newest (some prev) cleaned snap e h = rw (e, h) refl

fresh-newest :
    (o : Option WorkerRecord) (cleaned snap : Snapshot)
    → snap.captured_at ≡ cleaned.captured_at
    → is_stale o cleaned ≡ false
    → newest snap (snapshot_of o) ≡ some snap
unfolding newest
fresh-newest none cleaned snap e h = refl
fresh-newest (some prev) cleaned snap e h = rw (e, h) refl

module _ {W : Type 0} (settings : StoreSettings W) where
  -- A snapshot is offered to the board, if it is valid, without its invalid containers.
  pub submit : Snapshot → Board → Board
  submit snapshot board k =
      let offered = offer (admitted settings snapshot) board k in
      if is_valid snapshot then offered else board k

  offered-stale :
      (snapshot : Snapshot) (s : Store W) (k : String)
      → is_stale
          (lookup (validate_snapshot snapshot).1.worker_id s.workers)
          (validate_snapshot snapshot).1
        ≡ true
      → view s k ≡ offer (admitted settings snapshot) (view s) k
  unfolding offer SameOrder
  offered-stale snapshot s k h =
      let (same_id, same_time) = fill_hash-SameOrder settings (validate_snapshot snapshot).1 in
      let adm = admitted settings snapshot in
      elim (Bool-cases (adm.worker_id == k)) [
        | inl e ↦
            (let here = sym same_id ∙ (eq_iff adm.worker_id k).0 e in
              rw e (
                sym (
                  stale-newest (lookup k s.workers) (validate_snapshot snapshot).1 adm same_time
                    (rw here at h))))
        | inr e ↦ rw e refl
      ]

  offered-fresh :
      (snapshot : Snapshot) (s s' : Store W) (k : String) (r : WorkerRecord)
      → is_stale
          (lookup (validate_snapshot snapshot).1.worker_id s.workers)
          (validate_snapshot snapshot).1
        ≡ false
      → r.snapshot ≡ admitted settings snapshot
      → lookup k s'.workers
        ≡ (if (admitted settings snapshot).worker_id == k then some r else lookup k s.workers)
      → view s' k ≡ offer (admitted settings snapshot) (view s) k
  unfolding offer SameOrder
  offered-fresh snapshot s s' k r h same found =
      let (same_id, same_time) = fill_hash-SameOrder settings (validate_snapshot snapshot).1 in
      let adm = admitted settings snapshot in
      elim (Bool-cases (adm.worker_id == k)) [
        | inl e ↦
            (let here = sym same_id ∙ (eq_iff adm.worker_id k).0 e in
              rw (found, e, same)
                (sym (
                  fresh-newest (lookup k s.workers) (validate_snapshot snapshot).1 adm same_time
                    (rw here at h))))
        | inr e ↦ rw (found, e) refl
      ]

  -- Upsert refines the board: what the store holds for each worker afterwards is what the board holds
  -- when the snapshot is submitted to it, whatever the Docker engine and the disk answer.
  pub upsert_refines :
      (now₁ now₂ : Instant) (snapshot : Snapshot) (s : Store W) (k : String)
      → view (upsert settings now₁ now₂ snapshot s).0 k ≡ submit snapshot (view s) k
  unfolding upsert submit
  upsert_refines now₁ now₂ snapshot s k =
      let (issues, cleaned) = validate_snapshot snapshot in
      elim (Bool-cases (cleaned.worker_id == "")) [
        | inl e ↦ rw e refl
        | inr e₁ ↦ elim (Bool-cases (has_snapshot_issue issues)) [
          | inl e ↦ rw (e₁, e) refl
          | inr e₂ ↦ elim (Bool-cases (is_stale (lookup cleaned.worker_id s.workers) cleaned)) [
            | inl e ↦ rw (e₁, e₂, e) (offered-stale snapshot s k e)
            | inr e ↦
                (let (r, st) =
                    accept-IsStored settings now₁ now₂ (fill_hash settings cleaned) issues s in
                  rw (e₁, e₂, e)
                    (offered-fresh snapshot s
                      (accept settings now₁ now₂ (fill_hash settings cleaned) issues s).0 k r e
                      st.same_snapshot (st.lookups k)))
          ]
        ]
      ]

newest_comm_none :
    (x y : Snapshot)
    → x.captured_at ≢ y.captured_at
    → newest x (newest y none) ≡ newest y (newest x none)
unfolding newest
newest_comm_none x y ne = elim (Bool-cases (leb x.captured_at y.captured_at)) [
  | inl e ↦
      (let other : leb y.captured_at x.captured_at ≡ false = ground (arith, e, ne) in
        rw (e, other) refl)
  | inr e ↦
      (let other : leb y.captured_at x.captured_at ≡ true = ground (arith, e) in rw (e, other) refl)
]

newest_comm :
    (x y : Snapshot) (o : Option Snapshot)
    → x.captured_at ≢ y.captured_at
    → newest x (newest y o) ≡ newest y (newest x o)
unfolding newest
newest_comm x y none ne = newest_comm_none x y ne
newest_comm x y (some z) ne = elim (Bool-cases (leb x.captured_at z.captured_at)) [
  | inl xz ↦ elim (Bool-cases (leb y.captured_at z.captured_at)) [
    | inl yz ↦ rw (xz, yz, xz) refl
    | inr yz ↦
        (let xy : leb x.captured_at y.captured_at ≡ true = ground (arith, xz, yz) in
          rw (xz, yz, xy) refl)
  ]
  | inr xz ↦ elim (Bool-cases (leb y.captured_at z.captured_at)) [
    | inl yz ↦
        (let yx : leb y.captured_at x.captured_at ≡ true = ground (arith, xz, yz) in
          rw (xz, yz, yx, xz) refl)
    | inr yz ↦ rw (xz, yz) (newest_comm_none x y ne)
  ]
]

-- A snapshot that is on the board at most when two tests hold.
abbrev put_if : Bool → Bool → Snapshot → Option Snapshot → Option Snapshot
put_if valid same x o = if valid then (if same then newest x o else o) else o

put_if_comm :
    (p q u v : Bool) (x y : Snapshot) (o : Option Snapshot)
    → x.captured_at ≢ y.captured_at
    → put_if p q x (put_if u v y o) ≡ put_if u v y (put_if p q x o)
put_if_comm true true true true x y o ne = newest_comm x y o ne
put_if_comm true true true false x y o ne = refl
put_if_comm true true false v x y o ne = refl
put_if_comm true false true true x y o ne = refl
put_if_comm true false true false x y o ne = refl
put_if_comm true false false v x y o ne = refl
put_if_comm false q true true x y o ne = refl
put_if_comm false q true false x y o ne = refl
put_if_comm false q false v x y o ne = refl

module _ {W : Type 0} (settings : StoreSettings W) where
  submit-at :
      (snapshot : Snapshot) (b c : Board) (k : String)
      → b k ≡ c k
      → submit settings snapshot b k ≡ submit settings snapshot c k
  unfolding submit offer
  submit-at snapshot b c k e = rw e refl

  submit_comm :
      (x y : Snapshot) (b : Board) (k : String)
      → (admitted settings x).captured_at ≢ (admitted settings y).captured_at
      → submit settings x (submit settings y b) k ≡ submit settings y (submit settings x b) k
  unfolding submit offer
  submit_comm x y b k ne =
      put_if_comm (is_valid x) ((admitted settings x).worker_id == k) (is_valid y)
        ((admitted settings y).worker_id == k) (admitted settings x) (admitted settings y) (b k) ne

  admitted-time : (x : Snapshot) → (admitted settings x).captured_at ≡ x.captured_at
  unfolding SameOrder
  admitted-time x =
      (fill_hash-SameOrder settings (validate_snapshot x).1).1 ∙ validate_snapshot-time x

  two_upserts :
      (t₁ t₂ t₃ t₄ : Instant) (x y : Snapshot) (s : Store W) (k : String)
      → view (upsert settings t₃ t₄ y (upsert settings t₁ t₂ x s).0).0 k
        ≡ submit settings y (submit settings x (view s)) k
  two_upserts t₁ t₂ t₃ t₄ x y s k =
      upsert_refines settings t₃ t₄ y (upsert settings t₁ t₂ x s).0 k
      ∙ submit-at y (view (upsert settings t₁ t₂ x s).0) (submit settings x (view s)) k
          (upsert_refines settings t₁ t₂ x s k)

  -- Two snapshots with different capture times may come in either order: the store holds the same
  -- snapshot of each worker afterwards, whatever the Docker engine and the disk answer.
  pub upsert_comm :
      (t₁ t₂ t₃ t₄ : Instant) (x y : Snapshot) (s : Store W) (k : String)
      → x.captured_at ≢ y.captured_at
      → view (upsert settings t₃ t₄ y (upsert settings t₁ t₂ x s).0).0 k
        ≡ view (upsert settings t₃ t₄ x (upsert settings t₁ t₂ y s).0).0 k
  upsert_comm t₁ t₂ t₃ t₄ x y s k ne =
      two_upserts t₁ t₂ t₃ t₄ x y s k
      ∙ sym (submit_comm x y (view s) k (λ e. ne (sym (admitted-time x) ∙ e ∙ admitted-time y)))
      ∙ sym (two_upserts t₁ t₂ t₃ t₄ y x s k)
