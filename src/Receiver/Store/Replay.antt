-- ===== src/Receiver/Store/Replay.antt =====
-- Upsert never goes back in time.
use traefik_connect.Common.{
  ◌≤◌, ◌<◌, String, ◌≡◌, refl, ap, ◌∙◌, true, false, Option, none, some, List, [], ◌∷◌, ◌==◌,
  lookup, Result, ok, err, arith, Bool-cases, inl, inr, ◌⊎◌, eq_iff, eq_refl,
}
use traefik_connect.Model.{Instant, Snapshot}
use traefik_connect.Receiver.Validate.{validate_snapshot, has_snapshot_issue}
use traefik_connect.Receiver.Store.{
  WorkerRecord, StoreSettings, Store, Upserted, rejected, is_stale, with_hash, fill_hash, accept,
  upsert,
}
use traefik_connect.Receiver.Store.Upsert.{
  IsAdmitted, Refuses-at, IsStored, admitted, upsert_outcome, stale-Refuses, upsert_of_IsAdmitted,
  accept-IsStored,
}

-- What Upsert compares.
unfoldable pub SameOrder : Snapshot → Snapshot → Type 0
SameOrder s t = (s.worker_id ≡ t.worker_id) × (s.captured_at ≡ t.captured_at)

with_hash-SameOrder : (snap : Snapshot) (h : Result String) → SameOrder (with_hash snap h) snap
unfolding SameOrder
with_hash-SameOrder snap (ok h) = (refl, refl)
with_hash-SameOrder snap (err e) = (refl, refl)

abbrev time_of : Option WorkerRecord → Instant
time_of none = 0
time_of (some r) = r.snapshot.captured_at

-- A snapshot that comes, with the answers of Upsert's two calls of time.Now.
pub record Upload : Type 0 where
  pub stored : Instant
  pub reconciled : Instant
  pub snapshot : Snapshot

module _ {W : Type 0} (settings : StoreSettings W) where
  pub fill_hash-SameOrder : (snap : Snapshot) → SameOrder (fill_hash settings snap) snap
  unfolding fill_hash
  fill_hash-SameOrder snap = elim (Bool-cases (snap.hash == "")) [
    | inl e ↦ rw e (with_hash-SameOrder snap (settings.hash_snapshot snap))
    | inr e ↦ rw e (with_hash-SameOrder snap (err ""))
  ]

  -- The record of `k` is there and no older than `r`.
  pub IsKept : Store W → String → WorkerRecord → Type 0
  IsKept s k r =
      (r' : WorkerRecord) × (lookup k s.workers ≡ some r')
      × (r.snapshot.captured_at ≤ r'.snapshot.captured_at)

  is_stale-false :
      (o : Option WorkerRecord) (snap : Snapshot) (r : WorkerRecord)
      → is_stale o snap ≡ false
      → o ≡ some r
      → r.snapshot.captured_at < snap.captured_at
  is_stale-false none snap r h e = cc
  is_stale-false (some q) snap r h e =
      let same : q.snapshot.captured_at ≡ r.snapshot.captured_at = ap (λ o. time_of o) e in
      ground arith

  IsStored-IsKept :
      (snapshot : Snapshot) (s : Store W) (k : String) (r : WorkerRecord) (r' : WorkerRecord)
      (result : Store W × Upserted)
      → lookup k s.workers ≡ some r
      → IsAdmitted snapshot s
      → IsStored (admitted settings snapshot) s.workers result r'
      → IsKept result.0 k r
  unfolding SameOrder IsKept
  IsStored-IsKept snapshot s k r r' result h a st =
      let (same_id, same_time) = fill_hash-SameOrder (validate_snapshot snapshot).1 in
      elim (Bool-cases ((admitted settings snapshot).worker_id == k)) [
        | inl e ↦ (
          r',
          st.lookups k ∙ rw e refl,
          (let newer =
                is_stale-false (lookup (validate_snapshot snapshot).1.worker_id s.workers)
                  (validate_snapshot snapshot).1 r a.is_new
                  (rw (← same_id) (rw ((eq_iff (admitted settings snapshot).worker_id k).0 e) h)) in
              let same = ap (λ t. t.captured_at) st.same_snapshot in omega arith),
        )
        | inr e ↦ (r, st.lookups k ∙ rw e h, omega arith)
      ]

  module _ (now₁ now₂ : Instant) where
    upsert-IsKept :
        (snapshot : Snapshot) (s : Store W) (k : String) (r : WorkerRecord)
        → lookup k s.workers ≡ some r
        → ((upsert settings now₁ now₂ snapshot s).0 ≡ s)
            × ((e : String) × ((upsert settings now₁ now₂ snapshot s).1.failure ≡ some e))
          ⊎ (IsAdmitted snapshot s
              × ((r : WorkerRecord) × IsStored
                    (admitted settings snapshot)
                    s.workers
                    (upsert settings now₁ now₂ snapshot s)
                    r))
        → IsKept (upsert settings now₁ now₂ snapshot s).0 k r
    unfolding IsKept
    upsert-IsKept snapshot s k r h (inl (e, f)) = (r, rw e h, omega arith)
    upsert-IsKept snapshot s k r h (inr (a, (r', st))) =
        IsStored-IsKept snapshot s k r r' (upsert settings now₁ now₂ snapshot s) h a st

    -- Whatever Upsert is given, a worker that has a record keeps one, and the time at which the
    -- recorded snapshot was captured does not go back.
    upsert_monotone :
        (snapshot : Snapshot) (s : Store W) (k : String) (r : WorkerRecord)
        → lookup k s.workers ≡ some r
        → IsKept (upsert settings now₁ now₂ snapshot s).0 k r
    upsert_monotone snapshot s k r h =
        upsert-IsKept snapshot s k r h (upsert_outcome settings now₁ now₂ snapshot s)

    is_stale_again :
        (snapshot : Snapshot) (s : Store W) (r : WorkerRecord) (result : Store W × Upserted)
        → IsStored (admitted settings snapshot) s.workers result r
        → is_stale
            (lookup (validate_snapshot snapshot).1.worker_id result.0.workers)
            (validate_snapshot snapshot).1
          ≡ true
    unfolding SameOrder
    is_stale_again snapshot s r result st =
        let (same_id, same_time) = fill_hash-SameOrder (validate_snapshot snapshot).1 in
        let same = ap (λ t. t.captured_at) st.same_snapshot in
        rw
          (
            st.lookups (validate_snapshot snapshot).1.worker_id,
            same_id,
            eq_refl (validate_snapshot snapshot).1.worker_id,
          )
          (ground arith)

  -- The store has a snapshot of the worker that is as new.
  abbrev Stale : Snapshot → Store W → Type 0
  Stale snapshot s =
      is_stale (lookup (validate_snapshot snapshot).1.worker_id s.workers)
        (validate_snapshot snapshot).1
      ≡ true

  is_stale_of_newer :
      (o o' : Option WorkerRecord) (snap : Snapshot)
      → is_stale o snap ≡ true
      → ((r : WorkerRecord)
          → o ≡ some r
          → (r' : WorkerRecord) × (o' ≡ some r')
            × (r.snapshot.captured_at ≤ r'.snapshot.captured_at))
      → is_stale o' snap ≡ true
  is_stale_of_newer none o' snap h k = cc
  is_stale_of_newer (some r) o' snap h k =
      let (r', found, newer) = k r refl in rw found (ground (arith, h, newer))

  upsert-Stale :
      (now₁ now₂ : Instant) (snapshot other : Snapshot) (s : Store W)
      → Stale snapshot s
      → Stale snapshot (upsert settings now₁ now₂ other s).0
  unfolding IsKept
  upsert-Stale now₁ now₂ snapshot other s h =
      let id = (validate_snapshot snapshot).1.worker_id in
      is_stale_of_newer (lookup id s.workers)
        (lookup id (upsert settings now₁ now₂ other s).0.workers) (validate_snapshot snapshot).1 h
        (λ r found. upsert_monotone now₁ now₂ other s id r found)

  -- Once given to Upsert, a snapshot without a fault of its own is stale.
  given-Stale :
      (now₁ now₂ : Instant) (snapshot : Snapshot) (s : Store W)
      → ((validate_snapshot snapshot).1.worker_id == "") ≡ false
      → has_snapshot_issue (validate_snapshot snapshot).0 ≡ false
      → Stale snapshot (upsert settings now₁ now₂ snapshot s).0
  given-Stale now₁ now₂ snapshot s has_id has_meta =
      let (issues, cleaned) = validate_snapshot snapshot in
      elim (Bool-cases (is_stale (lookup cleaned.worker_id s.workers) cleaned)) [
        | inl e ↦ upsert-Stale now₁ now₂ snapshot snapshot s e
        | inr e ↦
            (let (r, st) =
                accept-IsStored settings now₁ now₂ (admitted settings snapshot) issues s in
              rw
                (upsert_of_IsAdmitted settings now₁ now₂ snapshot s
                  (record { has_id = has_id; has_meta = has_meta; is_new = e }))
                (is_stale_again now₁ now₂ snapshot s r
                  (accept settings now₁ now₂ (admitted settings snapshot) issues s) st))
      ]

  -- The snapshots that come one after another.
  pub upsert_all : List Upload → Store W → Store W
  upsert_all [] s = s
  upsert_all (u ∷ us) s = upsert_all us (upsert settings u.stored u.reconciled u.snapshot s).0

  upsert_all-Stale :
      (snapshot : Snapshot) (us : List Upload) (s : Store W)
      → Stale snapshot s
      → Stale snapshot (upsert_all us s)
  unfolding upsert_all
  upsert_all-Stale snapshot [] s h = h
  upsert_all-Stale snapshot (u ∷ us) s h =
      upsert_all-Stale snapshot us (upsert settings u.stored u.reconciled u.snapshot s).0
        (upsert-Stale u.stored u.reconciled snapshot u.snapshot s h)

  unnamed_refused :
      (now₁ now₂ : Instant) (snapshot : Snapshot) (s : Store W)
      → ((validate_snapshot snapshot).1.worker_id == "") ≡ true
      → upsert settings now₁ now₂ snapshot s
        ≡ (s, rejected (validate_snapshot snapshot).0 [] "worker id is required")
  unfolding upsert
  unnamed_refused now₁ now₂ snapshot s e = ground (arith, e)

  faulty_refused :
      (now₁ now₂ : Instant) (snapshot : Snapshot) (s : Store W)
      → ((validate_snapshot snapshot).1.worker_id == "") ≡ false
      → has_snapshot_issue (validate_snapshot snapshot).0 ≡ true
      → upsert settings now₁ now₂ snapshot s ≡ (
        s,
        rejected (validate_snapshot snapshot).0 [] "snapshot is missing required proxy metadata",
      )
  unfolding upsert
  faulty_refused now₁ now₂ snapshot s e₁ e = ground (arith, e₁, e)

  -- A snapshot that Upsert has been given, and that it refused, stored, or failed to write to the
  -- state directory, is refused when it comes again, whichever snapshots of any workers have come in
  -- between: the records, the directory and the engine stay as they are. The store has neither
  -- expired a record in between nor been loaded anew.
  pub upsert_replay :
      (now₁ now₂ now₃ now₄ : Instant) (snapshot : Snapshot) (between : List Upload) (s : Store W)
      → let s' = upsert_all between (upsert settings now₁ now₂ snapshot s).0 in
        (e : String) × (upsert settings now₃ now₄ snapshot s'
          ≡ (s', rejected (validate_snapshot snapshot).0 [] e))
  upsert_replay now₁ now₂ now₃ now₄ snapshot between s =
      let (issues, cleaned) = validate_snapshot snapshot in
      let given = (upsert settings now₁ now₂ snapshot s).0 in
      let s' = upsert_all between given in
      elim (Bool-cases (cleaned.worker_id == "")) [
        | inl e ↦ ("worker id is required", unnamed_refused now₃ now₄ snapshot s' e)
        | inr e₁ ↦ elim (Bool-cases (has_snapshot_issue issues)) [
          | inl e ↦ (
            "snapshot is missing required proxy metadata",
            faulty_refused now₃ now₄ snapshot s' e₁ e,
          )
          | inr e₂ ↦
              (let stale =
                  upsert_all-Stale snapshot between given
                    (given-Stale now₁ now₂ snapshot s e₁ e₂) in
                let (e, h) =
                  Refuses-at settings snapshot s'
                    (stale-Refuses settings snapshot s' e₁ e₂ stale) in
                (e, h now₃ now₄))
        ]
      ]
