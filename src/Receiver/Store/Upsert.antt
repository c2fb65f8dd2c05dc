-- ===== src/Receiver/Store/Upsert.antt =====
-- What Upsert does to the workers' records.
use traefik_connect.Common.{
  String, ◌≡◌, refl, ap, true, false, Option, none, some, List, [], ◌∷◌, ◌++◌, ◌==◌, if◌then◌else◌,
  Dict, lookup, insert, lookup-insert, Result, ok, err, ◌∙◌, arith, Bool-cases, inl, inr, ◌⊎◌,
}
use traefik_connect.Model.{Instant, Snapshot, ValidationIssue}
use traefik_connect.Receiver.Validate.{validate_snapshot, has_snapshot_issue}
use traefik_connect.Receiver.Reconcile.{Reconciled, reconcile_worker}
use traefik_connect.Receiver.Store.{
  WorkerRecord, StoreSettings, Store, Upserted, rejected, is_stale, managed_of, answer, persist,
  fill_hash, finish_upsert, persisted_upsert, accept, upsert,
}

-- The snapshot passes every guard of Upsert.
pub record IsAdmitted {W : Type 0} (snapshot : Snapshot) (s : Store W) : Type 0 where
  pub has_id : ((validate_snapshot snapshot).1.worker_id == "") ≡ false
  pub has_meta : has_snapshot_issue (validate_snapshot snapshot).0 ≡ false
  pub is_new :
      is_stale
        (lookup (validate_snapshot snapshot).1.worker_id s.workers)
        (validate_snapshot snapshot).1
      ≡ false

module _ {W : Type 0} (settings : StoreSettings W) where
  -- Upsert does nothing with the snapshot but to return an error, at any time.
  pub Refuses : Snapshot → Store W → Type 0
  Refuses snapshot s =
      (e : String) × ((now₁ now₂ : Instant)
        → upsert settings now₁ now₂ snapshot s ≡ (s, rejected (validate_snapshot snapshot).0 [] e))

  pub Accepts : Snapshot → Store W → Type 0
  Accepts snapshot s =
      (now₁ now₂ : Instant)
      → upsert settings now₁ now₂ snapshot s
        ≡ accept settings now₁ now₂ (fill_hash settings (validate_snapshot snapshot).1)
            (validate_snapshot snapshot).0 s

  pub stale-Refuses :
      (snapshot : Snapshot) (s : Store W)
      → ((validate_snapshot snapshot).1.worker_id == "") ≡ false
      → has_snapshot_issue (validate_snapshot snapshot).0 ≡ false
      → is_stale
          (lookup (validate_snapshot snapshot).1.worker_id s.workers)
          (validate_snapshot snapshot).1
        ≡ true
      → Refuses snapshot s
  unfolding upsert Refuses
  stale-Refuses snapshot s e₁ e₂ e =
      ("replayed or stale snapshot", λ now₁ now₂. ground (arith, e₁, e₂, e))

  pub upsert_of_IsAdmitted :
      (now₁ now₂ : Instant) (snapshot : Snapshot) (s : Store W)
      → IsAdmitted snapshot s
      → upsert settings now₁ now₂ snapshot s
        ≡ accept settings now₁ now₂
            (fill_hash settings (validate_snapshot snapshot).1)
            (validate_snapshot snapshot).0
            s
  unfolding upsert
  upsert_of_IsAdmitted now₁ now₂ snapshot s a = ground (arith, a.has_id, a.has_meta, a.is_new)

  pub Refuses-at :
      (snapshot : Snapshot) (s : Store W)
      → Refuses snapshot s
      → (e : String) × ((now₁ now₂ : Instant)
          → upsert settings now₁ now₂ snapshot s
            ≡ (s, rejected (validate_snapshot snapshot).0 [] e))
  unfolding Refuses
  Refuses-at snapshot s r = r

  pub upsert-cases :
      (snapshot : Snapshot) (s : Store W)
      → Refuses snapshot s ⊎ (IsAdmitted snapshot s × Accepts snapshot s)
  unfolding upsert Refuses Accepts
  upsert-cases snapshot s = elim (Bool-cases ((validate_snapshot snapshot).1.worker_id == "")) [
    | inl e ↦ inl ("worker id is required", λ now₁ now₂. ground (arith, e))
    | inr e₁ ↦ elim (Bool-cases (has_snapshot_issue (validate_snapshot snapshot).0)) [
      | inl e ↦
          inl ("snapshot is missing required proxy metadata", λ now₁ now₂. ground (arith, e₁, e))
      | inr e₂ ↦
          elim (Bool-cases (
            is_stale (lookup (validate_snapshot snapshot).1.worker_id s.workers)
              (validate_snapshot snapshot).1)) [
                | inl e ↦ inl (stale-Refuses snapshot s e₁ e₂ e)
                | inr e₃ ↦ inr (
                  record { has_id = e₁; has_meta = e₂; is_new = e₃ },
                  λ now₁ now₂. ground (arith, e₁, e₂, e₃),
                )
              ]
    ]
  ]

-- The record of the snapshot's worker now holds the snapshot, that of every other worker is the one
-- in `workers`, and a caller who is told of no failure is told what is stored.
pub record IsStored {W : Type 0} (snap : Snapshot) (workers : Dict WorkerRecord)
    (result : Store W × Upserted) (r : WorkerRecord) : Type 0 where
  pub same_snapshot : r.snapshot ≡ snap
  pub lookups :
      (k : String)
      → lookup k result.0.workers ≡ (if snap.worker_id == k then some r else lookup k workers)
  pub told : result.1.failure ≡ none → result.1.stored ≡ snap
  pub told_managed : result.1.failure ≡ none → result.1.managed ≡ r.managed_containers

answer-stored :
    (snap : Snapshot) (issues : List ValidationIssue) (managed : List String) (f : Option String)
    → (answer snap issues managed f).failure ≡ none
    → (answer snap issues managed f).stored ≡ snap
answer-stored snap issues managed none h = refl
answer-stored snap issues [] (some e) h = cc
answer-stored snap issues (m ∷ ms) (some e) h = refl

answer-managed :
    (snap : Snapshot) (issues : List ValidationIssue) (managed : List String) (f : Option String)
    → (answer snap issues managed f).managed ≡ managed
answer-managed snap issues managed none = refl
answer-managed snap issues [] (some e) = refl
answer-managed snap issues (m ∷ ms) (some e) = refl

module _ {W : Type 0} (settings : StoreSettings W) where
  finish_upsert-IsStored :
      (snap : Snapshot) (issues : List ValidationIssue) (result : Reconciled W) (r : WorkerRecord)
      (workers : Dict WorkerRecord) (p : Result (Unit {0}) × W)
      → (r.snapshot ≡ snap)
      → (result.managed ≡ r.managed_containers)
      → (prev : WorkerRecord)
      → IsStored snap workers
          (finish_upsert settings snap issues result
            (insert snap.worker_id r (insert snap.worker_id prev workers))
            p)
          r
  finish_upsert-IsStored snap issues result r workers (err e, w) hs hm prev = record {
    same_snapshot = hs;
    lookups = λ k. ground (
      arith,
      lookup-insert snap.worker_id k r (insert snap.worker_id prev workers),
      lookup-insert snap.worker_id k prev workers,
    );
    told = λ h. cc;
    told_managed = λ h. cc;
  }
  finish_upsert-IsStored snap issues result r workers (ok u, w) hs hm prev = record {
    same_snapshot = hs;
    lookups = λ k. ground (
      arith,
      lookup-insert snap.worker_id k r (insert snap.worker_id prev workers),
      lookup-insert snap.worker_id k prev workers,
    );
    told = λ h. answer-stored snap issues result.managed result.failure h;
    told_managed = λ h. answer-managed snap issues result.managed result.failure ∙ hm;
  }

  -- The snapshot that Upsert stores: the valid part of what came, with its hash filled in.
  abbrev pub admitted : Snapshot → Snapshot
  admitted snapshot = fill_hash settings (validate_snapshot snapshot).1

  module _ (now₁ now₂ : Instant) where
    persisted_upsert-IsStored :
        (snap : Snapshot) (issues : List ValidationIssue) (prev : WorkerRecord)
        (workers : Dict WorkerRecord) (p : Result (Unit {0}) × W)
        → (prev.snapshot ≡ snap)
        → (r : WorkerRecord) × IsStored snap workers
            (persisted_upsert settings now₂ snap issues (insert snap.worker_id prev workers) p)
            r
    persisted_upsert-IsStored snap issues prev workers (err e, w) h = (
      prev,
      record {
        same_snapshot = h;
        lookups = λ k. lookup-insert snap.worker_id k prev workers;
        told = λ h. cc;
        told_managed = λ h. cc;
      },
    )
    persisted_upsert-IsStored snap issues prev workers (ok u, w) h =
        let result = reconcile_worker settings.api settings.stubs settings.ranges snap w in
        let r : WorkerRecord = record {
          snapshot = snap;
          updated_at = now₂;
          managed_containers = result.managed;
        } in
        (
          r,
          finish_upsert-IsStored snap (issues ++ result.issues) result r workers
              (persist settings r result.world) refl refl prev,
        )

    pub accept-IsStored :
        (snap : Snapshot) (issues : List ValidationIssue) (s : Store W)
        → (r : WorkerRecord) × IsStored snap s.workers (accept settings now₁ now₂ snap issues s) r
    unfolding accept
    accept-IsStored snap issues s =
        let r : WorkerRecord = record {
          snapshot = snap;
          updated_at = now₁;
          managed_containers = managed_of (lookup snap.worker_id s.workers);
        } in
        persisted_upsert-IsStored snap issues r s.workers (persist settings r s.world) refl

    pub Accepts-IsStored :
        (snapshot : Snapshot) (s : Store W)
        → Accepts settings snapshot s
        → (r : WorkerRecord) × IsStored
            (admitted snapshot)
            s.workers
            (upsert settings now₁ now₂ snapshot s)
            r
    unfolding Accepts
    Accepts-IsStored snapshot s h =
        let (r, st) = accept-IsStored (admitted snapshot) (validate_snapshot snapshot).0 s in
        (r, rw (h now₁ now₂) st)

    outcome_of :
        (snapshot : Snapshot) (s : Store W)
        → Refuses settings snapshot s ⊎ (IsAdmitted snapshot s × Accepts settings snapshot s)
        → ((upsert settings now₁ now₂ snapshot s).0 ≡ s)
            × ((e : String) × ((upsert settings now₁ now₂ snapshot s).1.failure ≡ some e))
          ⊎ (IsAdmitted snapshot s
              × ((r : WorkerRecord) × IsStored
                    (admitted snapshot)
                    s.workers
                    (upsert settings now₁ now₂ snapshot s)
                    r))
    unfolding Refuses
    outcome_of snapshot s (inl (e, h)) =
        inl (ap (λ x. x.0) (h now₁ now₂), (e, ap (λ x. x.1.failure) (h now₁ now₂)))
    outcome_of snapshot s (inr (a, h)) = inr (a, Accepts-IsStored snapshot s h)

    -- Upsert either refuses the snapshot with an error and leaves the records, the state directory
    -- and the Docker engine as they were, or it stores the snapshot's valid part as the record of
    -- its worker, and only that record changes; when it then reports no error, its answer is the
    -- snapshot and the stubs of that record.
    pub upsert_outcome :
        (snapshot : Snapshot) (s : Store W)
        → ((upsert settings now₁ now₂ snapshot s).0 ≡ s)
            × ((e : String) × ((upsert settings now₁ now₂ snapshot s).1.failure ≡ some e))
          ⊎ (IsAdmitted snapshot s
              × ((r : WorkerRecord) × IsStored
                    (admitted snapshot)
                    s.workers
                    (upsert settings now₁ now₂ snapshot s)
                    r))
    upsert_outcome snapshot s = outcome_of snapshot s (upsert-cases settings snapshot s)
