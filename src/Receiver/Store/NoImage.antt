-- ===== src/Receiver/Store/NoImage.antt =====
-- Upsert where the engine cannot tell the image of the stubs.
use traefik_connect.Common.{
  String, ◌≡◌, refl, ◌∙◌, some, List, [], ◌++◌, eq_refl, lookup, Result, ok, err, insert,
  lookup-insert, Dict,
}
use traefik_connect.Model.{Instant, Snapshot, ValidationIssue}
use traefik_connect.Receiver.Reconcile.{Reconciled, reconcile_worker}
use traefik_connect.Receiver.Reconcile.Settled.{reconcile_worker-no_image}
use traefik_connect.Receiver.Validate.{validate_snapshot}
use traefik_connect.Receiver.Store.Upsert.{IsAdmitted, admitted, upsert_of_IsAdmitted}
use traefik_connect.Receiver.Store.{
  WorkerRecord, StoreSettings, Store, Upserted, managed_of, persist, finish_upsert,
  persisted_upsert, accept, upsert,
}

-- The record of `id` is there, and lists no stub.
abbrev pub HasNoStubs : {W : Type 0} → String → Store W × Upserted → Type 0
HasNoStubs id result =
    (r : WorkerRecord) × ((lookup id result.0.workers ≡ some r) × (r.managed_containers ≡ []))

module _ {W : Type 0} (settings : StoreSettings W) where
  finish_upsert-HasNoStubs :
      (snap : Snapshot) (issues : List ValidationIssue) (result : Reconciled W) (r : WorkerRecord)
      (workers : Dict WorkerRecord) (p : Result (Unit {0}) × W)
      → r.managed_containers ≡ []
      → HasNoStubs snap.worker_id
          (finish_upsert settings snap issues result (insert snap.worker_id r workers) p)
  finish_upsert-HasNoStubs snap issues result r workers (err e, w) h = (
    r,
    (lookup-insert snap.worker_id snap.worker_id r workers ∙ rw (eq_refl snap.worker_id) refl, h),
  )
  finish_upsert-HasNoStubs snap issues result r workers (ok u, w) h = (
    r,
    (lookup-insert snap.worker_id snap.worker_id r workers ∙ rw (eq_refl snap.worker_id) refl, h),
  )

  persisted-HasNoStubs :
      (now : Instant) (snap : Snapshot) (issues : List ValidationIssue)
      (workers : Dict WorkerRecord) (p : Result (Unit {0}) × W) (w : W)
      → p ≡ (ok tt, w)
      → (e : String) × ((w' : W) × (settings.api.inspect_image settings.stubs.stub_image w
            ≡ (err e, w')))
      → HasNoStubs snap.worker_id (persisted_upsert settings now snap issues workers p)
  persisted-HasNoStubs now snap issues workers p w written (e, (w', failed)) =
      let result = reconcile_worker settings.api settings.stubs settings.ranges snap w in
      let r : WorkerRecord = record {
        snapshot = snap;
        updated_at = now;
        managed_containers = result.managed;
      } in
      rw written (
        finish_upsert-HasNoStubs snap (issues ++ result.issues) result r workers
          (persist settings r result.world)
          (reconcile_worker-no_image settings.api settings.stubs settings.ranges snap e w w'
            failed))

  -- If every record can be written and the engine never tells the image of the stubs, then a
  -- snapshot that Upsert admits is recorded with an empty list of stubs, whichever stubs the worker's
  -- earlier record listed.
  pub upsert-HasNoStubs :
      (now₁ now₂ : Instant) (snapshot : Snapshot) (s : Store W)
      → IsAdmitted snapshot s
      → ((r : WorkerRecord) (w : W) → (w' : W) × (persist settings r w ≡ (ok tt, w')))
      → ((w : W)
          → (e : String) × ((w' : W) × (settings.api.inspect_image settings.stubs.stub_image w
                ≡ (err e, w'))))
      → HasNoStubs (admitted settings snapshot).worker_id (upsert settings now₁ now₂ snapshot s)
  unfolding accept
  upsert-HasNoStubs now₁ now₂ snapshot s a writes fails =
      let snap = admitted settings snapshot in
      let r : WorkerRecord = record {
        snapshot = snap;
        updated_at = now₁;
        managed_containers = managed_of (lookup snap.worker_id s.workers);
      } in
      let (w, written) = writes r s.world in
      rw (upsert_of_IsAdmitted settings now₁ now₂ snapshot s a) (
        persisted-HasNoStubs now₂ snap (validate_snapshot snapshot).0
          (insert snap.worker_id r s.workers) (persist settings r s.world) w written (fails w))
