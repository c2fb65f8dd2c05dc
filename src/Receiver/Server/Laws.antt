-- ===== src/Receiver/Server/Laws.antt =====
-- Only an allowed request reaches the store.
use Prim.Native.String.{◌++◌}
use traefik_connect.Common.{
  [], ℕ, String, ◌≡◌, refl, true, ◌==◌, Result, ok, err, eqb, eqb_iff, Bool-cases, inl, inr, ◌⊎◌,
}
use traefik_connect.Model.{Instant, Snapshot}
use traefik_connect.Websocket.{Bytes}
use traefik_connect.Api.{Request, validate_request}
use traefik_connect.Api.Laws.{IsAllowed, validate_request-IsSigned}
use traefik_connect.Receiver.Store.{Store, upsert}
use traefik_connect.Receiver.Server.{
  ServerSettings, Reply, http_error, Clock, error_code, reply_upserted, with_time, take_decoded,
  take_validated, handle_snapshot,
}

module _ {W : Type 0} (settings : ServerSettings W) (clock : Clock) (s : Store W) where
  -- The store is as it was, and the reply is an error.
  pub IsTurnedDown : Store W × Reply → Type 0
  IsTurnedDown result =
      (result.0 ≡ s) × ((code : ℕ) × ((e : String) × (result.1 ≡ http_error code e)))

  -- The request is an allowed POST of a snapshot of the request's time, and the result is that of
  -- Upsert.
  pub record IsTaken (r : Request) (result : Store W × Reply) (body : Bytes) (ts : Instant)
      (snap : Snapshot) : Type 0 where
    pub post : (r.method == "POST") ≡ true
    pub allowed :
        IsAllowed settings.crypto r settings.token settings.window settings.max_body_bytes
          clock.validated body ts
    pub decoded : settings.decode body ≡ ok snap
    pub timely : (with_time ts snap).captured_at ≡ ts
    pub upserted :
        result
        ≡ reply_upserted settings
            (upsert settings.store clock.stored clock.reconciled (with_time ts snap) s)

  Decision : Request → Store W × Reply → Type 0
  Decision r result =
      IsTurnedDown result
      ⊎ ((body : Bytes) × ((ts : Instant) × ((snap : Snapshot) × IsTaken r result body ts snap)))

  decoded-cases :
      (r : Request) (body : Bytes) (ts : Instant) (d : Result Snapshot)
      → (r.method == "POST") ≡ true
      → IsAllowed settings.crypto r settings.token settings.window settings.max_body_bytes
          clock.validated body ts
      → settings.decode body ≡ d
      → Decision r (take_decoded settings clock ts d s)
  unfolding Decision IsTurnedDown
  decoded-cases r body ts (err e) p a h = inl (refl, (400, ("invalid json: " ++ e, refl)))
  decoded-cases r body ts (ok snap) p a h =
      elim (Bool-cases (eqb (with_time ts snap).captured_at ts)) [
        | inl e ↦ inr (
          body,
          (
            ts,
            (
              snap,
              record {
                post = p;
                allowed = a;
                decoded = h;
                timely = (eqb_iff (with_time ts snap).captured_at ts).0 e;
                upserted = rw e refl;
              },
            ),
          ),
        )
        | inr e ↦ inl (rw e (refl, (400, ("captured_at mismatch", refl))))
      ]

  -- An empty body is no snapshot, so that a body that was not read at all is turned down.
  module _ (e : String) (undecodable : settings.decode [] ≡ err e) where
    empty-cases :
        (r : Request) (body : Bytes) (ts : Instant)
        → body ≡ []
        → Decision r (take_decoded settings clock ts (settings.decode body) s)
    unfolding Decision IsTurnedDown
    empty-cases r body ts empty =
        rw (empty, undecodable) (inl (refl, (400, ("invalid json: " ++ e, refl))))

    validated-cases :
        (r : Request) (v : Result (Bytes × Instant))
        → (r.method == "POST") ≡ true
        → validate_request settings.crypto r settings.token settings.window settings.max_body_bytes
            clock.validated
          ≡ v
        → Decision r (take_validated settings clock v s)
    unfolding Decision IsTurnedDown
    validated-cases r (err f) p h = inl (refl, (error_code settings f, (f, refl)))
    validated-cases r (ok (body, ts)) p h =
        let (is_signed, all) =
          validate_request-IsSigned settings.crypto r settings.token settings.window
            settings.max_body_bytes clock.validated body ts h in
        elim all [
          | inl whole ↦
              decoded-cases r body ts (settings.decode body) p
                (record { is_signed = is_signed; whole = whole }) refl
          | inr (_, empty) ↦ empty-cases r body ts empty
        ]

    -- handleSnapshot either answers with an error and leaves the store as it was, or the request is
    -- an allowed POST of a snapshot whose capture time is the signed timestamp, and what happens is
    -- what Upsert does with it. An empty body is no JSON.
    pub handle_snapshot_lem :
        (r : Request)
        → IsTurnedDown (handle_snapshot settings clock r s)
          ⊎ ((body : Bytes) × ((ts : Instant) × ((snap : Snapshot) × IsTaken r
                    (handle_snapshot settings clock r s)
                    body
                    ts
                    snap)))
    unfolding handle_snapshot Decision IsTurnedDown
    handle_snapshot_lem r = elim (Bool-cases (r.method == "POST")) [
      | inl post ↦ rw post (
          validated-cases r
            (validate_request settings.crypto r settings.token settings.window
              settings.max_body_bytes clock.validated)
            post refl)
      | inr other ↦ inl (rw other (refl, (405, ("method not allowed", refl))))
    ]

  -- An allowed POST of a snapshot of the request's time is handed to Upsert.
  pub handle_snapshot-allowed :
      (r : Request) (body : Bytes) (snap : Snapshot)
      → (r.method == "POST") ≡ true
      → validate_request settings.crypto r settings.token settings.window settings.max_body_bytes
          clock.validated
        ≡ ok (body, snap.captured_at)
      → settings.decode body ≡ ok snap
      → handle_snapshot settings clock r s
        ≡ reply_upserted settings (upsert settings.store clock.stored clock.reconciled snap s)
  unfolding handle_snapshot with_time
  handle_snapshot-allowed r body snap post valid decoded =
      let at_time = (eqb_iff snap.captured_at snap.captured_at).1 refl in
      elim (Bool-cases (eqb snap.captured_at 0)) [
        | inl e ↦ rw (post, valid, decoded, e, at_time) refl
        | inr e ↦ rw (post, valid, decoded, e, at_time) refl
      ]

  -- What holds of the store, and of it after any upsert, holds of it after handleSnapshot.
  module _ (P : Store W → Type 0) (kept : P s)
      (upserted : (snap : Snapshot)
        → P (upsert settings.store clock.stored clock.reconciled snap s).0) where
    take_decoded-upsert :
        (ts : Instant) (d : Result Snapshot) → P (take_decoded settings clock ts d s).0
    take_decoded-upsert ts (err e) = kept
    take_decoded-upsert ts (ok snap) = elim (Bool-cases (eqb (with_time ts snap).captured_at ts)) [
      | inl e ↦ rw e (upserted (with_time ts snap))
      | inr e ↦ rw e kept
    ]

    take_validated-upsert : (v : Result (Bytes × Instant)) → P (take_validated settings clock v s).0
    take_validated-upsert (err e) = kept
    take_validated-upsert (ok (body, ts)) = take_decoded-upsert ts (settings.decode body)

    pub handle_snapshot-upsert : (r : Request) → P (handle_snapshot settings clock r s).0
    unfolding handle_snapshot
    handle_snapshot-upsert r = elim (Bool-cases (r.method == "POST")) [
      | inl e ↦ rw e (
          take_validated-upsert (
            validate_request settings.crypto r settings.token settings.window
              settings.max_body_bytes clock.validated))
      | inr e ↦ rw e kept
    ]
