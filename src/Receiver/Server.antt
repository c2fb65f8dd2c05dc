-- ===== src/Receiver/Server.antt =====
-- internal/receiver/server.go: handleSnapshot and handleStatus.
pub mod Laws
pub mod Tests
use Prim.Native.String.{◌++◌}
use traefik_connect.Common.{
  ℕ, String, Bool, not, ◌||◌, Option, none, some, List, ◌==◌, if◌then◌else◌, Result, ok, err, eqb,
  ℤ,
}
use traefik_connect.Model.{Instant, Snapshot, ValidationIssue}
use traefik_connect.Websocket.{Bytes}
use traefik_connect.Api.{Request, Crypto, validate_request}
use traefik_connect.Receiver.Store.{StoreSettings, Store, Upserted, upsert}
use traefik_connect.Receiver.Store.Lifecycle.{Status, statuses}

-- What does not change while the server runs, with json.Unmarshal of a snapshot, and errors.Is for
-- context.DeadlineExceeded, on an error's text.
pub record ServerSettings (W : Type 0) : Type 0 where
  pub store : StoreSettings W
  pub crypto : Crypto
  pub token : String
  pub window : ℤ
  pub max_body_bytes : ℤ
  pub decode : Bytes → Result Snapshot
  pub is_deadline : String → Bool

-- http.Error, api.SnapshotResponse and api.StatusResponse
pub data Reply : Type 0 where
  http_error : ℕ → String → Reply
  accepted : String → String → List String → List ValidationIssue → Reply
  status_list : List Status → Reply

-- The times at which the handler and Upsert read the clock.
pub record Clock : Type 0 where
  pub validated : Instant
  pub stored : Instant
  pub reconciled : Instant

-- A snapshot without a capture time gets that of the request.
pub with_time : Instant → Snapshot → Snapshot
with_time ts snap = if eqb snap.captured_at 0 then record snap { captured_at = ts } else snap

module _ {W : Type 0} (settings : ServerSettings W) where
  pub error_code : String → ℕ
  error_code e =
      if settings.is_deadline e
      then 504
      else if e == "request body too large"
      then 413
      else if (e == "unauthorized" || e == "invalid signature")
          || (e == "missing timestamp" || e == "missing signature")
      then 401
      else 400

  abbrev pub reply_upserted : Store W × Upserted → Store W × Reply
  reply_upserted (s, u) = (s, reply_by u u.failure)
    where
      reply_by : Upserted → Option String → Reply
      reply_by u (some e) = http_error 400 e
      reply_by u none = accepted u.stored.worker_id u.stored.hash u.managed u.issues

  abbrev pub take_snapshot : Clock → Instant → Snapshot → Store W → Store W × Reply
  take_snapshot clock ts snap s =
      let taken = reply_upserted (upsert settings.store clock.stored clock.reconciled snap s) in
      if eqb snap.captured_at ts then taken else (s, http_error 400 "captured_at mismatch")

  abbrev pub take_decoded : Clock → Instant → Result Snapshot → Store W → Store W × Reply
  take_decoded clock ts (err e) s = (s, http_error 400 ("invalid json: " ++ e))
  take_decoded clock ts (ok snap) s = take_snapshot clock ts (with_time ts snap) s

  abbrev pub take_validated : Clock → Result (Bytes × Instant) → Store W → Store W × Reply
  take_validated clock (err e) s = (s, http_error (error_code e) e)
  take_validated clock (ok (body, ts)) s = take_decoded clock ts (settings.decode body) s

  pub handle_snapshot : Clock → Request → Store W → Store W × Reply
  handle_snapshot clock r s =
      let taken =
        take_validated clock
          (validate_request settings.crypto r settings.token settings.window settings.max_body_bytes
            clock.validated)
          s in
      if r.method == "POST" then taken else (s, http_error 405 "method not allowed")

  pub handle_status : Request → Store W → Reply
  handle_status r s =
      if r.method == "GET"
      then status_list (statuses settings.store s)
      else http_error 405 "method not allowed"
