-- ===== src/Receiver/Store/Tests.antt =====
-- The store on the example.
use traefik_connect.Common.{◌∷◌, List, ok, err, String, ◌≡◌, refl, some, [], lookup, ◌⊎◌}
use traefik_connect.Receiver.Store.NoImage.{HasNoStubs, upsert-HasNoStubs}
use traefik_connect.Receiver.Validate.Tests.{faultless, kept_id, kept_time}
use traefik_connect.Receiver.Tests.{engine, web_snapshot, web_store_settings, web_store}
use traefik_connect.Receiver.Validate.{validate_snapshot}
use traefik_connect.Receiver.Store.{StoreSettings, Store, persist, WorkerRecord, rejected, upsert}
use traefik_connect.Receiver.Store.Upsert.{IsAdmitted, IsStored, admitted, upsert_outcome}
use traefik_connect.Receiver.Store.Replay.{Upload, upsert_all, upsert_replay}
use traefik_connect.Receiver.Store.Lifecycle.{remove_expired}
use traefik_connect.Receiver.Store.Lifecycle.Laws.{IsRange, surviving, lookup-remove_expired}

ranged : IsRange web_store.workers web_store.workers
unfolding lookup
ranged = record { distinct = (refl, tt); same = λ k. refl }

upsert_outcome_example :
    ((upsert web_store_settings 8 9 web_snapshot web_store).0 ≡ web_store)
      × ((e : String) × ((upsert web_store_settings 8 9 web_snapshot web_store).1.failure ≡ some e))
    ⊎ (IsAdmitted web_snapshot web_store
        × ((r : WorkerRecord) × IsStored
              (admitted web_store_settings web_snapshot)
              web_store.workers
              (upsert web_store_settings 8 9 web_snapshot web_store)
              r))
upsert_outcome_example = upsert_outcome web_store_settings 8 9 web_snapshot web_store

-- A later snapshot of the same worker.
abbrev next_upload : Upload
next_upload = record {
  stored = 9;
  reconciled = 10;
  snapshot = record web_snapshot { captured_at = 9 };
}

abbrev later_store : Store (List String)
later_store =
    upsert_all web_store_settings (next_upload ∷ [])
      (upsert web_store_settings 8 9 web_snapshot web_store).0

upsert_replay_example :
    (e : String) × (upsert web_store_settings 10 11 web_snapshot later_store
      ≡ (later_store, rejected (validate_snapshot web_snapshot).0 [] e))
upsert_replay_example =
    upsert_replay web_store_settings 8 9 10 11 web_snapshot (next_upload ∷ []) web_store

lookup-remove_expired_example :
    lookup "w1" (remove_expired web_store_settings 30 web_store).workers
    ≡ surviving web_store_settings 30 web_store_settings.ttl (lookup "w1" web_store.workers)
lookup-remove_expired_example = lookup-remove_expired web_store_settings 30 web_store "w1" ranged

-- The engine has lost the image of the stubs.
abbrev imageless : StoreSettings (List String)
imageless = record web_store_settings {
  api = record engine { inspect_image = λ name w. (err "no such image", w) };
}

is_admitted : IsAdmitted web_snapshot web_store
unfolding lookup
is_admitted = record {
  has_id = rw kept_id refl;
  has_meta = faultless;
  is_new = rw (kept_id, kept_time) refl;
}

written :
    (r : WorkerRecord) (w : List String)
    → (w' : List String) × (persist imageless r w ≡ (ok tt, w'))
unfolding persist
written r w = (w, refl)

upsert-HasNoStubs_example :
    HasNoStubs
      (admitted imageless web_snapshot).worker_id
      (upsert imageless 8 9 web_snapshot web_store)
upsert-HasNoStubs_example =
    upsert-HasNoStubs imageless 8 9 web_snapshot web_store is_admitted written
      (λ w. ("no such image", (w, refl)))
