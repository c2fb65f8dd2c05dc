-- ===== src/Receiver/Store/Refine/Tests.antt =====
-- The board on the example.
use traefik_connect.Common.{arith, ◌≡◌, ◌≢◌, []}
use traefik_connect.Model.{Snapshot}
use traefik_connect.Receiver.Tests.{web_snapshot, web_store_settings, web_store}
use traefik_connect.Receiver.Store.{upsert}
use traefik_connect.Receiver.Store.Refine.{view, submit, upsert_refines, upsert_comm}

upsert_refines_example :
    view (upsert web_store_settings 8 9 web_snapshot web_store).0 "w1"
    ≡ submit web_store_settings web_snapshot (view web_store) "w1"
upsert_refines_example = upsert_refines web_store_settings 8 9 web_snapshot web_store "w1"

-- What the worker sends next.
abbrev next_snapshot : Snapshot
next_snapshot = record web_snapshot { captured_at = 9; containers = [] }

are_apart : web_snapshot.captured_at ≢ next_snapshot.captured_at
are_apart = λ e. omega arith

upsert_comm_example :
    view
      (upsert web_store_settings 10 11 next_snapshot
        (upsert web_store_settings 8 9 web_snapshot web_store).0).0
      "w1"
    ≡ view
        (upsert web_store_settings 10 11 web_snapshot
          (upsert web_store_settings 8 9 next_snapshot web_store).0).0
        "w1"
upsert_comm_example =
    upsert_comm web_store_settings 8 9 10 11 web_snapshot next_snapshot web_store "w1" are_apart
