-- ===== src/Worker/Retry/Tests.antt =====
-- A worker whose first snapshot the master turns down.
use traefik_connect.Common.{ℕ, String, false, some, [], ◌∷◌, ok, err, ◌≡◌, refl}
use traefik_connect.Receiver.Tests.{web_snapshot}
use traefik_connect.Parse.Tests.{text_urls}
use traefik_connect.Parse.Container.Tests.{in_order, web, built}
use traefik_connect.Api.Tests.{toy_crypto}
use traefik_connect.Worker.{first_backoff, set_error, set_success, listen_port}
use traefik_connect.Worker.Sync.{Agent, sync_once, collect_containers, answered}
use traefik_connect.Worker.Sync.Tests.{worker, calls}
use traefik_connect.Worker.Sync.Consistent.{IsConsistent}
use traefik_connect.Worker.Retry.{succeeded, Tries, sync_with_retry}
use traefik_connect.Worker.Retry.Laws.{Fails, none_yet, one_more, sync_with_retry_live}
use traefik_connect.Worker.Retry.Consistent.{tries, sync_with_retry-IsConsistent}

abbrev patient : Tries ℕ
patient = tries text_urls in_order worker calls toy_crypto (λ backoff w. (false, w))

abbrev fresh : Agent
fresh = record {
  status = record {
    worker_id = "host";
    last_sync_at = 0;
    last_error = "";
    last_hash = "";
    last_containers = 0;
    last_success = false;
  };
  snapshot = record web_snapshot { hash = ""; containers = [] };
}

abbrev refusal : String
refusal = "receiver rejected snapshot: busy"

abbrev refused : Agent
refused = record fresh { status = set_error 5 refusal fresh.status }

abbrev synced : Agent
synced = record {
  status = set_success 5 "h1" 1 refused.status;
  snapshot = record {
    worker_id = "host";
    advertise_addr = "10.0.0.7";
    proxy_port = listen_port (λ s. ok "8090") ":8090";
    captured_at = 5;
    version = "v1";
    hash = "h1";
    containers = web ∷ [];
    decision_notes = [];
  };
}

first_fails : patient.attempt fresh 1 ≡ some (err refusal, (fresh, 0))
unfolding sync_once collect_containers answered
first_fails = rw built refl

second_works : patient.attempt refused 0 ≡ some (ok tt, (synced, 0))
unfolding sync_once collect_containers answered set_success
second_works = rw built refl

fails : Fails patient 1 first_backoff fresh 1 refused 0
fails = one_more refusal first_fails refl none_yet

ended : sync_with_retry patient 2 fresh 1 ≡ some (succeeded, (synced, 0))
ended = sync_with_retry_live patient 0 fails second_works

sync_with_retry_live_example : sync_with_retry patient 2 fresh 1 ≡ some (succeeded, (synced, 0))
sync_with_retry_live_example = sync_with_retry_live patient 0 fails second_works

sync_with_retry-IsConsistent_example : IsConsistent synced
sync_with_retry-IsConsistent_example =
    sync_with_retry-IsConsistent text_urls in_order worker calls toy_crypto
      (λ backoff w. (false, w)) 2 fresh synced 1 0 succeeded (refl, refl) ended
