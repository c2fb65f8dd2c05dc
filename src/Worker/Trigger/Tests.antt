-- ===== src/Worker/Trigger/Tests.antt =====
-- Two events of the Docker engine, and one synchronization for both.
use traefik_connect.Common.{◌≤◌, ◌<◌, some, [], ◌∷◌, ◌≡◌, refl, ◌⊎◌, In, arith}
use traefik_connect.Worker.Trigger.{
  resync_due, docker_event, trigger_taken, capacity, signal, on_event, step, run, run-docker_event,
}

history :
    run
      (resync_due ∷ trigger_taken ∷ docker_event "start" ∷ docker_event "die" ∷ trigger_taken ∷ [])
      0
    ≡ some 0
unfolding run step on_event signal
history = refl

run-docker_event_example :
    (In trigger_taken (docker_event "die" ∷ trigger_taken ∷ []) ⊎ (0 < 0)) × (0 ≤ capacity)
run-docker_event_example =
    run-docker_event (resync_due ∷ trigger_taken ∷ []) (docker_event "die" ∷ trigger_taken ∷ [])
      "start" 0 0 (omega arith) history
