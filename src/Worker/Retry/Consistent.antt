-- ===== src/Worker/Retry/Consistent.antt =====
-- internal/worker/agent.go: the agent's status and snapshot after a synchronization.
use traefik_connect.Common.{ℕ, String, some, ◌≡◌, Bool}
use traefik_connect.Model.{Instant}
use traefik_connect.Config.{AgentConfig}
use traefik_connect.Parse.Backend.{Library}
use traefik_connect.Parse.Container.{Orders}
use traefik_connect.Api.{Crypto}
use traefik_connect.Worker.{first_backoff, set_error}
use traefik_connect.Worker.Sync.{Calls, Agent, sync_once}
use traefik_connect.Worker.Sync.Consistent.{IsConsistent, sync_once-IsConsistent}
use traefik_connect.Worker.Retry.{Ended, Tries, sync_with_retry}
use traefik_connect.Worker.Retry.Laws.{retry-Kept}

set_error-IsConsistent :
    (a : Agent) (now : Instant) (e : String)
    → IsConsistent a
    → IsConsistent (record a { status = set_error now e a.status })
unfolding set_error
set_error-IsConsistent a now e h = h

module _ {U W : Type 0} (lib : Library U) (orders : Orders) (cfg : AgentConfig) (calls : Calls W)
    (crypto : Crypto) (wait : ℕ → W → Bool × W) where
  abbrev pub tries : Tries W
  tries = record { attempt = sync_once lib orders cfg calls crypto; now = calls.now; wait = wait }

  -- However a synchronization ends, after failed tries or not, the status that the agent reports has
  -- the hash and the number of containers of the snapshot that it serves tunnels from.
  pub sync_with_retry-IsConsistent :
      (fuel : ℕ) (a a' : Agent) (w w' : W) (ended : Ended)
      → IsConsistent a
      → sync_with_retry tries fuel a w ≡ some (ended, (a', w'))
      → IsConsistent a'
  unfolding sync_with_retry
  sync_with_retry-IsConsistent fuel a a' w w' ended h e =
      retry-Kept tries IsConsistent
        (λ a a' w w' r k e. sync_once-IsConsistent lib orders cfg calls crypto a k w w' r a' e)
        set_error-IsConsistent fuel first_backoff a w h ended a' w' e
