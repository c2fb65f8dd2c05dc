-- ===== src/Receiver/App.antt =====
-- internal/receiver/app.go: NewApp, and what the goroutines that Run starts do to the store: the requests
-- of the HTTP server and the rounds of pruneLoop, in any order. The mutex makes each of them one step.
pub mod Laws
pub mod Tests
use traefik_connect.Common.{String, [], Result, ok, ◌≡◌}
use traefik_connect.Model.{Instant}
use traefik_connect.Api.{Request}
use traefik_connect.Receiver.Store.{StoreSettings, Store}
use traefik_connect.Receiver.Store.Lifecycle.{load, remove_expired}
use traefik_connect.Receiver.Server.{ServerSettings, Clock, handle_snapshot}

-- NewStore, and Load; with an error there is no application.
pub new_app : {W : Type 0} → StoreSettings W → (String → Instant) → W → Store W × Result (Unit {0})
new_app settings clock w = load settings clock (record { workers = []; world = w })

module _ {W : Type 0} (settings : ServerSettings W) where
  -- A round of pruneLoop, whose error is only logged.
  pub prune : Instant → Store W → Store W
  prune = remove_expired settings.store

  -- What happens next: a request to /v1/snapshot, a round of pruneLoop, or a change of the Docker engine
  -- or the disk that is not the program's. A request for the status changes nothing.
  pub data Step : Store W → Store W → Type 0 where
    posted :
        {s : Store W} (clock : Clock) (r : Request) → Step s (handle_snapshot settings clock r s).0
    pruned : {s : Store W} (now : Instant) → Step s (prune now s)
    moved : {s : Store W} (w : W) → Step s (record s { world = w })

  -- The states of an application that has started.
  pub data Reachable : Store W → Type 0 where
    started :
        (clock : String → Instant) (w : W)
        → (new_app settings.store clock w).1 ≡ ok tt
        → Reachable (new_app settings.store clock w).0
    stepped : {s s' : Store W} → Reachable s → Step s s' → Reachable s'
