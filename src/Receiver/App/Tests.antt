-- ===== src/Receiver/App/Tests.antt =====
-- A master with no state, one snapshot later.
use traefik_connect.Common.{String, List, [], ok, ◌≡◌, refl}
use traefik_connect.Api.Tests.{signed_request}
use traefik_connect.Receiver.Store.{Store}
use traefik_connect.Receiver.Store.Lifecycle.Laws.{load-ok}
use traefik_connect.Receiver.Store.Lifecycle.Fit.{AreFit, RangesOver}
use traefik_connect.Receiver.Server.{handle_snapshot}
use traefik_connect.Receiver.Server.Tests.{web_server, times}
use traefik_connect.Receiver.App.{new_app, prune, posted, pruned, Reachable, started, stepped}
use traefik_connect.Receiver.App.Laws.{Reachable-AreFit}

abbrev first_store : Store (List String)
first_store = (new_app web_server.store (λ k. 1) []).0

loaded : (new_app web_server.store (λ k. 1) []).1 ≡ ok tt
unfolding new_app
loaded = load-ok web_server.store (λ k. 1) (record { workers = []; world = [] }) [] [] [] refl refl

abbrev later_store : Store (List String)
later_store = prune web_server 9 (handle_snapshot web_server times signed_request first_store).0

reached : Reachable web_server later_store
reached = stepped (stepped (started (λ k. 1) [] loaded) (posted times signed_request)) (pruned 9)

in_range : RangesOver web_server.store.order
in_range m e h = h

Reachable-AreFit_example : AreFit later_store
Reachable-AreFit_example = Reachable-AreFit web_server in_range reached
