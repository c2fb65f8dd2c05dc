-- ===== src/Receiver/App/Laws.antt =====
-- What holds in every state of the master.
use traefik_connect.Common.{[]}
use traefik_connect.Api.{Request}
use traefik_connect.Receiver.Store.{Store}
use traefik_connect.Receiver.Store.Lifecycle.Fit.{
  AreFit, RangesOver, upsert-AreFit, remove_expired-AreFit, load-AreFit,
}
use traefik_connect.Receiver.Server.{ServerSettings, Clock, handle_snapshot}
use traefik_connect.Receiver.Server.Laws.{handle_snapshot-upsert}
use traefik_connect.Receiver.App.{
  new_app, prune, Step, posted, pruned, moved, Reachable, started, stepped,
}

module _ {W : Type 0} (settings : ServerSettings W) where
  handle_snapshot-AreFit :
      (clock : Clock) (r : Request) (s : Store W)
      → AreFit s
      → AreFit (handle_snapshot settings clock r s).0
  handle_snapshot-AreFit clock r s hs =
      handle_snapshot-upsert settings clock s AreFit hs
        (λ snap. upsert-AreFit settings.store clock.stored clock.reconciled snap s hs) r

  Step-AreFit : {s s' : Store W} → AreFit s → Step settings s s' → AreFit s'
  unfolding prune
  Step-AreFit hs (posted {s = s} clock r) = handle_snapshot-AreFit clock r s hs
  Step-AreFit hs (pruned {s = s} now) = remove_expired-AreFit settings.store now s hs
  Step-AreFit hs (moved w) = hs

  -- In every state that the master can be in, whatever requests it gets, whenever it prunes, and
  -- whatever the Docker engine and the disk do or answer, each record stands under the id of the worker
  -- that its snapshot names, and has the worker's id, an address and a positive proxy port, so that
  -- Load takes it again; if a range over the records visits only records.
  pub Reachable-AreFit :
      RangesOver settings.store.order → {s : Store W} → Reachable settings s → AreFit s
  unfolding new_app
  Reachable-AreFit ranged (started clock w h) =
      load-AreFit settings.store ranged clock (record { workers = []; world = w }) tt
  Reachable-AreFit ranged (stepped r step) = Step-AreFit (Reachable-AreFit ranged r) step
