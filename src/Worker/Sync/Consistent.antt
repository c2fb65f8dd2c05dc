-- ===== src/Worker/Sync/Consistent.antt =====
-- internal/worker/agent.go: syncOnce keeps the status and the snapshot of the agent together.
use mathlib.Core.Path.{subst}
use traefik_connect.Common.{
  String, Option, none, some, List, Result, ok, err, ◌≡◌, refl, ap, length, ◌>>=◌,
}
use traefik_connect.Model.{Instant, Snapshot}
use traefik_connect.Config.{AgentConfig}
use traefik_connect.Parse.Backend.{Library}
use traefik_connect.Parse.Container.{Orders}
use traefik_connect.Websocket.{Bytes}
use traefik_connect.Api.{Crypto}
use traefik_connect.Worker.{set_success}
use traefik_connect.Worker.Sync.{
  Calls, Agent, Collected, signed_post, answered, stored, marshalled, hashed, collected, listed,
  collect_containers, unhashed, sync_once,
}

-- The status tells of the snapshot that the agent holds, whatever the last try came to.
abbrev pub IsConsistent : Agent → Type 0
IsConsistent a =
    (a.status.last_hash ≡ a.snapshot.hash)
    × (a.status.last_containers ≡ length a.snapshot.containers)

module _ {U W : Type 0} (lib : Library U) (orders : Orders) (cfg : AgentConfig) (calls : Calls W)
    (crypto : Crypto) (a : Agent) (h : IsConsistent a) where
  stored-IsConsistent :
      (snap : Snapshot) (w : W) (r : Result (Unit {0}))
      → IsConsistent (stored lib orders cfg calls snap w r a).1.0
  unfolding set_success
  stored-IsConsistent snap w (err e) = h
  stored-IsConsistent snap w (ok x) = (refl, refl)

  marshalled-IsConsistent :
      (snap : Snapshot) (w : W) (r : Result Bytes)
      → IsConsistent (marshalled lib orders cfg calls crypto snap w r a).1.0
  marshalled-IsConsistent snap w (err e) = h
  marshalled-IsConsistent snap w (ok body) =
      let (r, w₁) = calls.send (signed_post cfg crypto snap body) w in
      stored-IsConsistent snap w₁ (r >>= answered lib orders cfg calls)

  hashed-IsConsistent :
      (snap : Snapshot) (w : W) (r : Result String)
      → IsConsistent (hashed lib orders cfg calls crypto snap w r a).1.0
  hashed-IsConsistent snap w (err e) = h
  hashed-IsConsistent snap w (ok hash) =
      let named = record snap { hash = hash } in
      marshalled-IsConsistent named w (calls.marshal named)

  abbrev Leaves : Option (Result (Unit {0}) × (Agent × W)) → Type 0
  Leaves o =
      (r : Result (Unit {0})) (a' : Agent) (w' : W) → o ≡ some (r, (a', w')) → IsConsistent a'

  abbrev agent_of : Option (Result (Unit {0}) × (Agent × W)) → Agent
  agent_of none = a
  agent_of (some (r, (a', w'))) = a'

  some-Leaves : (p : Result (Unit {0}) × (Agent × W)) → IsConsistent p.1.0 → Leaves (some p)
  some-Leaves p k r a' w' e = subst IsConsistent (ap agent_of e) k

  collected-Leaves :
      (now : Instant) (c : Collected × W) → Leaves (collected lib orders cfg calls crypto now c a)
  collected-Leaves now (none, w) r a' w' e = cc
  collected-Leaves now (some (err x), w) r a' w' e = some-Leaves (err x, (a, w)) h r a' w' e
  collected-Leaves now (some (ok cs), w) r a' w' e =
      let snap = unhashed lib orders cfg calls now cs in
      some-Leaves (hashed lib orders cfg calls crypto snap w (calls.canonical_hash snap) a)
        (hashed-IsConsistent snap w (calls.canonical_hash snap)) r a' w' e

  listed-Leaves : (l : Result (List String) × W) → Leaves (listed lib orders cfg calls crypto l a)
  listed-Leaves (err x, w) r a' w' e = some-Leaves (err x, (a, w)) h r a' w' e
  listed-Leaves (ok ids, w) r a' w' e =
      collected-Leaves (calls.now w) (collect_containers lib orders cfg calls ids w) r a' w' e

  pub sync_once-IsConsistent :
      (w w' : W) (r : Result (Unit {0})) (a' : Agent)
      → sync_once lib orders cfg calls crypto a w ≡ some (r, (a', w'))
      → IsConsistent a'
  unfolding sync_once
  sync_once-IsConsistent w w' r a' e = listed-Leaves (calls.list_containers w) r a' w' e
