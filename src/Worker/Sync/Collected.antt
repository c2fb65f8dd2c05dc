-- ===== src/Worker/Sync/Collected.antt =====
-- internal/worker/agent.go and internal/receiver/store.go: the worker's snapshot at the master.
use traefik_connect.Common.{
  String, ◌≡◌, ◌≢◌, refl, ap, true, Option, none, some, List, [], ◌∷◌, Result, ok, err, All,
}
use traefik_connect.Model.{Instant, ContainerSpec, Snapshot}
use traefik_connect.Dockerx.{ContainerInspect}
use traefik_connect.Config.{AgentConfig}
use traefik_connect.Receiver.Validate.{validate_snapshot, persisted_record_compatible}
use traefik_connect.Receiver.Validate.Laws.{
  IsComplete, HasDistinctIds, validate_snapshot_of_compatible,
}
use traefik_connect.Parse.Backend.{Library}
use traefik_connect.Parse.Container.{
  Exported, exported, not_exported, panicked, Orders, build_container,
}
use traefik_connect.Parse.Container.Complete.{KeepsEntries, build_container-IsComplete}
use traefik_connect.Worker.Sync.{
  Calls, Collected, also, add_exported, add_inspected, unless_canceled, collect_containers,
}

abbrev list_or : List ContainerSpec → Collected → List ContainerSpec
list_or d (some (ok cs)) = cs
list_or d _ = d

collected_injective : {xs ys : List ContainerSpec} → some (ok xs) ≡ some (ok ys) → xs ≡ ys
collected_injective {xs} e = ap (λ o. list_or xs o) e

-- The containers that were collected, if they were, are complete.
abbrev Collects : Collected → Type 0
Collects o = (cs : List ContainerSpec) → o ≡ some (ok cs) → All IsComplete cs

also-Collects :
    (c : ContainerSpec) (o : Collected) → IsComplete c → Collects o → Collects (also c o)
also-Collects c none h k cs e = cc
also-Collects c (some (err x)) h k cs e = cc
also-Collects c (some (ok ds)) h k cs e = rw (← collected_injective e) (h, k ds refl)

add_exported-Collects :
    (e : Exported) (o : Collected)
    → ((c : ContainerSpec) → e ≡ exported c → IsComplete c)
    → Collects o
    → Collects (add_exported e o)
add_exported-Collects (exported c) o h k cs e = also-Collects c o (h c refl) k cs e
add_exported-Collects (not_exported reason) o h k cs e = k cs e
add_exported-Collects panicked o h k cs e = cc

module _ {U W : Type 0} (lib : Library U) (orders : Orders) (keeps : KeepsEntries orders)
    (cfg : AgentConfig) (calls : Calls W)
    (with_ids : (id : String) (w : W) (ins : ContainerInspect)
      → (calls.inspect id w).0 ≡ ok ins
      → ins.id ≢ "") where
  add_inspected-Collects :
      (now : Instant) (r : Result ContainerInspect) (o : Collected)
      → ((ins : ContainerInspect) → r ≡ ok ins → ins.id ≢ "")
      → Collects o
      → Collects (add_inspected lib orders cfg calls now r o)
  add_inspected-Collects now (err e) o h k = k
  add_inspected-Collects now (ok ins) o h k =
      add_exported-Collects (build_container lib orders now ins cfg.advertise_addr) o
        (λ c e.
          build_container-IsComplete lib orders keeps now ins cfg.advertise_addr c (h ins refl) e)
        k

  unless_canceled-Collects :
      (o : Option String) (w : W) (rest : Collected × W)
      → Collects rest.0
      → Collects (unless_canceled o w rest).0
  unless_canceled-Collects none w rest h cs k = h cs k
  unless_canceled-Collects (some e) w rest h cs k = cc

  collect_containers-Collects :
      (ids : List String) (w : W) → Collects (collect_containers lib orders cfg calls ids w).0
  unfolding collect_containers
  collect_containers-Collects [] w cs e = rw (← collected_injective e) tt
  collect_containers-Collects (id ∷ ids) w cs e =
      let (ins, w₁) = calls.inspect id w in
      let (rest, w₂) = collect_containers lib orders cfg calls ids w₁ in
      unless_canceled-Collects (calls.canceled w) w
        (add_inspected lib orders cfg calls (calls.now w₁) ins rest, w₂)
        (add_inspected-Collects (calls.now w₁) ins rest (with_ids id w)
          (collect_containers-Collects ids w₁))
        cs e

  -- A snapshot of the containers that the worker collects passes the master's validation whole and
  -- without an issue, where it names its worker, its address and its port, and its containers'
  -- ids are distinct and not empty.
  pub collect_containers-validate_snapshot :
      (ids : List String) (w : W) (snap : Snapshot)
      → (collect_containers lib orders cfg calls ids w).0 ≡ some (ok snap.containers)
      → HasDistinctIds snap.containers
      → persisted_record_compatible snap ≡ true
      → validate_snapshot snap ≡ ([], snap)
  collect_containers-validate_snapshot ids w snap collected distinct compatible =
      validate_snapshot_of_compatible snap compatible
        (collect_containers-Collects ids w snap.containers collected) distinct
