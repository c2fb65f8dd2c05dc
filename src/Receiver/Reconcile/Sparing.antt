-- ===== src/Receiver/Reconcile/Sparing.antt =====
-- What reconciliation leaves alone: of the containers that were there it removes only those that the
-- engine reports as managed for the worker.
use mathlib.Core.Path.{subst}
use traefik_connect.Common.{
  or_zero, String, ◌≡◌, refl, true, Option, none, some, List, [], ◌∷◌, All, Dict, lookup, insert,
  Result, ok, err, is_some, ◌==◌, Bool-cases, inl, inr, trim_prefix, ap, ok-injective,
}
use traefik_connect.Model.{Snapshot}
use traefik_connect.Dockerx.{ContainerInspect, ContainerCreateRequest}
use traefik_connect.Receiver.World.{World}
use traefik_connect.Receiver.Stubs.{StubSpec, StubSettings}
use traefik_connect.Receiver.Stubs.Build.{Desired, built, refused, build_desired_stubs}
use traefik_connect.Receiver.Reconcile.{
  ManagedContainer, is_current, is_managed_by, to_managed, add_managed, Ranges, Progress, by_name,
  list_managed_from, list_managed_containers, with_summaries, or_undo, start_created, with_created,
  create_stub_container, create_request, note_created, reconcile_spec, reconcile_specs,
  remove_stale, with_existing, with_desired, with_image, reconcile_worker,
}

-- `P` survives every operation, provided that only containers in `Mine` are removed. What is in
-- `Mine` is what the engine created just now, and what it reports as managed for the worker.
pub record Survives {W : Type 0} (api : World W) (worker_id : String) (Mine : String → Type 0)
    (P : W → Type 0) : Type 0 where
  pub image : (name : String) (w : W) → P w → P (api.inspect_image name w).1
  pub list : (w : W) → P w → P (api.list_containers w).1
  pub inspect : (id : String) (w : W) → P w → P (api.inspect_container id w).1
  pub reported :
      (id : String) (w : W) (ins : ContainerInspect)
      → (api.inspect_container id w).0 ≡ ok ins
      → is_managed_by worker_id ins ≡ true
      → Mine ins.id
  pub create :
      (name : String) (req : ContainerCreateRequest) (w : W)
      → P w
      → P (api.create_container name req w).1
  pub created :
      (name : String) (req : ContainerCreateRequest) (w : W) (id : String)
      → (api.create_container name req w).0 ≡ ok id
      → Mine id
  pub connect : (network id : String) (w : W) → P w → P (api.connect_network network id w).1
  pub start : (id : String) (w : W) → P w → P (api.start_container id w).1
  pub remove : (id : String) (w : W) → Mine id → P w → P (api.remove_container id w).1

module _ {W : Type 0} (api : World W) (worker_id : String) {Mine : String → Type 0} {P : W → Type 0}
    (sv : Survives api worker_id Mine P) where
  abbrev AreMine : Dict ManagedContainer → Type 0
  AreMine = All (λ e. Mine e.1.id)

  insert-AreMine :
      (k : String) (c : ManagedContainer) (m : Dict ManagedContainer)
      → Mine c.id
      → AreMine m
      → AreMine (insert k c m)
  unfolding insert
  insert-AreMine k c [] h hs = (h, tt)
  insert-AreMine k c ((j, d) ∷ m) h (hd, hs) = elim (Bool-cases (j == k)) [
    | inl e ↦ rw e (h, hs)
    | inr e ↦ rw e (hd, insert-AreMine k c m h hs)
  ]

  lookup-AreMine :
      (k : String) (m : Dict ManagedContainer) (c : ManagedContainer)
      → AreMine m
      → lookup k m ≡ some c
      → Mine c.id
  unfolding lookup
  lookup-AreMine k [] c hs e = cc e
  lookup-AreMine k ((j, d) ∷ m) c (h, hs) e = elim (Bool-cases (j == k)) [
    | inl q ↦
        let same : d ≡ c = ap (or_zero d) (rw q at e) in
        subst (λ (x : ManagedContainer). Mine x.id) same h
    | inr q ↦ lookup-AreMine k m c hs (rw q at e)
  ]

  add_managed-AreMine :
      (r : Result ContainerInspect) (out : Dict ManagedContainer)
      → ((ins : ContainerInspect) → r ≡ ok ins → is_managed_by worker_id ins ≡ true → Mine ins.id)
      → AreMine out
      → AreMine (add_managed worker_id r out)
  unfolding add_managed to_managed
  add_managed-AreMine (err e) out h hs = hs
  add_managed-AreMine (ok ins) out h hs = elim (Bool-cases (is_managed_by worker_id ins)) [
    | inl e ↦
        rw e (insert-AreMine (trim_prefix ins.name "/") (to_managed ins) out (h ins refl e) hs)
    | inr e ↦ rw e hs
  ]

  list_managed_from_lem :
      (ids : List String) (out : Dict ManagedContainer) (w : W)
      → AreMine out
      → P w
      → AreMine (list_managed_from api worker_id ids out w).0
        × P (list_managed_from api worker_id ids out w).1
  unfolding list_managed_from
  list_managed_from_lem [] out w hs p = (hs, p)
  list_managed_from_lem (id ∷ ids) out w hs p =
      list_managed_from_lem ids (add_managed worker_id (api.inspect_container id w).0 out)
        (api.inspect_container id w).1
        (add_managed-AreMine (api.inspect_container id w).0 out (sv.reported id w) hs)
        (sv.inspect id w p)

  with_summaries_lem :
      (r : Result (List String) × W)
      → P r.1
      → ((m : Dict ManagedContainer) → (with_summaries api worker_id r).0 ≡ ok m → AreMine m)
        × P (with_summaries api worker_id r).1
  with_summaries_lem (err e, w) p = (λ m h. cc h, p)
  with_summaries_lem (ok ids, w) p =
      let (mine, kept) = list_managed_from_lem ids [] w tt p in
      (λ m h. subst AreMine (ok-injective h) mine, kept)

  or_undo_lem :
      (id : String) (next : W → Result String × W) (r : Result (Unit {0}) × W)
      → Mine id
      → ((w : W) → P w → P (next w).1)
      → P r.1
      → P (or_undo api id next r).1
  or_undo_lem id next (ok x, w) m n p = n w p
  or_undo_lem id next (err x, w) m n p = sv.remove id w m p

  start_created_lem : (id : String) (w : W) → Mine id → P w → P (start_created api id w).1
  start_created_lem id w m p =
      or_undo_lem id (λ w'. (ok id, w')) (api.start_container id w) m (λ w' q. q) (sv.start id w p)

  with_created_lem :
      (network : String) (r : Result String × W)
      → ((id : String) → r.0 ≡ ok id → Mine id)
      → P r.1
      → P (with_created api network r).1
  with_created_lem network (err e, w) m p = p
  with_created_lem network (ok id, w) m p = elim (Bool-cases (network == "")) [
    | inl e ↦ rw e (start_created_lem id w (m id refl) p)
    | inr e ↦ rw e (
        or_undo_lem id (start_created api id) (api.connect_network network id w) (m id refl)
          (λ w' q. start_created_lem id w' (m id refl) q) (sv.connect network id w p))
  ]

  create_stub_container_lem :
      (network : String) (spec : StubSpec) (w : W)
      → P w
      → P (create_stub_container api network spec w).1
  unfolding create_stub_container
  create_stub_container_lem network spec w p =
      with_created_lem network (api.create_container spec.name (create_request spec) w)
        (sv.created spec.name (create_request spec) w)
        (sv.create spec.name (create_request spec) w p)

  note_created_lem :
      (name : String) (spec : StubSpec) (p : Progress W) (r : Result String × W)
      → P r.1
      → P (note_created api worker_id name spec p r).world
  note_created_lem name spec p (err e, w) q = q
  note_created_lem name spec p (ok id, w) q = q

  reconcile_spec_lem :
      (network name : String) (spec : StubSpec) (o : Option ManagedContainer) (p : Progress W)
      → ((c : ManagedContainer) → o ≡ some c → Mine c.id)
      → P p.world
      → P (reconcile_spec api network worker_id name spec o p).world
  unfolding reconcile_spec
  reconcile_spec_lem network name spec none p m q =
      note_created_lem name spec p _ (create_stub_container_lem network spec p.world q)
  reconcile_spec_lem network name spec (some c) p m q =
      let w = (api.remove_container c.id p.world).1 in
      elim (Bool-cases (is_current c spec)) [
        | inl e ↦ rw e q
        | inr e ↦ rw e (
            note_created_lem name spec p _
              (create_stub_container_lem network spec w (sv.remove c.id p.world (m c refl) q)))
      ]

  reconcile_specs_lem :
      (network : String) (existing : Dict ManagedContainer) (specs : Dict StubSpec) (p : Progress W)
      → AreMine existing
      → P p.world
      → P (reconcile_specs api network worker_id existing specs p).world
  unfolding reconcile_specs
  reconcile_specs_lem network existing [] p m q = q
  reconcile_specs_lem network existing ((name, spec) ∷ specs) p m q =
      reconcile_specs_lem network existing specs
        (reconcile_spec api network worker_id name spec (lookup name existing) p) m
        (reconcile_spec_lem network name spec (lookup name existing) p
          (λ c e. lookup-AreMine name existing c m e) q)

  remove_stale_lem :
      (desired : Dict StubSpec) (existing : Dict ManagedContainer) (w : W)
      → AreMine existing
      → P w
      → P (remove_stale api desired existing w)
  unfolding remove_stale
  remove_stale_lem desired [] w m p = p
  remove_stale_lem desired ((name, c) ∷ existing) w (m, ms) p =
      elim (Bool-cases (is_some (lookup name desired))) [
        | inl e ↦ rw e (remove_stale_lem desired existing w ms p)
        | inr e ↦ rw e (
            remove_stale_lem desired existing (api.remove_container c.id w).1 ms
              (sv.remove c.id w m p))
      ]

module _ {W : Type 0} (api : World W) {Mine : String → Type 0} {P : W → Type 0}
    (settings : StubSettings) (ranges : Ranges) (snap : Snapshot)
    (sv : Survives api snap.worker_id Mine P)
    (kept : (m : Dict ManagedContainer)
      → All (λ e. Mine e.1.id) m
      → All (λ e. Mine e.1.id) (ranges.existing m)) where
  with_existing_lem :
      (desired : Dict StubSpec) (r : Result (Dict ManagedContainer) × W)
      → ((m : Dict ManagedContainer) → r.0 ≡ ok m → All (λ e. Mine e.1.id) m)
      → P r.1
      → P (with_existing api settings ranges snap desired r).world
  with_existing_lem desired (err e, w) m p = p
  with_existing_lem desired (ok existing, w) m p =
      let mine = m existing refl in
      remove_stale_lem api snap.worker_id sv desired (ranges.existing existing) _
        (kept existing mine)
        (reconcile_specs_lem api snap.worker_id sv settings.docker_network existing
          (ranges.specs desired) _ mine p)

  with_desired_lem :
      (d : Desired) (w : W) → P w → P (with_desired api settings ranges snap d w).world
  unfolding list_managed_containers
  with_desired_lem (refused issues e) w p = p
  with_desired_lem (built specs) w p =
      let (mine, p') =
        with_summaries_lem api snap.worker_id sv (api.list_containers w) (sv.list w p) in
      with_existing_lem (by_name specs []) _ mine p'

  with_image_lem : (r : Result String × W) → P r.1 → P (with_image api settings ranges snap r).world
  with_image_lem (err e, w) p = p
  with_image_lem (ok image_id, w) p =
      with_desired_lem (build_desired_stubs settings snap image_id) w p

  -- Whatever the engine answers, reconciliation keeps every property of the world that reading, and
  -- creating and starting containers keep, and that removing a container keeps where the container was
  -- just created or is reported as managed for the worker.
  pub reconcile_worker-survives :
      (w : W) → P w → P (reconcile_worker api settings ranges snap w).world
  unfolding reconcile_worker
  reconcile_worker-survives w p =
      with_image_lem (api.inspect_image settings.stub_image w) (sv.image settings.stub_image w p)
