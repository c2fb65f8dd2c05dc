-- ===== src/Receiver/Reconcile/Settled.antt =====
-- Reconciling a worker whose stubs are all as they should be changes nothing.
use traefik_connect.Common.{
  ◌+◌, String, ◌≡◌, ◌≢◌, refl, ◌∙◌, ap, true, false, not, ◌&&◌, Option, none, some, List, [], ◌∷◌,
  ◌++◌, All, length, length-append, Dict, lookup, keys, Result, ok, err, arith, is_some, is_empty,
  append_assoc, append-nil, ◌==◌, ==-false, Bool-cases, inl, inr, ok-injective,
}
use traefik_connect.Model.{Snapshot}
use traefik_connect.Dockerx.{ContainerCreateRequest}
use traefik_connect.Receiver.World.{World}
use traefik_connect.Receiver.Stubs.{StubSpec, StubSettings}
use traefik_connect.Receiver.Stubs.Build.{built, build_desired_stubs}
use traefik_connect.Receiver.Reconcile.{
  ManagedContainer, is_current, Ranges, Progress, by_name, list_managed_containers,
  create_stub_container, note_created, with_created, start_created, or_undo, create_request,
  reconcile_spec, reconcile_specs, remove_stale, reconcile_worker,
}

-- The stub `name` exists as `spec` wants it.
abbrev pub StandsIn : Dict ManagedContainer → String × StubSpec → Type 0
StandsIn existing (name, spec) =
    (current : ManagedContainer) × (lookup name existing ≡ some current)
    × (is_current current spec ≡ true)

module _ {W : Type 0} (api : World W) where
  reconcile_specs_settled :
      (network worker_id : String) (existing : Dict ManagedContainer) (specs : Dict StubSpec)
      (p : Progress W)
      → All (StandsIn existing) specs
      → reconcile_specs api network worker_id existing specs p
        ≡ record p { managed = p.managed ++ keys specs }
  unfolding reconcile_specs reconcile_spec
  reconcile_specs_settled network worker_id existing [] p h = rw (append-nil p.managed)
  reconcile_specs_settled network worker_id existing ((name, spec) ∷ specs) p
        ((current, found, same), h) =
      let next = record p { managed = p.managed ++ name ∷ [] } in
      rw (found, same)
        (reconcile_specs_settled network worker_id existing specs next h
          ∙ ap (λ m. record p { managed = m }) (append_assoc p.managed (name ∷ []) (keys specs)))

  pub reconcile_worker-no_image :
      (settings : StubSettings) (ranges : Ranges) (snap : Snapshot) (e : String) (w w' : W)
      → api.inspect_image settings.stub_image w ≡ (err e, w')
      → (reconcile_worker api settings ranges snap w).managed ≡ []
  unfolding reconcile_worker
  reconcile_worker-no_image settings ranges snap e w w' h = rw h refl

  remove_stale_settled :
      (desired : Dict StubSpec) (existing : Dict ManagedContainer) (w : W)
      → All (λ e. is_some (lookup e.0 desired) ≡ true) existing
      → remove_stale api desired existing w ≡ w
  unfolding remove_stale
  remove_stale_settled desired [] w h = refl
  remove_stale_settled desired ((name, current) ∷ existing) w (d, h) =
      rw d (remove_stale_settled desired existing w h)

  conclude_settled :
      (names : List String) (desired : Dict StubSpec)
      → length names ≡ length desired
      → (is_empty names && not (is_empty desired)) ≡ false
  conclude_settled [] [] e = refl
  conclude_settled [] (d ∷ desired) e = absurd (omega arith)
  conclude_settled (n ∷ names) desired e = refl

  -- Where the stub image is there, the managed containers can be listed, each desired stub exists as it
  -- should be and each existing one is desired, reconciliation asks no more of the world than those
  -- two questions, and returns the names of the desired stubs, with no issue and no error.
  pub reconcile_worker_settled :
      (settings : StubSettings) (ranges : Ranges) (snap : Snapshot) (image_id : String)
      (specs : List StubSpec) (existing : Dict ManagedContainer) (w w₁ w₂ : W)
      → api.inspect_image settings.stub_image w ≡ (ok image_id, w₁)
      → build_desired_stubs settings snap image_id ≡ built specs
      → list_managed_containers api snap.worker_id w₁ ≡ (ok existing, w₂)
      → length (keys (ranges.specs (by_name specs []))) ≡ length (by_name specs [])
      → All (StandsIn existing) (ranges.specs (by_name specs []))
      → All (λ e. is_some (lookup e.0 (by_name specs [])) ≡ true) (ranges.existing existing)
      → reconcile_worker api settings ranges snap w ≡ record {
        managed = keys (ranges.specs (by_name specs []));
        issues = [];
        failure = none;
        world = w₂;
      }
  unfolding reconcile_worker
  reconcile_worker_settled settings ranges snap image_id specs existing w w₁ w₂ image desired listed
        size stand wanted =
      let d = by_name specs [] in
      let e =
        reconcile_specs_settled settings.docker_network snap.worker_id existing (ranges.specs d)
          (record { managed = []; issues = []; world = w₂ }) stand in
      rw
        (
          image,
          desired,
          listed,
          e,
          remove_stale_settled d (ranges.existing existing) w₂ wanted,
          conclude_settled (keys (ranges.specs d)) d size,
        )
        refl

  -- Every stub that is desired is accounted for.
  note_created_count :
      (worker_id name : String) (spec : StubSpec) (p : Progress W) (r : Result String × W)
      → r.0 ≢ ok ""
      → length (note_created api worker_id name spec p r).managed
          + length (note_created api worker_id name spec p r).issues
        ≡ length p.managed + length p.issues + 1
  note_created_count worker_id name spec p (err e, w) h = omega (arith, length-append {0} p.issues)
  note_created_count worker_id name spec p (ok id, w) h =
      let named = ==-false id "" (λ e. h (ap ok e)) in
      rw named (omega (arith, length-append {0} p.managed))

-- The Docker engine never answers a create request with an empty id.
abbrev pub NamesCreated : {W : Type 0} → World W → Type 0
NamesCreated {W} api =
    (name : String) (req : ContainerCreateRequest) (w : W)
    → (api.create_container name req w).0 ≢ ok ""

module _ {W : Type 0} (api : World W) (named : NamesCreated api) where
  start_created-ne-empty : (id : String) (w : W) → id ≢ "" → (start_created api id w).0 ≢ ok ""
  start_created-ne-empty id w h = undo_start id (api.start_container id w) h
    where
      undo_start :
          (id : String) (r : Result (Unit {0}) × W)
          → id ≢ ""
          → (or_undo api id (λ w'. (ok id, w')) r).0 ≢ ok ""
      undo_start id (ok x, w) h e = h (ok-injective e)
      undo_start id (err x, w) h e = cc e

  undo_connect-ne-empty :
      (id : String) (r : Result (Unit {0}) × W)
      → id ≢ ""
      → (or_undo api id (start_created api id) r).0 ≢ ok ""
  undo_connect-ne-empty id (ok x, w) h = start_created-ne-empty id w h
  undo_connect-ne-empty id (err x, w) h = λ e. cc e

  with_created-ne-empty :
      (network : String) (r : Result String × W)
      → r.0 ≢ ok ""
      → (with_created api network r).0 ≢ ok ""
  with_created-ne-empty network (err e, w) h = λ q. cc q
  with_created-ne-empty network (ok id, w) h =
      let n = λ (e : id ≡ ""). h (ap ok e) in
      elim (Bool-cases (network == "")) [
        | inl e ↦ rw e (start_created-ne-empty id w n)
        | inr e ↦ rw e (undo_connect-ne-empty id (api.connect_network network id w) n)
      ]

  create_stub_container-ne-empty :
      (network : String) (spec : StubSpec) (w : W)
      → (create_stub_container api network spec w).0 ≢ ok ""
  unfolding create_stub_container
  create_stub_container-ne-empty network spec w =
      with_created-ne-empty network _ (named spec.name (create_request spec) w)

  reconcile_spec_count :
      (network worker_id name : String) (spec : StubSpec) (o : Option ManagedContainer)
      (p : Progress W)
      → length (reconcile_spec api network worker_id name spec o p).managed
          + length (reconcile_spec api network worker_id name spec o p).issues
        ≡ length p.managed + length p.issues + 1
  unfolding reconcile_spec
  reconcile_spec_count network worker_id name spec none p =
      note_created_count api worker_id name spec p _
        (create_stub_container-ne-empty network spec p.world)
  reconcile_spec_count network worker_id name spec (some current) p =
      elim (Bool-cases (is_current current spec)) [
        | inl e ↦ rw e (omega (arith, length-append {0} p.managed))
        | inr e ↦ rw e (
            note_created_count api worker_id name spec p _ (
              create_stub_container-ne-empty network spec
                (api.remove_container current.id p.world).1))
      ]

  -- Each desired stub ends among the managed names or in an issue: the loop adds as many of the two
  -- together as there are desired stubs, whatever fails on the way.
  reconcile_specs_count :
      (network worker_id : String) (existing : Dict ManagedContainer) (specs : Dict StubSpec)
      (p : Progress W)
      → length (reconcile_specs api network worker_id existing specs p).managed
          + length (reconcile_specs api network worker_id existing specs p).issues
        ≡ length p.managed + length p.issues + length specs
  unfolding reconcile_specs
  reconcile_specs_count network worker_id existing [] p = omega arith
  reconcile_specs_count network worker_id existing ((name, spec) ∷ specs) p = omega (
    arith,
    reconcile_spec_count network worker_id name spec (lookup name existing) p,
    reconcile_specs_count network worker_id existing specs
        (reconcile_spec api network worker_id name spec (lookup name existing) p),
  )
