-- ===== src/Receiver/Stubs/Build/Laws.antt =====
-- Which services get a stub, and that each stub is marked.
use mathlib.Core.Bool.{not-not}
use mathlib.Core.Path.{fun_ext, ap₂}
use mathlib.Core.List.{map-append, Perm}
use mathlib.Core.List.Perm
use traefik_connect.Common.Sort.Laws.{IsSorted, sort_by-IsSorted, sort_by-perm, sort_by-All}
use traefik_connect.Common.{
  at_or, String, ◌≡◌, ◌≢◌, refl, ◌∙◌, sym, ap, Bool, false, not, ◌&&◌, List, [], ◌∷◌, ◌++◌, map,
  All, All-append, Dict, lookup, insert, lookup-insert, ok, err, ok-injective, Result, >>=-eq-ok,
  arith, Bool-cases, inl, inr, eq_iff, eq_refl, is_empty, ◌==◌, keep_if, any, if◌then◌else◌,
  append_assoc, append-nil, sort_by, ==-false,
}
use traefik_connect.Model.{zero_router, RouterSpec, ContainerSpec, Snapshot}
use traefik_connect.Receiver.Stubs.{
  StubSpec, StubSettings, add_router, sorted_keys, group_routers, build_stub,
}
use traefik_connect.Receiver.Stubs.Laws.{IsMarked, build_stub-IsMarked, build_stub-service_name}
use traefik_connect.Receiver.Stubs.Build.{
  service_stubs, container_stubs, all_stubs, Desired, built, refused, sorted_specs,
  build_desired_stubs,
}

-- The router `name` sends its requests to `service`.
abbrev pub serves : Dict RouterSpec → String → String → Bool
serves routers service name = (at_or zero_router routers name).service == service

add_router_new :
    (r name service : String) (acc : Dict (List String))
    → (r == "") ≡ false
    → at_or [] (insert r (at_or [] acc r ++ name ∷ []) acc) service
      ≡ at_or [] acc service ++ (if r == service then name ∷ [] else [])
add_router_new r name service acc e = elim (Bool-cases (r == service)) [
  | inl same ↦
      rw
        (
          lookup-insert r service (at_or [] acc r ++ name ∷ []) acc,
          (eq_iff r service).0 same,
          eq_refl service,
        )
        refl
  | inr other ↦
      rw (lookup-insert r service (at_or [] acc r ++ name ∷ []) acc, other) (sym (append-nil _))
]

add_router_lem :
    (r name service : String) (acc : Dict (List String))
    → service ≢ ""
    → at_or [] (add_router r name acc) service
      ≡ at_or [] acc service ++ (if r == service then name ∷ [] else [])
unfolding add_router
add_router_lem r name service acc ne = elim (Bool-cases (r == "")) [
  | inl e ↦
      let other = ==-false r service (λ q. ne (sym q ∙ (eq_iff r "").0 e)) in
      rw (e, other) (sym (append-nil _))
  | inr e ↦ rw e (add_router_new r name service acc e)
]

append-keep_if :
    (p : String → Bool) (front : List String) (x : String) (xs : List String)
    → (front ++ (if p x then x ∷ [] else [])) ++ keep_if p xs ≡ front ++ keep_if p (x ∷ xs)
append-keep_if p front x xs = elim (Bool-cases (p x)) [
  | inl e ↦ rw (e, append_assoc front (x ∷ []) (keep_if p xs))
  | inr e ↦ rw (e, append-nil front)
]

-- The grouping holds, for each service, the routers that name it, in their order.
group_routers_lem :
    (routers : Dict RouterSpec) (names : List String) (acc : Dict (List String)) (service : String)
    → service ≢ ""
    → at_or [] (group_routers routers names acc) service
      ≡ at_or [] acc service ++ keep_if (serves routers service) names
unfolding group_routers
group_routers_lem routers [] acc service ne = sym (append-nil _)
group_routers_lem routers (name ∷ names) acc service ne =
    let r = (at_or zero_router routers name).service in
    group_routers_lem routers names (add_router r name acc) service ne
    ∙ ap (λ front. front ++ keep_if (serves routers service) names)
        (add_router_lem r name service acc ne)
    ∙ append-keep_if (serves routers service) (at_or [] acc service) name names

group_routers_empty :
    (routers : Dict RouterSpec) (names : List String) (acc : Dict (List String))
    → at_or [] (group_routers routers names acc) "" ≡ at_or [] acc ""
unfolding group_routers add_router
group_routers_empty routers [] acc = refl
group_routers_empty routers (name ∷ names) acc =
    let r = (at_or zero_router routers name).service in
    elim (Bool-cases (r == "")) [
      | inl e ↦ rw e (group_routers_empty routers names acc)
      | inr e ↦
          let grown = insert r (at_or [] acc r ++ name ∷ []) acc in
          rw e (
            group_routers_empty routers names grown
            ∙ rw (lookup-insert r "" (at_or [] acc r ++ name ∷ []) acc, e) refl)
    ]

is_empty-keep_if : (p : String → Bool) (xs : List String) → is_empty (keep_if p xs) ≡ not (any p xs)
is_empty-keep_if p [] = refl
is_empty-keep_if p (x ∷ xs) = ground (arith, is_empty-keep_if p xs)

-- Some router of the container sends its requests to the service, which has a name.
abbrev pub is_routed : ContainerSpec → String → Bool
is_routed c service = not (service == "") && any (serves c.routers service) (sorted_keys c.routers)

grouped-is_routed :
    (c : ContainerSpec) (service : String)
    → is_empty (at_or [] (group_routers c.routers (sorted_keys c.routers) []) service)
      ≡ not (is_routed c service)
unfolding lookup
grouped-is_routed c service = elim (Bool-cases (service == "")) [
  | inl e ↦
      rw (e, (eq_iff service "").0 e, group_routers_empty c.routers (sorted_keys c.routers) []) refl
  | inr e ↦
      rw
        (
          e,
          group_routers_lem c.routers (sorted_keys c.routers) [] service
              (λ q. ground (arith, eq_iff service "")),
        )
        (is_empty-keep_if (serves c.routers service) (sorted_keys c.routers))
]

not-is_empty :
    (c : ContainerSpec) (service : String)
    → not (is_empty (at_or [] (group_routers c.routers (sorted_keys c.routers) []) service))
      ≡ is_routed c service
not-is_empty c service = ap not (grouped-is_routed c service) ∙ not-not (is_routed c service)

module _ (s : StubSettings) (snap : Snapshot) (image_id : String) where
  service_stubs_lem :
      (c : ContainerSpec) (grouped : Dict (List String)) (services : List String)
      (specs : List StubSpec)
      → service_stubs s snap image_id c grouped services ≡ ok specs
      → (map (λ spec. spec.service_name) specs
          ≡ keep_if (λ service. not (is_empty (at_or [] grouped service))) services)
        × All (IsMarked snap.worker_id) specs
  unfolding service_stubs
  service_stubs_lem c grouped [] specs h = rw (← (ok-injective h)) (refl, tt)
  service_stubs_lem c grouped (service ∷ services) specs h =
      elim (Bool-cases (is_empty (at_or [] grouped service))) [
        | inl e ↦ rw e (service_stubs_lem c grouped services specs (rw e at h))
        | inr e ↦
            let routers = at_or [] grouped service in
            let (spec, first, h₁) =
              >>=-eq-ok (build_stub s snap image_id c service routers) _ (rw e at h) in
            let (rest, later, h₂) =
              >>=-eq-ok (service_stubs s snap image_id c grouped services) _ h₁ in
            let (names, marks) = service_stubs_lem c grouped services rest later in
            let named = build_stub-service_name s snap image_id c service routers spec first in
            rw (← (ok-injective h₂), e)
              (
                cc (named, names),
                (build_stub-IsMarked s snap image_id c service routers spec first, marks),
              )
      ]

-- The services of the containers that a router names, by container and then by name.
abbrev pub routed_services : List ContainerSpec → List String
routed_services [] = []
routed_services (c ∷ cs) = keep_if (is_routed c) (sorted_keys c.services) ++ routed_services cs

keep_if_congr :
    (p q : String → Bool) (xs : List String)
    → ((x : String) → p x ≡ q x)
    → keep_if p xs ≡ keep_if q xs
keep_if_congr p q xs h = ap (λ r. keep_if r xs) (fun_ext h)

module _ (s : StubSettings) (snap : Snapshot) (image_id : String) where
  container_stubs_lem :
      (c : ContainerSpec) (specs : List StubSpec)
      → container_stubs s snap image_id c ≡ ok specs
      → (map (λ spec. spec.service_name) specs ≡ keep_if (is_routed c) (sorted_keys c.services))
        × All (IsMarked snap.worker_id) specs
  unfolding container_stubs
  container_stubs_lem c specs h =
      let grouped = group_routers c.routers (sorted_keys c.routers) [] in
      let (names, marks) =
        service_stubs_lem s snap image_id c grouped (sorted_keys c.services) specs h in
      (
        names ∙ keep_if_congr _ (is_routed c) (sorted_keys c.services) (λ x. not-is_empty c x),
        marks,
      )

  all_stubs_lem :
      (cs : List ContainerSpec) (specs : List StubSpec)
      → all_stubs s snap image_id cs ≡ ok specs
      → (map (λ spec. spec.service_name) specs ≡ routed_services cs)
        × All (IsMarked snap.worker_id) specs
  unfolding all_stubs
  all_stubs_lem [] specs h = rw (← (ok-injective h)) (refl, tt)
  all_stubs_lem (c ∷ cs) specs h =
      let (first, e, h₁) = >>=-eq-ok (container_stubs s snap image_id c) _ h in
      let (rest, f, h₂) = >>=-eq-ok (all_stubs s snap image_id cs) _ h₁ in
      let (names, marks) = container_stubs_lem c first e in
      let (more_names, more_marks) = all_stubs_lem cs rest f in
      rw (← (ok-injective h₂)) (
        map-append _ first rest ∙ ap₂ ◌++◌ names more_names,
        All-append (IsMarked snap.worker_id) first rest marks more_marks,
      )

abbrev specs_of : List StubSpec → Desired → List StubSpec
specs_of specs (built given) = given
specs_of specs (refused issues e) = specs

sorted_specs-eq-built :
    (r : Result (List StubSpec)) (specs : List StubSpec)
    → sorted_specs r ≡ built specs
    → (unsorted : List StubSpec) × (r ≡ ok unsorted)
      × (sort_by (λ spec. spec.name) unsorted ≡ specs)
sorted_specs-eq-built (err e) specs h = cc
sorted_specs-eq-built (ok unsorted) specs h = (unsorted, refl, ap (specs_of specs) h)

sorted_of_built :
    (s : StubSettings) (snap : Snapshot) (image_id : String) (specs : List StubSpec)
    → build_desired_stubs s snap image_id ≡ built specs
    → sorted_specs (all_stubs s snap image_id snap.containers) ≡ built specs
unfolding build_desired_stubs
sorted_of_built s snap image_id specs h = ground arith

-- When the stubs of a snapshot are built, they are sorted by name, each is marked as managed with the
-- snapshot's worker and its own hash, and their services are those of the snapshot's containers
-- that have a name and that a router of the same container sends to, each as often.
pub build_desired_stubs_lem :
    (s : StubSettings) (snap : Snapshot) (image_id : String) (specs : List StubSpec)
    → build_desired_stubs s snap image_id ≡ built specs
    → IsSorted (λ spec. spec.name) specs
      × All (IsMarked snap.worker_id) specs
      × Perm (map (λ spec. spec.service_name) specs) (routed_services snap.containers)
build_desired_stubs_lem s snap image_id specs h =
    let name = λ (spec : StubSpec). spec.name in
    let (unsorted, made, same) =
      sorted_specs-eq-built (all_stubs s snap image_id snap.containers) specs
        (sorted_of_built s snap image_id specs h) in
    let (services, marks) = all_stubs_lem s snap image_id snap.containers unsorted made in
    rw (← same) (
      sort_by-IsSorted name unsorted,
      sort_by-All name (IsMarked snap.worker_id) unsorted marks,
      rw services at (Perm.map (λ spec. spec.service_name) (sort_by-perm name unsorted)),
    )
