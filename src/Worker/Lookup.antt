-- ===== src/Worker/Lookup.antt =====
-- internal/worker/agent.go: which service a tunnel is connected to.
use traefik_connect.Common.{
  String, ◌≡◌, refl, ap, Bool, true, false, Option, none, some, List, [], ◌∷◌, ◌==◌, if◌then◌else◌,
  lookup, All, In, Bool-cases, inl, inr, ◌⊎◌,
}
use traefik_connect.Model.{ServiceSpec, ContainerSpec, Snapshot}
use traefik_connect.Worker.{or_later, find_service, or_found, lookup_service}

abbrev pair_or :
    ContainerSpec × ServiceSpec → Option (ContainerSpec × ServiceSpec) → ContainerSpec × ServiceSpec
pair_or p none = p
pair_or p (some q) = q

some_injective : {p q : ContainerSpec × ServiceSpec} → some p ≡ some q → p ≡ q
some_injective {p} e = ap (λ o. pair_or p o) e

module _ (test : ContainerSpec → Bool) (name : String) where
  -- The container has the service, passes the test, and is one of the list.
  abbrev pub IsFoundIn : List ContainerSpec → ContainerSpec × ServiceSpec → Type 0
  IsFoundIn cs (c, svc) = In c cs × (test c ≡ true) × (lookup name c.services ≡ some svc)

  later :
      (c : ContainerSpec) (cs : List ContainerSpec) (p : ContainerSpec × ServiceSpec)
      → IsFoundIn cs p
      → IsFoundIn (c ∷ cs) p
  later c cs (d, svc) (m, t, l) = (inr m, t, l)

  found_here :
      (c : ContainerSpec) (cs : List ContainerSpec) (p : ContainerSpec × ServiceSpec)
      (o : Option ServiceSpec)
      → test c ≡ true
      → lookup name c.services ≡ o
      → (find_service test name cs ≡ some p → IsFoundIn cs p)
      → or_later c o (find_service test name cs) ≡ some p
      → IsFoundIn (c ∷ cs) p
  found_here c cs p none t l rest h = later c cs p (rest h)
  found_here c cs p (some svc) t l rest h = rw (← some_injective h) (inl refl, t, l)

  find_service-some :
      (cs : List ContainerSpec) (p : ContainerSpec × ServiceSpec)
      → find_service test name cs ≡ some p
      → IsFoundIn cs p
  unfolding find_service
  find_service-some [] p h = cc
  find_service-some (c ∷ cs) p h = elim (Bool-cases (test c)) [
    | inl e ↦ found_here c cs p (lookup name c.services) e refl (find_service-some cs p) (rw e at h)
    | inr e ↦ later c cs p (find_service-some cs p (rw e at h))
  ]

  -- None of the containers that pass the test has the service.
  abbrev pub AreWithout : List ContainerSpec → Type 0
  AreWithout = All (λ c. test c ≡ true → lookup name c.services ≡ none)

  without_here :
      (c : ContainerSpec) (cs : List ContainerSpec) (o : Option ServiceSpec)
      → lookup name c.services ≡ o
      → (find_service test name cs ≡ none → AreWithout cs)
      → or_later c o (find_service test name cs) ≡ none
      → AreWithout (c ∷ cs)
  without_here c cs none l rest h = ((λ t. l), rest h)
  without_here c cs (some svc) l rest h = cc

  find_service-none : (cs : List ContainerSpec) → find_service test name cs ≡ none → AreWithout cs
  unfolding find_service
  find_service-none [] h = tt
  find_service-none (c ∷ cs) h = elim (Bool-cases (test c)) [
    | inl e ↦ without_here c cs (lookup name c.services) refl (find_service-none cs) (rw e at h)
    | inr e ↦ ((λ t. cc (t, e)), find_service-none cs (rw e at h))
  ]

module _ (snap : Snapshot) (container_id name : String) where
  abbrev pub has_id : ContainerSpec → Bool
  has_id c = c.id == container_id

  or_found-cases :
      (by_id by_name : Option (ContainerSpec × ServiceSpec)) (p : ContainerSpec × ServiceSpec)
      → or_found by_id by_name ≡ some p
      → (by_id ≡ some p) ⊎ ((by_id ≡ none) × (by_name ≡ some p))
  or_found-cases none by_name p h = inr (refl, h)
  or_found-cases (some q) by_name p h = inl h

  -- A tunnel that asks for a service of a container is connected to that service of a container of
  -- the agent's snapshot: of the container with that id, or else no container with that id has the
  -- service.
  lookup_service-some :
      (c : ContainerSpec) (svc : ServiceSpec)
      → (container_id == "") ≡ false
      → (name == "") ≡ false
      → lookup_service snap container_id name ≡ some (c, svc)
      → In c snap.containers
        × (lookup name c.services ≡ some svc)
        × (((c.id == container_id) ≡ true) ⊎ AreWithout has_id name snap.containers)
  unfolding lookup_service
  lookup_service-some c svc given named h =
      elim (or_found-cases (find_service has_id name snap.containers)
        (find_service (λ c. true) name snap.containers) (c, svc) (rw (given, named) at h)) [
          | inl e ↦
              (let (m, t, l) = find_service-some has_id name snap.containers (c, svc) e in
                (m, l, inl t))
          | inr (e, f) ↦
              (let (m, t, l) = find_service-some (λ c. true) name snap.containers (c, svc) f in
                (m, l, inr (find_service-none has_id name snap.containers e)))
        ]

  or_found-none :
      (by_id by_name : Option (ContainerSpec × ServiceSpec))
      → or_found by_id by_name ≡ none
      → by_name ≡ none
  or_found-none none by_name h = h
  or_found-none (some q) by_name h = cc

  -- Where no service is found for a name that is not empty, no container of the snapshot has it.
  lookup_service-none :
      (name == "") ≡ false
      → lookup_service snap container_id name ≡ none
      → AreWithout (λ c. true) name snap.containers
  unfolding lookup_service
  lookup_service-none named h =
      find_service-none (λ c. true) name snap.containers
        (rw named at (
          or_found-none
            (if container_id == "" then none else find_service has_id name snap.containers)
            (if name == "" then none else find_service (λ c. true) name snap.containers) h))
