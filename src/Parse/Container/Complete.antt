-- ===== src/Parse/Container/Complete.antt =====
-- internal/parse/labels.go against internal/receiver/store.go: what the worker exports, the master
-- keeps.
use traefik_connect.Common.{
  ℕ, suc, String, Char, ◌≡◌, ◌≢◌, refl, sym, ap, ◌∙◌, false, ◌&&◌, Option, none, some, [], ◌∷◌,
  ◌==◌, Dict, insert, is_empty, trim_prefix, Result, ok, err, >>=-eq-ok, ok-injective, arith,
  Bool-cases, inl, inr, ==-true,
}
use traefik_connect.Model.{Instant, RouterSpec, ServiceSpec, MiddlewareSpec, ContainerSpec}
use traefik_connect.Dockerx.{ContainerInspect}
use traefik_connect.Receiver.Validate.Laws.{IsComplete}
use traefik_connect.Parse.Values.{OptInDecision, is_enabled}
use traefik_connect.Parse.Middlewares.{parse_middlewares}
use traefik_connect.Parse.Routes.{parse_services, parse_routers}
use traefik_connect.Parse.Backend.{Library, Backend, resolve_backend_url}
use traefik_connect.Parse.Container.{
  text_take, exported, Orders, container_name, with_default, put_service, resolve_services,
  check_router, check_routers, assemble, build_named, build_container,
}
use traefik_connect.Parse.Container.Laws.{
  build_container-exported, build_named-assembled, build_container-named,
}

-- Ranging over a map yields none of its entries only if it has none.
pub record KeepsEntries (orders : Orders) : Type 0 where
  pub of_services : (m : Dict ServiceSpec) → is_empty (orders.services m) ≡ is_empty m
  pub of_routers : (m : Dict RouterSpec) → is_empty (orders.routers m) ≡ is_empty m

insert-is_empty : {V : Type 0} (k : String) (v : V) (m : Dict V) → is_empty (insert k v m) ≡ false
unfolding insert
insert-is_empty k v [] = refl
insert-is_empty k v ((j, w) ∷ m) = elim (Bool-cases (j == k)) [
  | inl e ↦ rw e refl
  | inr e ↦ rw e refl
]

abbrev name_or : String → Option String → String
name_or d none = d
name_or d (some s) = s

cons_taken :
    (c : Char) (o : Option String) (t : String)
    → (elim o [ none ↦ none | some s ↦ some (String.◌∷◌ c s) ]) ≡ some t
    → t ≢ ""
cons_taken c none t h e = cc
cons_taken c (some s) t h e = cc (ap (λ o. name_or t o) h, e)

text_take-ne-empty : (n : ℕ) (s t : String) → text_take (suc n) s ≡ some t → t ≢ ""
unfolding text_take
text_take-ne-empty n String.[] t h = cc
text_take-ne-empty n (String.◌∷◌ c s) t h = cons_taken c (text_take n s) t h

some_injective : {s t : String} → some s ≡ some t → s ≡ t
some_injective {s} e = ap (λ o. name_or s o) e

not_empty : (s : String) → (s == "") ≡ false → s ≢ ""
not_empty s e h = cc (e, ==-true s "" h)

container_name-ne-empty :
    (ins : ContainerInspect) (name : String) → container_name ins ≡ some name → name ≢ ""
unfolding container_name
container_name-ne-empty ins name h = elim (Bool-cases (trim_prefix ins.name "/" == "")) [
  | inr e ↦ rw (← some_injective (rw e at h)) (not_empty (trim_prefix ins.name "/") e)
  | inl e₁ ↦ elim (Bool-cases (ins.hostname == "")) [
    | inr e ↦ rw (← some_injective (rw (e₁, e) at h)) (not_empty ins.hostname e)
    | inl e₂ ↦ text_take-ne-empty 11 ins.id name (rw (e₁, e₂) at h)
  ]
]

module _ {U : Type 0} (lib : Library U) where
  put_service-is_empty :
      (name : String) (svc : ServiceSpec) (out : Dict ServiceSpec) (b : Result Backend)
      (next : Dict ServiceSpec)
      → put_service lib name svc out b ≡ ok next
      → is_empty next ≡ false
  put_service-is_empty name svc out (err e) next h = cc
  put_service-is_empty name svc out (ok b) next h =
      rw (← ok-injective h) (insert-is_empty name _ out)

  resolve_services-is_empty :
      (labels : Dict String) (ins : ContainerInspect) (addr : String)
      (services out result : Dict ServiceSpec)
      → resolve_services lib labels ins addr services out ≡ ok result
      → (is_empty services && is_empty out) ≡ false
      → is_empty result ≡ false
  unfolding resolve_services
  resolve_services-is_empty labels ins addr [] out result h e = rw (← ok-injective h) e
  resolve_services-is_empty labels ins addr ((name, svc) ∷ services) out result h e =
      let (next, put, rest) =
        >>=-eq-ok (put_service lib name svc out (resolve_backend_url lib labels ins addr svc.port))
          (resolve_services lib labels ins addr services) h in
      let some_next =
        put_service-is_empty name svc out (resolve_backend_url lib labels ins addr svc.port) next
          put in
      resolve_services-is_empty labels ins addr services next result rest
        (ground (arith, some_next))

  check_routers-is_empty :
      (services resolved : Dict ServiceSpec) (mws : Dict MiddlewareSpec)
      (routers out result : Dict RouterSpec)
      → check_routers lib services resolved mws routers out ≡ ok result
      → (is_empty routers && is_empty out) ≡ false
      → is_empty result ≡ false
  unfolding check_routers
  check_routers-is_empty services resolved mws [] out result h e = rw (← ok-injective h) e
  check_routers-is_empty services resolved mws ((name, r) ∷ routers) out result h e =
      let (r', checked, next) =
        >>=-eq-ok (check_router lib name r services resolved mws)
          (λ r'. check_routers lib services resolved mws routers (insert name r' out)) h in
      let some_next = insert-is_empty name r' out in
      check_routers-is_empty services resolved mws routers (insert name r' out) result next
        (ground (arith, some_next))

  with_default-is_empty :
      (routers : Dict RouterSpec) (services : Dict ServiceSpec)
      → is_empty routers ≡ false
      → is_empty (with_default routers services) ≡ false
  unfolding with_default
  with_default-is_empty routers [] e = rw e refl
  with_default-is_empty routers (svc ∷ services) e = refl

  filled : {V : Type 0} (m : Dict V) → is_empty m ≡ false → m ≢ []
  filled m e h = cc (e, ap is_empty h)

  module _ (orders : Orders) (keeps : KeepsEntries orders) (now : Instant) (ins : ContainerInspect)
      (advertise_addr : String) where
    assemble-filled :
        (name : String) (decision : OptInDecision) (routers : Dict RouterSpec)
        (services : Dict ServiceSpec) (mws : Dict MiddlewareSpec) (c : ContainerSpec)
        → is_empty routers ≡ false
        → assemble lib orders now ins advertise_addr name decision routers services mws ≡ ok c
        → (is_empty c.routers ≡ false) × (is_empty c.services ≡ false)
    assemble-filled name decision routers services mws c some_routers h =
        let (resolved, e₁, h₁) =
          >>=-eq-ok
            (resolve_services lib ins.labels ins advertise_addr
              (orders.services (with_default routers services)) [])
            _ {b = c} h in
        let (checked, e₂, h₂) =
          >>=-eq-ok
            (check_routers lib (with_default routers services) resolved mws (orders.routers routers)
              [])
            _ {b = c} h₁ in
        let some_services =
          keeps.of_services (with_default routers services)
          ∙ with_default-is_empty routers services some_routers in
        let still_routers = keeps.of_routers routers ∙ some_routers in
        rw (← ok-injective h₂) (
          check_routers-is_empty (with_default routers services) resolved mws
              (orders.routers routers) [] checked e₂ (ground (arith, still_routers)),
          resolve_services-is_empty ins.labels ins advertise_addr
              (orders.services (with_default routers services)) [] resolved e₁
              (ground (arith, some_services)),
        )

    named-IsComplete :
        (o : Option String) (decision : OptInDecision) (c : ContainerSpec)
        → container_name ins ≡ o
        → ins.id ≢ ""
        → c.id ≡ ins.id
        → o ≡ some c.name
        → build_named lib orders now ins advertise_addr decision o ≡ exported c
        → IsComplete c
    named-IsComplete none decision c named some_id same_id same_name h = cc
    named-IsComplete (some name) decision c named some_id same_id same_name h =
        let (some_routers, built) =
          build_named-assembled lib orders now ins advertise_addr decision name c h in
        let (routers, services) =
          assemble-filled name decision (parse_routers lib.unicode ins.labels)
            (parse_services lib.unicode ins.labels) (parse_middlewares lib.unicode ins.labels) c
            some_routers built in
        record {
          id = λ e. some_id (sym same_id ∙ e);
          name = container_name-ne-empty ins c.name (named ∙ same_name);
          routers = filled c.routers routers;
          services = filled c.services services;
        }

    -- Of a container whose id is not empty, what BuildContainer exports is complete in the sense of
    -- the master's validation: it has an id, a name, routers and services, so that it is dropped only
    -- as a duplicate.
    pub build_container-IsComplete :
        (c : ContainerSpec)
        → ins.id ≢ ""
        → build_container lib orders now ins advertise_addr ≡ exported c
        → IsComplete c
    build_container-IsComplete c some_id h =
        let (unmanaged, enabled, routable, same_id, same_name) =
          build_container-exported lib orders now ins advertise_addr c h in
        named-IsComplete (container_name ins) (is_enabled lib.unicode ins.labels) c refl some_id
          same_id same_name (build_container-named lib orders now ins advertise_addr c h)
