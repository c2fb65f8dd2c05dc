-- ===== src/Parse/Container/Laws.antt =====
-- What a container that BuildContainer exports is like.
use traefik_connect.Common.{
  String, ◌≡◌, refl, sym, ap, ◌∙◌, Bool, true, false, Option, none, some, List, [], ◌∷◌, ◌==◌, Dict,
  lookup, insert, All-insert, is_empty, is_some, text_at, trim_space, Result, ok, err, >>=-eq-ok,
  ok-injective, All, arith, Bool-cases, inl, inr, Unicode, trim_space,
}
use traefik_connect.Model.{Instant, RouterSpec, ServiceSpec, MiddlewareSpec, ContainerSpec}
use traefik_connect.Dockerx.{ContainerInspect}
use traefik_connect.Parse.Values.{managed_label, parse_bool, OptInDecision, is_enabled}
use traefik_connect.Parse.Middlewares.{parse_middlewares}
use traefik_connect.Parse.Routes.{parse_services, parse_routers}
use traefik_connect.Parse.Backend.{Library}
use traefik_connect.Parse.Container.{
  Exported, exported, not_exported, panicked, Orders, container_name, of_built, name_middlewares,
  with_default, resolve_services, router_service, check_middlewares, with_service, check_router,
  check_routers, assemble, build_named, build_container,
}

-- The router has a rule, and its service and its middlewares are there.
pub record IsRouted (services : Dict ServiceSpec) (mws : Dict MiddlewareSpec) (r : RouterSpec)
    : Type 0 where
  pub has_rule : (trim_space r.rule == "") ≡ false
  pub has_service : is_some (lookup r.service services) ≡ true
  pub has_middlewares : All (λ m. is_some (lookup m mws) ≡ true) r.middlewares

is_some-name_middlewares :
    (k : String) (mws : Dict MiddlewareSpec)
    → is_some (lookup k (name_middlewares mws)) ≡ is_some (lookup k mws)
unfolding name_middlewares lookup
is_some-name_middlewares k [] = refl
is_some-name_middlewares k ((name, mw) ∷ mws) = elim (Bool-cases (name == k)) [
  | inl e ↦ rw e refl
  | inr e ↦ rw e (is_some-name_middlewares k mws)
]

named-All :
    (mws : Dict MiddlewareSpec) (names : List String)
    → All (λ m. is_some (lookup m mws) ≡ true) names
    → All (λ m. is_some (lookup m (name_middlewares mws)) ≡ true) names
named-All mws [] hs = tt
named-All mws (n ∷ names) (h, hs) = (is_some-name_middlewares n mws ∙ h, named-All mws names hs)

named-IsRouted :
    (services : Dict ServiceSpec) (mws : Dict MiddlewareSpec) (routers : Dict RouterSpec)
    → All (λ kv. IsRouted services mws kv.1) routers
    → All (λ kv. IsRouted services (name_middlewares mws) kv.1) routers
named-IsRouted services mws [] hs = tt
named-IsRouted services mws ((k, r) ∷ routers) (h, hs) = (
  record {
    has_rule = h.has_rule;
    has_service = h.has_service;
    has_middlewares = named-All mws r.middlewares h.has_middlewares;
  },
  named-IsRouted services mws routers hs,
)

abbrev exported_or : ContainerSpec → Exported → ContainerSpec
exported_or d (exported c) = c
exported_or d (not_exported e) = d
exported_or d panicked = d

module _ {U : Type 0} (lib : Library U) where
  check_middlewares-ok :
      (name : String) (names : List String) (mws : Dict MiddlewareSpec) {t : Unit {0}}
      → check_middlewares lib name names mws ≡ ok t
      → All (λ m. is_some (lookup m mws) ≡ true) names
  unfolding check_middlewares
  check_middlewares-ok name [] mws h = tt
  check_middlewares-ok name (m ∷ names) mws h = elim (Bool-cases (is_some (lookup m mws))) [
    | inl e ↦ (e, check_middlewares-ok name names mws (ground (arith, e, h)))
    | inr e ↦ ground (arith, e, h)
  ]

  with_service-ok :
      (name : String) (r r' : RouterSpec) (resolved : Dict ServiceSpec) (mws : Dict MiddlewareSpec)
      (service : String)
      → (trim_space r.rule == "") ≡ false
      → with_service lib name r resolved mws service ≡ ok r'
      → IsRouted resolved mws r'
  with_service-ok name r r' resolved mws service hr h =
      elim (Bool-cases (is_some (lookup service resolved))) [
        | inl e ↦
            (let (t, checked, same) =
                >>=-eq-ok (check_middlewares lib name r.middlewares mws)
                  (λ _. ok (record r { name = name; service = service })) {b = r'}
                  (ground (arith, e, h)) in
              rw (← ok-injective same) (record {
                has_rule = hr;
                has_service = e;
                has_middlewares = check_middlewares-ok name r.middlewares mws checked;
              }))
        | inr e ↦ ground (arith, e, h)
      ]

  check_router-ok :
      (name : String) (r r' : RouterSpec) (services resolved : Dict ServiceSpec)
      (mws : Dict MiddlewareSpec)
      → check_router lib name r services resolved mws ≡ ok r'
      → IsRouted resolved mws r'
  unfolding check_router
  check_router-ok name r r' services resolved mws h = elim (Bool-cases (trim_space r.rule == "")) [
    | inl e ↦ ground (arith, e, h)
    | inr e ↦
        (let (service, found, next) =
            >>=-eq-ok (router_service lib name r services) (with_service lib name r resolved mws)
              {b = r'} (ground (arith, e, h)) in
          with_service-ok name r r' resolved mws service e next)
  ]

  check_routers-ok :
      (services resolved : Dict ServiceSpec) (mws : Dict MiddlewareSpec)
      (routers out result : Dict RouterSpec)
      → check_routers lib services resolved mws routers out ≡ ok result
      → All (λ kv. IsRouted resolved mws kv.1) out
      → All (λ kv. IsRouted resolved mws kv.1) result
  unfolding check_routers
  check_routers-ok services resolved mws [] out result h hs = rw (← ok-injective h) hs
  check_routers-ok services resolved mws ((name, r) ∷ routers) out result h hs =
      let (r', checked, next) =
        >>=-eq-ok (check_router lib name r services resolved mws)
          (λ r'. check_routers lib services resolved mws routers (insert name r' out)) h in
      check_routers-ok services resolved mws routers (insert name r' out) result next (
        All-insert (λ kv. IsRouted resolved mws kv.1) name r' out
          (check_router-ok name r r' services resolved mws checked) hs)

  module _ (orders : Orders) (now : Instant) (ins : ContainerInspect)
      (advertise_addr : String) where
    -- Every router of the container can be routed.
    abbrev pub IsRoutable : ContainerSpec → Type 0
    IsRoutable c = All (λ kv. IsRouted c.services c.middlewares kv.1) c.routers

    assemble-ok :
        (name : String) (decision : OptInDecision) (routers : Dict RouterSpec)
        (services : Dict ServiceSpec) (mws : Dict MiddlewareSpec) (c : ContainerSpec)
        → assemble lib orders now ins advertise_addr name decision routers services mws ≡ ok c
        → IsRoutable c × (c.id ≡ ins.id) × (c.name ≡ name)
    assemble-ok name decision routers services mws c h =
        let (resolved, e₁, h₁) =
          >>=-eq-ok
            (resolve_services lib ins.labels ins advertise_addr
              (orders.services (with_default routers services)) [])
            _ {b = c} h in
        let (checked, e₂, h₂) =
          >>=-eq-ok
            (check_routers lib (with_default routers services) resolved mws (orders.routers routers)
              [])
            _ {b = c} h₁ in
        rw (← ok-injective h₂) (
          named-IsRouted resolved mws checked (
              check_routers-ok (with_default routers services) resolved mws (orders.routers routers)
                [] checked e₂ tt),
          refl,
          refl,
        )

    of_built-exported :
        (r : Result ContainerSpec) (c : ContainerSpec) → of_built r ≡ exported c → r ≡ ok c
    of_built-exported (ok d) c h = ap ok (ap (λ x. exported_or d x) h)
    of_built-exported (err e) c h = cc

    build_named-exported :
        (decision : OptInDecision) (name : Option String) (c : ContainerSpec)
        → build_named lib orders now ins advertise_addr decision name ≡ exported c
        → IsRoutable c × (c.id ≡ ins.id) × (name ≡ some c.name)
    build_named-exported decision none c h = cc
    build_named-exported decision (some name) c h =
        elim (Bool-cases (is_empty (parse_routers lib.unicode ins.labels))) [
          | inl e ↦ ground (arith, e, h)
          | inr e ↦
              (let (routable, same_id, same_name) =
                  assemble-ok name decision (parse_routers lib.unicode ins.labels)
                    (parse_services lib.unicode ins.labels)
                    (parse_middlewares lib.unicode ins.labels) c
                    (of_built-exported _ c (ground (arith, e, h))) in
                (routable, same_id, ap some (sym same_name)))
        ]

    pub build_named-assembled :
        (decision : OptInDecision) (name : String) (c : ContainerSpec)
        → build_named lib orders now ins advertise_addr decision (some name) ≡ exported c
        → (is_empty (parse_routers lib.unicode ins.labels) ≡ false)
          × (assemble lib orders now ins advertise_addr name decision
                (parse_routers lib.unicode ins.labels)
                (parse_services lib.unicode ins.labels)
                (parse_middlewares lib.unicode ins.labels)
              ≡ ok c)
    build_named-assembled decision name c h =
        elim (Bool-cases (is_empty (parse_routers lib.unicode ins.labels))) [
          | inl e ↦ ground (arith, e, h)
          | inr e ↦ (e, of_built-exported _ c (ground (arith, e, h)))
        ]

    pub build_container-named :
        (c : ContainerSpec)
        → build_container lib orders now ins advertise_addr ≡ exported c
        → build_named lib orders now ins advertise_addr
            (is_enabled lib.unicode ins.labels)
            (container_name ins)
          ≡ exported c
    unfolding build_container
    build_container-named c h =
        elim (Bool-cases (parse_bool lib.unicode (text_at ins.labels managed_label) false)) [
          | inl e ↦ ground (arith, e, h)
          | inr e₁ ↦ elim (Bool-cases (is_enabled lib.unicode ins.labels).enabled) [
            | inl e₂ ↦ ground (arith, e₁, e₂, h)
            | inr e₂ ↦ ground (arith, e₁, e₂, h)
          ]
        ]

    -- A container that BuildContainer exports is not a stub of the program's own, has opted in, and
    -- keeps its id and its name; each of its routers has a rule, a service among the container's
    -- services and only middlewares among the container's middlewares.
    pub build_container-exported :
        (c : ContainerSpec)
        → build_container lib orders now ins advertise_addr ≡ exported c
        → (parse_bool lib.unicode (text_at ins.labels managed_label) false ≡ false)
          × ((is_enabled lib.unicode ins.labels).enabled ≡ true)
          × IsRoutable c
          × (c.id ≡ ins.id)
          × (container_name ins ≡ some c.name)
    unfolding build_container
    build_container-exported c h =
        elim (Bool-cases (parse_bool lib.unicode (text_at ins.labels managed_label) false)) [
          | inl e ↦ ground (arith, e, h)
          | inr e₁ ↦ elim (Bool-cases (is_enabled lib.unicode ins.labels).enabled) [
            | inl e₂ ↦
                (let (routable, same_id, same_name) =
                    build_named-exported (is_enabled lib.unicode ins.labels) (container_name ins) c
                      (ground (arith, e₁, e₂, h)) in
                  (e₁, e₂, routable, same_id, same_name))
            | inr e₂ ↦ ground (arith, e₁, e₂, h)
          ]
        ]

parse_bool-true : (u : Unicode) (default : Bool) → parse_bool u "true" default ≡ true
unfolding parse_bool
parse_bool-true u default = refl

pub build_container-managed :
    {U : Type 0} (lib : Library U) (orders : Orders) (now : Instant) (ins : ContainerInspect)
    (advertise_addr : String)
    → lookup managed_label ins.labels ≡ some "true"
    → build_container lib orders now ins advertise_addr
      ≡ not_exported "not exported: managed container"
unfolding build_container
build_container-managed lib orders now ins advertise_addr h =
    let marked : parse_bool lib.unicode (text_at ins.labels managed_label) false ≡ true =
      ap (λ o. parse_bool lib.unicode (elim o [ none ↦ "" | some v ↦ v ]) false) h
      ∙ parse_bool-true lib.unicode false in
    ground (arith, marked)
