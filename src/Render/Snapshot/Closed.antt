-- ===== src/Render/Snapshot/Closed.antt =====
-- internal/render/render.go: the names that a router refers to are those of blocks that are written.
use Prim.Native.String.{◌++◌}
use traefik_connect.Common.{
  Option, if◌then◌else◌, itoa, String, none, some, List, [], ◌∷◌, ◌==◌, Dict, lookup, All, In, inl,
  inr, lookup-insert, Bool-cases, Option-cases, map, at_or, Unicode, ◌≡◌, refl, ap, sym, ◌∙◌,
}
use traefik_connect.Model.{RouterSpec, ContainerSpec, zero_router, zero_service, zero_middleware}
use traefik_connect.Render.{
  Block, heading, key_value, unless_empty, unless_none, when_given, render_tls, render_router,
  resolved_names, name_map, qualified_name, render_service,
}
use traefik_connect.Render.Middleware.{render_middleware}
use traefik_connect.Render.Snapshot.{sorted_keys, block_each, render_container}

some-injective : {A : Type 0} {a b : A} → some a ≡ some b → a ≡ b
some-injective {a} e = ap (λ o. elim o [ none ↦ a | some x ↦ x ]) e

name_map-In :
    (qualify : String → String) (ks : List String) (a g : String)
    → lookup a (name_map qualify ks) ≡ some g
    → In g (map qualify ks)
unfolding name_map lookup
name_map-In qualify [] a g h = cc
name_map-In qualify (k ∷ ks) a g h =
    let h' = sym (lookup-insert k a (qualify k) (name_map qualify ks)) ∙ h in
    elim (Bool-cases (k == a)) [
      | inl e ↦ inl (some-injective (rw e at h'))
      | inr e ↦ inr (name_map-In qualify ks a g (rw e at h'))
    ]

block_each-names :
    {V : Type 0} (qualify : String → String) (zero : V) (render : String → V → Block)
    (specs : Dict V) (ks : List String)
    → ((name : String) (v : V) → (render name v).name ≡ name)
    → map (λ b. b.name) (block_each qualify zero render specs ks) ≡ map qualify ks
block_each-names qualify zero render specs [] named = refl
block_each-names qualify zero render specs (k ∷ ks) named =
    rw (named (qualify k) (at_or zero specs k), block_each-names qualify zero render specs ks named)
      refl

resolved_names-All :
    (P : String → Type 0) (names : Dict String) (locals : List String)
    → ((a g : String) → lookup a names ≡ some g → P g)
    → All P (resolved_names names locals)
unfolding resolved_names
resolved_names-All P names [] h = tt
resolved_names-All P names (a ∷ rest) h = elim (Option-cases (lookup a names)) [
  | inl e ↦ rw e (resolved_names-All P names rest h)
  | inr (g, e) ↦ rw e (h a g e, resolved_names-All P names rest h)
]

abbrev pub names_of : List Block → List String
names_of = map (λ b. b.name)

-- The lines of a router that is written with these names of middlewares and this name of a service.
abbrev pub router_text :
    (String → String) → String → RouterSpec → List String → Option String → String
router_text quote name r middlewares service =
    heading 2 name
    ++ (unless_empty r.rule (λ rule. key_value 3 "rule" (quote rule))
        ++ (unless_none quote 3 "entryPoints" r.entry_points
            ++ (when_given r.tls (render_tls quote)
                ++ (unless_none quote 3 "middlewares" middlewares
                    ++ (when_given service (λ g. key_value 3 "service" (quote g))
                        ++ when_given r.priority (λ p. key_value 3 "priority" (itoa p)))))))

abbrev pub IsServiceOf : List Block → Option String → Type 0
IsServiceOf services none = Unit
IsServiceOf services (some g) = In g (names_of services)

-- The block is that of a router of the container, and all that its text refers to is the name of a
-- block that is written for the container.
pub record IsClosed (u : Unicode) (quote : String → String) (worker_id : String) (c : ContainerSpec)
    (router : Block) : Type 0 where
  pub local : String
  pub is_local : In local (sorted_keys c.routers)
  pub named : router.name ≡ qualified_name u worker_id c local
  pub middlewares : List String
  pub service : Option String
  pub text :
      router.body
      ≡ router_text quote router.name (at_or zero_router c.routers local) middlewares service
  pub middlewares_written :
      All (λ g. In g (names_of (render_container u quote worker_id c).middlewares)) middlewares
  pub service_written : IsServiceOf (render_container u quote worker_id c).services service

block_each-All :
    {V : Type 0} (P : Block → Type 0) (qualify : String → String) (zero : V)
    (render : String → V → Block) (specs : Dict V) (ks : List String)
    → ((k : String) → In k ks → P (render (qualify k) (at_or zero specs k)))
    → All P (block_each qualify zero render specs ks)
block_each-All P qualify zero render specs [] h = tt
block_each-All P qualify zero render specs (k ∷ ks) h =
    (h k (inl refl), block_each-All P qualify zero render specs ks (λ j m. h j (inr m)))

looked_up-IsServiceOf :
    (services : List Block) (names : Dict String) (local : String)
    → ((g : String) → lookup local names ≡ some g → In g (names_of services))
    → IsServiceOf services (if local == "" then none else lookup local names)
looked_up-IsServiceOf services names local h = elim (Bool-cases (local == "")) [
  | inl e ↦ rw e tt
  | inr e ↦ elim (Option-cases (lookup local names)) [
    | inl missing ↦ rw (e, missing) tt
    | inr (g, found) ↦ rw (e, found) (h g found)
  ]
]

module _ (u : Unicode) (quote : String → String) (worker_id : String) (c : ContainerSpec) where
  middlewares_named :
      names_of (render_container u quote worker_id c).middlewares
      ≡ map (qualified_name u worker_id c) (sorted_keys c.middlewares)
  unfolding render_container render_middleware
  middlewares_named =
      block_each-names (qualified_name u worker_id c) zero_middleware (render_middleware quote)
        c.middlewares (sorted_keys c.middlewares) (λ name m. refl)

  services_named :
      names_of (render_container u quote worker_id c).services
      ≡ map (qualified_name u worker_id c) (sorted_keys c.services)
  unfolding render_container render_service
  services_named =
      block_each-names (qualified_name u worker_id c) zero_service (render_service quote) c.services
        (sorted_keys c.services) (λ name s. refl)

  render_router-IsClosed :
      (local : String)
      → In local (sorted_keys c.routers)
      → let qualify = qualified_name u worker_id c in
        IsClosed u quote worker_id c (
          render_router quote
            (qualify local)
            (at_or zero_router c.routers local)
            (name_map qualify (sorted_keys c.services))
            (name_map qualify (sorted_keys c.middlewares)))
  unfolding render_router
  render_router-IsClosed local is_local =
      let qualify = qualified_name u worker_id c in
      let services = name_map qualify (sorted_keys c.services) in
      let mws = name_map qualify (sorted_keys c.middlewares) in
      let r = at_or zero_router c.routers local in
      record {
        local = local;
        is_local = is_local;
        named = refl;
        middlewares = resolved_names mws r.middlewares;
        service = if r.service == "" then none else lookup r.service services;
        text = refl;
        middlewares_written = rw middlewares_named (
            resolved_names-All _ _ r.middlewares (name_map-In qualify (sorted_keys c.middlewares)));
        service_written =
            looked_up-IsServiceOf (render_container u quote worker_id c).services services r.service
              (rw services_named (name_map-In qualify (sorted_keys c.services) r.service));
      }

  -- Each router block that is written for a container is that of one of its routers, and has that
  -- router's text, in which the middlewares and the service, if it has one, are names of blocks that
  -- are written for the same container.
  pub render_container-IsClosed :
      All (IsClosed u quote worker_id c) (render_container u quote worker_id c).routers
  unfolding render_container
  render_container-IsClosed =
      let qualify = qualified_name u worker_id c in
      block_each-All (IsClosed u quote worker_id c) qualify zero_router
        (λ name r.
          render_router quote name r (name_map qualify (sorted_keys c.services))
            (name_map qualify (sorted_keys c.middlewares)))
        c.routers (sorted_keys c.routers) render_router-IsClosed
