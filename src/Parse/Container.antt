-- ===== src/Parse/Container.antt =====
-- internal/parse/labels.go: BuildContainer.
pub mod Laws
pub mod Complete
pub mod Tests
use Prim.Native.String.{◌++◌ as text_append}
use traefik_connect.Common.{
  ℕ, zero, suc, String, Bool, true, false, not, ◌&&◌, Option, none, some, List, [], ◌∷◌, ◌++◌, ◌==◌,
  if◌then◌else◌, Dict, lookup, insert, is_empty, is_some, text_at, trim_space, trim_prefix, Result,
  ok, err, ◌>>=◌,
}
use traefik_connect.Model.{Instant, RouterSpec, ServiceSpec, MiddlewareSpec, ContainerSpec}
use traefik_connect.Dockerx.{ContainerInspect}
use traefik_connect.Parse.Values.{
  managed_label, parse_bool, OptInDecision, is_enabled, relevant_labels,
}
use traefik_connect.Parse.Middlewares.{parse_middlewares}
use traefik_connect.Parse.Routes.{service_stub, parse_services, parse_routers}
use traefik_connect.Parse.Backend.{Library, Backend, resolve_backend_url}

-- The first characters of a text, or `none` where it has too few. An engine's ids are ASCII, so
-- that its characters are its bytes.
pub text_take : ℕ → String → Option String
text_take zero s = some ""
text_take (suc n) String.[] = none
text_take (suc n) (String.◌∷◌ c s) = elim (text_take n s) [
  | none ↦ none
  | some t ↦ some (String.◌∷◌ c t)
]

-- BuildContainer panics where ins.ID[:12] is out of range.
pub data Exported : Type 0 where
  exported : ContainerSpec → Exported
  not_exported : String → Exported
  panicked : Exported

-- The orders in which Go happens to range over the two maps.
pub record Orders : Type 0 where
  pub services : Dict ServiceSpec → Dict ServiceSpec
  pub routers : Dict RouterSpec → Dict RouterSpec

pub container_name : ContainerInspect → Option String
container_name ins =
    let name = trim_prefix ins.name "/" in
    let id = text_take 12 ins.id in
    if not (name == "")
    then some name
    else if not (ins.hostname == "")
    then some ins.hostname
    else id

abbrev pub of_built : Result ContainerSpec → Exported
of_built (ok c) = exported c
of_built (err e) = not_exported e

-- The loop over the middlewares.
pub name_middlewares : Dict MiddlewareSpec → Dict MiddlewareSpec
name_middlewares [] = []
name_middlewares ((name, mw) ∷ mws) = (name, record mw { name = name }) ∷ name_middlewares mws

-- A container that was opted in but has no service gets one for its routers.
pub with_default : Dict RouterSpec → Dict ServiceSpec → Dict ServiceSpec
with_default routers services =
    if is_empty services && not (is_empty routers)
    then ("default", service_stub "default") ∷ []
    else services

abbrev pub first_name : Dict ServiceSpec → String
first_name [] = ""
first_name ((name, svc) ∷ services) = name

abbrev pub is_single : Dict ServiceSpec → Bool
is_single (svc ∷ []) = true
is_single _ = false

module _ {U : Type 0} (lib : Library U) where
  -- fmt.Errorf with one name in quotes
  abbrev pub about : String → String → String → String
  about kind name text = text_append kind (text_append (lib.quote name) text)

  abbrev pub put_service :
      String → ServiceSpec → Dict ServiceSpec → Result Backend → Result (Dict ServiceSpec)
  put_service name svc out (err e) = err (about "service " name (text_append ": " e))
  put_service name svc out (ok b) = ok (
      insert name
        (record svc { name = name; backend_url = b.url; backend_source = b.source; port = b.port })
        out)

  -- The loop over the services.
  pub resolve_services :
      Dict String
      → ContainerInspect
      → String
      → Dict ServiceSpec
      → Dict ServiceSpec
      → Result (Dict ServiceSpec)
  resolve_services labels ins advertise_addr [] out = ok out
  resolve_services labels ins advertise_addr ((name, svc) ∷ services) out =
      put_service name svc out (resolve_backend_url lib labels ins advertise_addr svc.port)
      >>= resolve_services labels ins advertise_addr services

  -- The service of a router, the one it names or else the only one or "default".
  pub router_service : String → RouterSpec → Dict ServiceSpec → Result String
  router_service name r services =
      if not (r.service == "")
      then ok r.service
      else if is_single services
      then ok (first_name services)
      else if is_some (lookup "default" services)
      then ok "default"
      else err (about "router " name " does not specify a service and multiple services exist")

  pub check_middlewares : String → List String → Dict MiddlewareSpec → Result (Unit {0})
  check_middlewares name [] mws = ok tt
  check_middlewares name (mw ∷ names) mws =
      let rest = check_middlewares name names mws in
      if is_some (lookup mw mws)
      then rest
      else err (about "router " name (about " references unknown middleware " mw ""))

  abbrev pub with_service :
      String → RouterSpec → Dict ServiceSpec → Dict MiddlewareSpec → String → Result RouterSpec
  with_service name r resolved mws service =
      if is_some (lookup service resolved)
      then (check_middlewares name r.middlewares mws >>= λ _.
          ok (record r { name = name; service = service }))
      else err (about "router " name (about " references unknown service " service ""))

  -- A round of the loop over the routers.
  pub check_router :
      String
      → RouterSpec
      → Dict ServiceSpec
      → Dict ServiceSpec
      → Dict MiddlewareSpec
      → Result RouterSpec
  check_router name r services resolved mws =
      if trim_space r.rule == ""
      then err (about "router " name " is missing rule")
      else (router_service name r services >>= with_service name r resolved mws)

  pub check_routers :
      Dict ServiceSpec
      → Dict ServiceSpec
      → Dict MiddlewareSpec
      → Dict RouterSpec
      → Dict RouterSpec
      → Result (Dict RouterSpec)
  check_routers services resolved mws [] out = ok out
  check_routers services resolved mws ((name, r) ∷ routers) out =
      check_router name r services resolved mws >>= λ r'.
      check_routers services resolved mws routers (insert name r' out)

  module _ (orders : Orders) (now : Instant) (ins : ContainerInspect)
      (advertise_addr : String) where
    abbrev pub notes_of : OptInDecision → Bool → List String
    notes_of decision true = decision.reason ∷ "synthesized default service" ∷ []
    notes_of decision false = decision.reason ∷ []

    abbrev pub assemble :
        String
        → OptInDecision
        → Dict RouterSpec
        → Dict ServiceSpec
        → Dict MiddlewareSpec
        → Result ContainerSpec
    assemble name decision routers services mws =
        resolve_services ins.labels ins advertise_addr
          (orders.services (with_default routers services)) []
        >>= λ resolved.
            check_routers (with_default routers services) resolved mws (orders.routers routers) []
            >>= λ checked. ok (record {
              id = ins.id;
              name = name;
              image = ins.config_image;
              labels = relevant_labels ins.labels;
              exported_at = now;
              resolution_notes = notes_of decision (is_empty services && not (is_empty routers));
              routers = checked;
              services = resolved;
              middlewares = name_middlewares mws;
            })

    abbrev pub build_named : OptInDecision → Option String → Exported
    build_named decision none = panicked
    build_named decision (some name) =
        let routers = parse_routers lib.unicode ins.labels in
        if is_empty routers
        then not_exported "no router labels found"
        else of_built (
            assemble name decision routers (parse_services lib.unicode ins.labels)
              (parse_middlewares lib.unicode ins.labels))

    pub build_container : Exported
    build_container =
        let decision = is_enabled lib.unicode ins.labels in
        if parse_bool lib.unicode (text_at ins.labels managed_label) false
        then not_exported "not exported: managed container"
        else if decision.enabled
        then build_named decision (container_name ins)
        else not_exported (text_append "not exported: " decision.reason)
