-- ===== src/Render/Snapshot.antt =====
-- renderContainer and RenderSnapshot of internal/render/render.go.
pub mod Order
pub mod Closed
pub mod Tests
use Prim.Native.String.{◌++◌}
use mathlib.Core.List.{◌++◌ as append}
use traefik_connect.Common.{
  String, Bool, ◌&&◌, not, List, [], ◌∷◌, ◌==◌, if◌then◌else◌, Dict, keys, at_or, map, is_empty,
  sort_by, sort_texts, sort_with, lt_text, Unicode,
}
use traefik_connect.Model.{
  RouterSpec, ServiceSpec, MiddlewareSpec, ContainerSpec, Snapshot, zero_router, zero_service,
  zero_middleware,
}
use traefik_connect.Render.{
  Block, heading, when, render_router, render_service, qualified_name, name_map,
}
use traefik_connect.Render.Middleware.{render_middleware}

-- sortedKeys
abbrev pub sorted_keys {ℓ} : {V : Type ℓ} → Dict V → List String
sorted_keys m = sort_texts (keys m)

pub record Blocks : Type 0 where
  pub routers : List Block
  pub services : List Block
  pub middlewares : List Block

-- The order of the containers: by name, and by id within a name.
pub less_container : ContainerSpec → ContainerSpec → Bool
less_container c d = if c.name == d.name then lt_text c.id d.id else lt_text c.name d.name

pub bodies : List Block → String
bodies [] = ""
bodies (b ∷ bs) = b.body ++ bodies bs

-- writeSection
pub write_section : String → List Block → String
write_section name blocks = heading 1 name ++ bodies (sort_by (λ b. b.name) blocks)

abbrev section : String → List Block → String
section name blocks = when (not (is_empty blocks)) (write_section name blocks)

-- One block for each name, in the order of the names.
abbrev pub block_each :
    {V : Type 0} → (String → String) → V → (String → V → Block) → Dict V → List String → List Block
block_each qualify zero render specs [] = []
block_each qualify zero render specs (local ∷ rest) =
    render (qualify local) (at_or zero specs local) ∷ block_each qualify zero render specs rest

module _ (u : Unicode) (quote : String → String) where
  pub render_container : String → ContainerSpec → Blocks
  render_container worker_id c =
      let qualify = qualified_name u worker_id c in
      let service_map = name_map qualify (sorted_keys c.services) in
      let mw_map = name_map qualify (sorted_keys c.middlewares) in
      record {
        routers =
            block_each qualify zero_router (λ name r. render_router quote name r service_map mw_map)
              c.routers (sorted_keys c.routers);
        services =
            block_each qualify zero_service (render_service quote) c.services
              (sorted_keys c.services);
        middlewares =
            block_each qualify zero_middleware (render_middleware quote) c.middlewares
              (sorted_keys c.middlewares);
      }

  -- The loop over the containers.
  pub render_containers : String → List ContainerSpec → Blocks
  render_containers worker_id [] = record { routers = []; services = []; middlewares = [] }
  render_containers worker_id (c ∷ cs) =
      let own = render_container worker_id c in
      let rest = render_containers worker_id cs in
      record {
        routers = append own.routers rest.routers;
        services = append own.services rest.services;
        middlewares = append own.middlewares rest.middlewares;
      }

  pub write_blocks : Blocks → String
  write_blocks b =
      if is_empty b.routers && (is_empty b.services && is_empty b.middlewares)
      then ""
      else "http:\n"
        ++ (section "routers" b.routers
            ++ (section "services" b.services ++ section "middlewares" b.middlewares))

  pub render_snapshot : Snapshot → String
  render_snapshot snap =
      write_blocks (render_containers snap.worker_id (sort_with less_container snap.containers))
