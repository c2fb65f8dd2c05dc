-- ===== src/Render/Snapshot/Order.antt =====
-- internal/render/render.go: what is written does not show the order of the containers, of a map's
-- entries or of a list's items.
use Prim.Native.String.{◌++◌ as text_append}
use mathlib.Core.Path.{ap₂}
use mathlib.Core.List.Permᴰ
use mathlib.Core.List.{Permᴰ}
use traefik_connect.Common.{
  String, Option, none, some, List, [], ◌∷◌, eq_iff, Dict, lookup, keys, text_at, or_zero, is_empty,
  Unicode, ◌≡◌, refl, ap, arith, ◌∙◌, ℕ,
}
use traefik_connect.Common.Sort.Order.{lt_text_asymm, lt_text_trans}
use traefik_connect.Common.Sort.Laws.{
  IsStrict, AllComparable, sort_with-unordered, sort_texts-unordered,
}
use traefik_connect.Model.{
  RouterSpec, ServiceSpec, MiddlewareSpec, ContainerSpec, Snapshot, zero_router, zero_service,
  zero_middleware,
}
use traefik_connect.Render.{
  Block, add_name, unless_none, key_value, string_list, map_items, string_map, resolved_names,
  render_router, render_service, name_map, qualified_name,
}
use traefik_connect.Render.Middleware.{render_middleware}
use traefik_connect.Render.Snapshot.{
  less_container, sorted_keys, block_each, render_container, render_snapshot,
}

is_empty-perm : {A : Type 0} (xs ys : List A) → Permᴰ xs ys → is_empty xs ≡ is_empty ys
is_empty-perm [] [] Permᴰ.nil = refl
is_empty-perm (a ∷ xs) (b ∷ ys) (Permᴰ.cons e d) = refl
is_empty-perm (a ∷ b ∷ xs) (c ∷ d ∷ ys) (Permᴰ.swap e f) = refl
is_empty-perm xs ys (Permᴰ.trans {l₂ = zs} d e) = is_empty-perm xs zs d ∙ is_empty-perm zs ys e

add_name-perm :
    (o : Option String) (xs ys : List String) → Permᴰ xs ys → Permᴰ (add_name o xs) (add_name o ys)
add_name-perm none xs ys d = d
add_name-perm (some g) xs ys d = Permᴰ.cons refl d

add_name-swap :
    (o p : Option String) (xs : List String)
    → Permᴰ (add_name o (add_name p xs)) (add_name p (add_name o xs))
add_name-swap none p xs = Permᴰ.refl _
add_name-swap (some g) none xs = Permᴰ.refl _
add_name-swap (some g) (some h) xs = Permᴰ.swap refl refl

resolved_names-perm :
    (names : Dict String) (xs ys : List String)
    → Permᴰ xs ys
    → Permᴰ (resolved_names names xs) (resolved_names names ys)
unfolding resolved_names
resolved_names-perm names [] [] Permᴰ.nil = Permᴰ.nil
resolved_names-perm names (a ∷ xs) (b ∷ ys) (Permᴰ.cons e d) =
    rw (← e) (add_name-perm (lookup a names) _ _ (resolved_names-perm names xs ys d))
resolved_names-perm names (a ∷ b ∷ xs) (c ∷ d ∷ ys) (Permᴰ.swap e f) =
    rw (← e, ← f) (add_name-swap (lookup a names) (lookup b names) (resolved_names names xs))
resolved_names-perm names xs ys (Permᴰ.trans {l₂ = zs} d e) =
    Permᴰ.trans (resolved_names-perm names xs zs d) (resolved_names-perm names zs ys e)

unless_none-unordered :
    (quote : String → String) (indent : ℕ) (key : String) (xs ys : List String)
    → Permᴰ xs ys
    → unless_none quote indent key xs ≡ unless_none quote indent key ys
unfolding string_list
unless_none-unordered quote indent key xs ys d =
    rw (is_empty-perm xs ys d, sort_texts-unordered xs ys d) refl

-- Two routers whose entry points and middlewares are the same but for their order are written alike:
-- the order in which a router names its middlewares is lost.
pub render_router-unordered :
    (quote : String → String) (name : String) (r : RouterSpec) (service_map mw_map : Dict String)
    (points chain : List String)
    → Permᴰ r.entry_points points
    → Permᴰ r.middlewares chain
    → render_router quote name r service_map mw_map
      ≡ render_router quote name
          (record r { entry_points = points; middlewares = chain })
          service_map
          mw_map
unfolding render_router
render_router-unordered quote name r service_map mw_map points chain d e =
    rw
      (
        unless_none-unordered quote 3 "entryPoints" r.entry_points points d,
        unless_none-unordered quote 3 "middlewares" (resolved_names mw_map r.middlewares)
            (resolved_names mw_map chain) (resolved_names-perm mw_map r.middlewares chain e),
      )
      refl

less_container-IsStrict : IsStrict less_container
unfolding less_container
less_container-IsStrict = record {
  asymm = λ c d h. ground (
    arith,
    eq_iff c.name d.name,
    eq_iff d.name c.name,
    lt_text_asymm c.id d.id,
    lt_text_asymm c.name d.name,
  );
  trans = λ c d e h k. ground (
    arith,
    eq_iff c.name d.name,
    eq_iff d.name e.name,
    eq_iff c.name e.name,
    lt_text_asymm c.name d.name,
    lt_text_trans c.id d.id e.id,
    lt_text_trans c.name d.name e.name,
  );
}

-- The containers of a snapshot may come in any order: the configuration is the same, where the
-- containers have different names or ids.
pub render_snapshot-unordered :
    (u : Unicode) (quote : String → String) (snap : Snapshot) (cs : List ContainerSpec)
    → Permᴰ snap.containers cs
    → AllComparable less_container snap.containers
    → render_snapshot u quote snap ≡ render_snapshot u quote (record snap { containers = cs })
unfolding render_snapshot
render_snapshot-unordered u quote snap cs d h =
    rw (sort_with-unordered less_container less_container-IsStrict snap.containers cs d h) refl

-- Two maps with the same entries, in any order.
pub record SameMap {V : Type 0} (d e : Dict V) : Type 0 where
  pub same_keys : Permᴰ (keys d) (keys e)
  pub same_values : (k : String) → lookup k d ≡ lookup k e

sorted_keys-same : {V : Type 0} (d e : Dict V) → SameMap d e → sorted_keys d ≡ sorted_keys e
sorted_keys-same d e m = sort_texts-unordered (keys d) (keys e) m.same_keys

text_at-same : (d e : Dict String) (k : String) → SameMap d e → text_at d k ≡ text_at e k
text_at-same d e k m = ap (λ o. elim o [ none ↦ "" | some x ↦ x ]) (m.same_values k)

map_items-same :
    (quote : String → String) (indent : ℕ) (d e : Dict String) (ks : List String)
    → SameMap d e
    → map_items quote indent d ks ≡ map_items quote indent e ks
unfolding map_items
map_items-same quote indent d e [] m = refl
map_items-same quote indent d e (k ∷ ks) m =
    ap₂ (λ v rest. text_append (key_value indent k (quote v)) rest) (text_at-same d e k m)
      (map_items-same quote indent d e ks m)

-- writeStringMap writes the same for a map whatever the order in which Go ranges over it.
string_map-same :
    (quote : String → String) (indent : ℕ) (d e : Dict String)
    → SameMap d e
    → string_map quote indent d ≡ string_map quote indent e
unfolding string_map
string_map-same quote indent d e m =
    rw (sorted_keys-same d e m) (map_items-same quote indent d e (sorted_keys e) m)

block_each-same :
    {V : Type 0} (qualify : String → String) (zero : V) (render : String → V → Block) (d e : Dict V)
    (ks : List String)
    → SameMap d e
    → block_each qualify zero render d ks ≡ block_each qualify zero render e ks
block_each-same qualify zero render d e [] m = refl
block_each-same qualify zero render d e (k ∷ ks) m =
    ap₂ (λ o rest. render (qualify k) (or_zero zero o) ∷ rest) (m.same_values k)
      (block_each-same qualify zero render d e ks m)

-- The blocks of a container do not depend on the order in which Go ranges over its maps.
pub render_container-unordered :
    (u : Unicode) (quote : String → String) (worker_id : String) (c : ContainerSpec)
    (routers : Dict RouterSpec) (services : Dict ServiceSpec) (middlewares : Dict MiddlewareSpec)
    → SameMap c.routers routers
    → SameMap c.services services
    → SameMap c.middlewares middlewares
    → render_container u quote worker_id c
      ≡ render_container u quote worker_id
          (record c { routers = routers; services = services; middlewares = middlewares })
unfolding render_container qualified_name
render_container-unordered u quote worker_id c routers services middlewares r s m =
    rw
      (
        sorted_keys-same c.routers routers r,
        sorted_keys-same c.services services s,
        sorted_keys-same c.middlewares middlewares m,
        block_each-same (qualified_name u worker_id c) zero_router
            (λ name r'.
              render_router quote name r'
                (name_map (qualified_name u worker_id c) (sorted_keys services))
                (name_map (qualified_name u worker_id c) (sorted_keys middlewares)))
            c.routers routers (sorted_keys routers) r,
        block_each-same (qualified_name u worker_id c) zero_service (render_service quote)
            c.services services (sorted_keys services) s,
        block_each-same (qualified_name u worker_id c) zero_middleware (render_middleware quote)
            c.middlewares middlewares (sorted_keys middlewares) m,
      )
      refl
