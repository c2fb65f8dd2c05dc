-- ===== src/Receiver/Stubs/Laws.antt =====
-- What the stubs of a snapshot guarantee.
use Prim.Native.String.{◌++◌}
use text.Mathlib.TextLemmas.{nil-append}
use text.Mathlib.TextLemmas.{cons-append}
use traefik_connect.Common.{
  sym, ap, ◌≢◌, at_or, String, ◌≡◌, refl, ◌∙◌, Option, none, some, List, [], ◌∷◌, All, Dict, lookup,
  insert, lookup-insert, ok, err, ok-injective, Result, arith, has_prefix, eq_iff,
}
use traefik_connect.Model.{
  zero_router, zero_service, RouterSpec, ServiceSpec, TlsSpec, MiddlewareSpec, ContainerSpec,
  Snapshot,
}
use traefik_connect.Receiver.Labels.{run, put_all, middleware_labels}
use traefik_connect.Receiver.Labels.Touches.{
  Touches, Touches-run, touches_rules, IsRouting, IsRouting-append, lookup-middleware_labels,
}
use traefik_connect.Receiver.Stubs.{
  StubSpec, StubSettings, managed_label, worker_label, hash_label, tls_edits, tcp_router_edits,
  http_router_edits, router_edits, put_found, put_middlewares, put_routers, own_edits,
  service_edits, stub_labels, unhashed_stub, build_stub, with_hash, stub_env, target_url,
}

literal_routing :
    IsRouting "traefik.tcp.routers."
    × IsRouting "traefik.http.routers."
    × IsRouting "traefik.enable"
    × IsRouting "traefik.docker.network"
    × IsRouting "traefik.http.services."
    × IsRouting "traefik.tcp.services."
unfolding has_prefix
literal_routing = (refl, refl, refl, refl, refl, refl)

tcp_key : (name field : String) → IsRouting (("traefik.tcp.routers." ++ name) ++ field)
tcp_key name field =
    IsRouting-append ("traefik.tcp.routers." ++ name) field
      (IsRouting-append "traefik.tcp.routers." name literal_routing.0)

http_key : (name field : String) → IsRouting (("traefik.http.routers." ++ name) ++ field)
http_key name field =
    IsRouting-append ("traefik.http.routers." ++ name) field
      (IsRouting-append "traefik.http.routers." name literal_routing.1)

enable_key : IsRouting "traefik.enable"
enable_key = literal_routing.2

network_key : IsRouting "traefik.docker.network"
network_key = literal_routing.3

http_service_key : (name field : String) → IsRouting ("traefik.http.services." ++ (name ++ field))
http_service_key name field = IsRouting-append "traefik.http.services." _ literal_routing.4

tcp_service_key : (name field : String) → IsRouting ("traefik.tcp.services." ++ (name ++ field))
tcp_service_key name field = IsRouting-append "traefik.tcp.services." _ literal_routing.5

-- Labels that are copied from a map touch only what that map has.
put_all_same :
    (from : Dict String) (k : String) (m : Dict String)
    → lookup k from ≡ none
    → lookup k (put_all "" from m) ≡ lookup k m
unfolding put_all lookup
put_all_same [] k m h = refl
put_all_same ((j, v) ∷ from) k m h =
    rw (nil-append j)
      (ground (arith, eq_iff j k, lookup-insert j k v m, put_all_same from k (insert j v m)))

put_found-Touches :
    (name : String) (o : Option MiddlewareSpec) → Touches IsRouting (put_found name o)
put_found-Touches name none = record { same = λ k n m. refl }
put_found-Touches name (some mw) = record {
  same =
      λ k n m. put_all_same (middleware_labels name mw) k m (lookup-middleware_labels name mw k n);
}

put_middlewares-Touches :
    (mws : Dict MiddlewareSpec) (names : List String)
    → Touches IsRouting (put_middlewares mws names)
unfolding put_middlewares
put_middlewares-Touches mws [] = record { same = λ k n m. refl }
put_middlewares-Touches mws (name ∷ names) = record {
  same = λ k n m.
      (put_middlewares-Touches mws names).same k n (put_found name (lookup name mws) m)
      ∙ (put_found-Touches name (lookup name mws)).same k n m;
}

tls_edits-Touches :
    (name : String) (tls : TlsSpec)
    → Touches IsRouting (tls_edits ("traefik.tcp.routers." ++ name) tls)
unfolding tls_edits
tls_edits-Touches name tls = search (touches_rules, tcp_key)

router_edits-Touches :
    (mws : Dict MiddlewareSpec) (service name : String) (r : RouterSpec) (tls : Option TlsSpec)
    → All (Touches IsRouting) (router_edits mws service name r tls)
unfolding router_edits http_router_edits tcp_router_edits
router_edits-Touches mws service name r none =
    search (touches_rules, http_key, put_middlewares-Touches)
router_edits-Touches mws service name r (some tls) =
    search (touches_rules, tcp_key, tls_edits-Touches)

put_routers-Touches :
    (c : ContainerSpec) (service : String) (names : List String)
    → Touches IsRouting (put_routers c service names)
unfolding put_routers
put_routers-Touches c service [] = record { same = λ k n m. refl }
put_routers-Touches c service (name ∷ names) =
    let r = at_or zero_router c.routers name in
    let here = Touches-run IsRouting _ (router_edits-Touches c.middlewares service name r r.tls) in
    record { same = λ k n m. (put_routers-Touches c service names).same k n _ ∙ here.same k n m }

service_edits-Touches :
    (s : StubSettings) (service : String) (svc : ServiceSpec)
    → All (Touches IsRouting) (service_edits s service svc)
unfolding service_edits
service_edits-Touches s service svc =
    search (touches_rules, enable_key, network_key, http_service_key, tcp_service_key)

-- A label that Traefik does not read keeps the value that the receiver gave it.
own_label :
    (s : StubSettings) (snap : Snapshot) (c : ContainerSpec) (service : String)
    (routers : List String) (k : String)
    → ¬ IsRouting k
    → lookup k (stub_labels s snap c service routers) ≡ lookup k (run (own_edits snap c service) [])
unfolding stub_labels
own_label s snap c service routers k n =
    (put_routers-Touches c service routers).same k n _
    ∙ (Touches-run IsRouting _
          (service_edits-Touches s service (at_or zero_service c.services service))).same
        k n _

not_routing : (¬ IsRouting managed_label) × (¬ IsRouting worker_label) × (¬ IsRouting hash_label)
unfolding has_prefix
not_routing = (λ e. cc e, λ e. cc e, λ e. cc e)

own_values :
    (snap : Snapshot) (c : ContainerSpec) (service : String)
    → (lookup managed_label (run (own_edits snap c service) []) ≡ some "true")
      × (lookup worker_label (run (own_edits snap c service) []) ≡ some snap.worker_id)
unfolding own_edits run insert lookup
own_values snap c service = (refl, refl)

-- A stub as the receiver finds it again: marked as managed, for its worker, with its hash.
pub record IsMarked (worker_id : String) (spec : StubSpec) : Type 0 where
  pub managed : lookup managed_label spec.labels ≡ some "true"
  pub worker : lookup worker_label spec.labels ≡ some worker_id
  pub hash : lookup hash_label spec.labels ≡ some spec.desired_hash

with_hash-IsMarked :
    (w : String) (spec spec' : StubSpec) (r : Result String)
    → lookup managed_label spec.labels ≡ some "true"
    → lookup worker_label spec.labels ≡ some w
    → with_hash spec r ≡ ok spec'
    → IsMarked w spec'
with_hash-IsMarked w spec spec' (err e) m k h = cc
with_hash-IsMarked w spec spec' (ok hash) m k h = rw (← (ok-injective h)) (record {
  managed = rw (lookup-insert hash_label managed_label hash spec.labels) m;
  worker = rw (lookup-insert hash_label worker_label hash spec.labels) k;
  hash = rw (lookup-insert hash_label hash_label hash spec.labels) refl;
})

pub build_stub-IsMarked :
    (s : StubSettings) (snap : Snapshot) (image_id : String) (c : ContainerSpec) (service : String)
    (routers : List String) (spec : StubSpec)
    → build_stub s snap image_id c service routers ≡ ok spec
    → IsMarked snap.worker_id spec
unfolding build_stub unhashed_stub
build_stub-IsMarked s snap image_id c service routers spec h =
    let (managed, worker) = own_values snap c service in
    with_hash-IsMarked snap.worker_id (unhashed_stub s snap image_id c service routers) spec _
      (own_label s snap c service routers managed_label not_routing.0 ∙ managed)
      (own_label s snap c service routers worker_label not_routing.1 ∙ worker) h

with_hash-service_name :
    (spec spec' : StubSpec) (r : Result String)
    → with_hash spec r ≡ ok spec'
    → spec'.service_name ≡ spec.service_name
with_hash-service_name spec spec' (err e) h = cc
with_hash-service_name spec spec' (ok hash) h = ground arith

pub build_stub-service_name :
    (s : StubSettings) (snap : Snapshot) (image_id : String) (c : ContainerSpec) (service : String)
    (routers : List String) (spec : StubSpec)
    → build_stub s snap image_id c service routers ≡ ok spec
    → spec.service_name ≡ service
unfolding build_stub unhashed_stub
build_stub-service_name s snap image_id c service routers spec h =
    with_hash-service_name (unhashed_stub s snap image_id c service routers) spec _ h

with_hash-env :
    (spec spec' : StubSpec) (r : Result String) → with_hash spec r ≡ ok spec' → spec'.env ≡ spec.env
with_hash-env spec spec' (err e) h = cc
with_hash-env spec spec' (ok hash) h = ap (λ s. s.env) (sym (ok-injective h))

pub build_stub-env :
    (s : StubSettings) (snap : Snapshot) (image_id : String) (c : ContainerSpec) (service : String)
    (routers : List String) (spec : StubSpec)
    → build_stub s snap image_id c service routers ≡ ok spec
    → spec.env ≡ stub_env (target_url snap) s.token c.id service
unfolding build_stub unhashed_stub
build_stub-env s snap image_id c service routers spec h =
    with_hash-env (unhashed_stub s snap image_id c service routers) spec _ h

pub target_url-ne-empty : (snap : Snapshot) → target_url snap ≢ ""
unfolding target_url
target_url-ne-empty snap e = cc (sym (cons-append "h" "ttp://" _) ∙ e)
