-- ===== src/Parse/Backend/Laws.antt =====
-- internal/parse/labels.go: the port that resolveBackendURL finds for a service.
use traefik_connect.Common.{
  String, ◌≡◌, refl, ap, false, Option, none, some, List, [], ◌∷◌, All, ◌==◌, if◌then◌else◌, Dict,
  lookup, equal_fold, Result, ok, err, >>=-eq-ok, ok-injective, ℤ, not_positive, atoi, arith,
  Bool-cases, ◌⊎◌, inl, inr, trim_space, before,
}
use traefik_connect.Dockerx.{ContainerInspect}
use traefik_connect.Parse.Backend.{
  Library, Backend, not_blank, positive, parse_container_port, is_in, add_port, port_set, only_port,
  exposed_port, or_else, infer_port, preferred_container_addr, url_backend, from_url, override_port,
  host_backend, from_host, reach, from_container, resolve_by, resolve_backend_url,
}

-- A port above 0.
abbrev pub IsPort : ℤ → Type 0
IsPort n = not_positive n ≡ false

-- The port is the one asked for, of a URL that was given, or it is above 0.
pub Ported : ℤ → Backend → Type 0
Ported service_port b = ((b.source ≡ "override-url") × (b.port ≡ service_port)) ⊎ IsPort b.port

abbrev value_or : ℤ → Option ℤ → ℤ
value_or n none = n
value_or n (some m) = m

some_injective : {m n : ℤ} → some m ≡ some n → m ≡ n
some_injective {m} e = ap (λ o. value_or m o) e

positive-IsPort : (o : Option ℤ) (n : ℤ) → positive o ≡ some n → IsPort n
positive-IsPort none n h = cc
positive-IsPort (some m) n h = elim (Bool-cases (not_positive m)) [
  | inl e ↦ ground (arith, e, h)
  | inr e ↦ rw (← (some_injective (rw e at h))) e
]

add_port-All :
    (o : Option ℤ) (ports : List ℤ)
    → ((n : ℤ) → o ≡ some n → IsPort n)
    → All IsPort ports
    → All IsPort (add_port o ports)
add_port-All none ports h hs = hs
add_port-All (some n) ports h hs = elim (Bool-cases (is_in n ports)) [
  | inl e ↦ rw e hs
  | inr e ↦ rw e (h n refl, hs)
]

port_set-All :
    (ks : List String) (ports : List ℤ) → All IsPort ports → All IsPort (port_set ks ports)
unfolding port_set parse_container_port
port_set-All [] ports hs = hs
port_set-All (k ∷ ks) ports hs =
    port_set-All ks (add_port (positive (atoi (before b'/' k))) ports) (
      add_port-All (positive (atoi (before b'/' k))) ports
        (λ n e. positive-IsPort (atoi (before b'/' k)) n e) hs)

only_port-ok : (ports : List ℤ) (n : ℤ) → All IsPort ports → only_port ports ≡ ok n → IsPort n
only_port-ok [] n hs h = cc
only_port-ok (m ∷ []) n (hm, hs) h = rw (← ok-injective h) hm
only_port-ok (m ∷ k ∷ ms) n hs h = cc

exposed_port-some : (ks : List String) (n : ℤ) → exposed_port ks ≡ some n → IsPort n
unfolding parse_container_port
exposed_port-some [] n h = cc
exposed_port-some (k ∷ []) n h = positive-IsPort (atoi (before b'/' k)) n h
exposed_port-some (k ∷ j ∷ ks) n h = cc

or_else-ok :
    (o : Option ℤ) (r : Result ℤ) (n : ℤ)
    → ((m : ℤ) → o ≡ some m → IsPort m)
    → ((m : ℤ) → r ≡ ok m → IsPort m)
    → or_else o r ≡ ok n
    → IsPort n
or_else-ok none r n ho hr h = hr n h
or_else-ok (some m) r n ho hr h = rw (← ok-injective h) (ho m refl)

infer_port-IsPort : (ins : ContainerInspect) (n : ℤ) → infer_port ins ≡ ok n → IsPort n
unfolding infer_port
infer_port-IsPort ins n h =
    or_else-ok (exposed_port ins.exposed_ports) (only_port (port_set ins.ports [])) n
      (λ m e. exposed_port-some ins.exposed_ports m e)
      (λ m e. only_port-ok (port_set ins.ports []) m (port_set-All ins.ports [] tt) e) h

module _ {U : Type 0} (lib : Library U) where
  parsed-Ported : (r : Result U) (n : ℤ) (b : Backend) → url_backend lib n r ≡ ok b → Ported n b
  unfolding Ported
  parsed-Ported (err e) n b h = cc
  parsed-Ported (ok u) n b h = rw (← ok-injective h) (inl (refl, refl))

  host_backend-IsPort :
      (labels : Dict String) (host : String) (port : ℤ) (b : Backend)
      → host_backend lib labels host port ≡ ok b
      → IsPort b.port
  host_backend-IsPort labels host port b h = elim (Bool-cases (not_positive port)) [
    | inl e ↦ ground (arith, e, h)
    | inr e ↦ rw (← ok-injective (rw e at h)) e
  ]

  reach-IsPort :
      (labels : Dict String) (ins : ContainerInspect) (advertise_addr : String) (port : ℤ)
      (b : Backend)
      → IsPort port
      → reach lib labels ins advertise_addr port ≡ ok b
      → IsPort b.port
  reach-IsPort labels ins advertise_addr port b hp h =
      elim (Bool-cases (equal_fold lib.unicode ins.network_mode "host")) [
        | inl e ↦ elim (Bool-cases (advertise_addr == "")) [
          | inl f ↦ ground (arith, e, f, h)
          | inr f ↦ rw (← ok-injective (rw (e, f) at h)) hp
        ]
        | inr e ↦ elim (Bool-cases (preferred_container_addr ins labels == "")) [
          | inl f ↦ ground (arith, e, f, h)
          | inr f ↦ rw (← ok-injective (rw (e, f) at h)) hp
        ]
      ]

  from_container-IsPort :
      (labels : Dict String) (ins : ContainerInspect) (advertise_addr : String) (service_port : ℤ)
      (b : Backend)
      → from_container lib labels ins advertise_addr service_port ≡ ok b
      → IsPort b.port
  unfolding from_container
  from_container-IsPort labels ins advertise_addr service_port b h =
      let (port, found, next) =
        >>=-eq-ok (if not_positive service_port then infer_port ins else ok service_port)
          (reach lib labels ins advertise_addr) h in
      reach-IsPort labels ins advertise_addr port b
        (elim (Bool-cases (not_positive service_port)) [
          | inl e ↦ infer_port-IsPort ins port (rw e at found)
          | inr e ↦ rw (← ok-injective (rw e at found)) e
        ])
        next

  resolve_by-Ported :
      (url host : Option String) (labels : Dict String) (ins : ContainerInspect)
      (advertise_addr : String) (service_port : ℤ) (b : Backend)
      → resolve_by lib url host labels ins advertise_addr service_port ≡ ok b
      → Ported service_port b
  unfolding Ported from_url from_host
  resolve_by-Ported (some v) host labels ins advertise_addr n b h =
      parsed-Ported (lib.parse (trim_space v)) n b h
  resolve_by-Ported none (some host) labels ins advertise_addr n b h =
      let (port, found, next) =
        >>=-eq-ok (override_port lib (not_blank (lookup "traefik-connect.backend.port" labels)) n)
          (host_backend lib labels host) h in
      inr (host_backend-IsPort labels host port b next)
  resolve_by-Ported none none labels ins advertise_addr n b h =
      inr (from_container-IsPort labels ins advertise_addr n b h)

  -- A backend that is found has a port above 0, unless the container's labels give its whole URL:
  -- then its port is the service's, whatever that is.
  pub resolve_backend_url-Ported :
      (labels : Dict String) (ins : ContainerInspect) (advertise_addr : String) (service_port : ℤ)
      (b : Backend)
      → resolve_backend_url lib labels ins advertise_addr service_port ≡ ok b
      → Ported service_port b
  unfolding resolve_backend_url
  resolve_backend_url-Ported labels ins advertise_addr n b h =
      resolve_by-Ported (not_blank (lookup "traefik-connect.backend.url" labels))
        (not_blank (lookup "traefik-connect.backend.host" labels)) labels ins advertise_addr n b h
