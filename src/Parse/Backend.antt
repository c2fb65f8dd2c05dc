-- ===== src/Parse/Backend.antt =====
-- internal/parse/labels.go: resolveBackendURL, backendScheme, inferPort, parseContainerPort and
-- preferredContainerAddr.
pub mod Laws
pub mod Tests
use Prim.Native.String.{◌++◌ as text_append}
use traefik_connect.Common.{
  String, Bool, true, false, not, ◌&&◌, Option, none, some, List, [], ◌∷◌, ◌==◌, if◌then◌else◌,
  Dict, lookup, keys, text_at, Unicode, equal_fold, trim_space, before, sort_texts, Result, ok, err,
  ◌>>=◌, ℤ, pos, negsuc, atoi, itoa, not_positive, eqb,
}
use traefik_connect.Dockerx.{ContainerInspect}

-- net/url, and strconv.Quote
pub record Library (U : Type 0) : Type 0 where
  pub unicode : Unicode
  pub parse : String → Result U
  pub scheme : U → String
  pub with_scheme : String → U → U
  -- url.URL{Scheme: scheme, Host: host}
  pub of_host : String → String → U
  pub print : U → String
  pub quote : String → String

pub record Backend : Type 0 where
  pub url : String
  pub source : String
  pub port : ℤ

abbrev pub backend : String → String → ℤ → Backend
backend url source port = record { url = url; source = source; port = port }

-- The value, where it is not blank.
abbrev pub not_blank : Option String → Option String
not_blank none = none
not_blank (some v) = if trim_space v == "" then none else some v

pub backend_scheme : Dict String → String → String
backend_scheme labels default = elim (not_blank (lookup "traefik-connect.backend.scheme" labels)) [
  | none ↦ default
  | some v ↦ trim_space v
]

abbrev pub positive : Option ℤ → Option ℤ
positive none = none
positive (some n) = if not_positive n then none else some n

pub parse_container_port : String → Option ℤ
parse_container_port raw = positive (atoi (before b'/' raw))

-- The single number that the ports have in common, of those that parse.
pub same_int : ℤ → ℤ → Bool
same_int (pos m) (pos n) = eqb m n
same_int (negsuc m) (negsuc n) = eqb m n
same_int _ _ = false

abbrev pub is_in : ℤ → List ℤ → Bool
is_in n [] = false
is_in n (m ∷ ms) = if same_int m n then true else is_in n ms

abbrev pub add_port : Option ℤ → List ℤ → List ℤ
add_port none ports = ports
add_port (some n) ports = if is_in n ports then ports else n ∷ ports

-- The set of the ports that parse.
pub port_set : List String → List ℤ → List ℤ
port_set [] ports = ports
port_set (k ∷ ks) ports = port_set ks (add_port (parse_container_port k) ports)

abbrev pub cannot_infer : String
cannot_infer =
    "unable to infer service port; add traefik.http.services.<name>.loadbalancer.server.port"

abbrev pub only_port : List ℤ → Result ℤ
only_port (n ∷ []) = ok n
only_port _ = err cannot_infer

abbrev pub exposed_port : List String → Option ℤ
exposed_port (k ∷ []) = parse_container_port k
exposed_port _ = none

abbrev pub or_else : Option ℤ → Result ℤ → Result ℤ
or_else (some n) r = ok n
or_else none r = r

pub infer_port : ContainerInspect → Result ℤ
infer_port ins = or_else (exposed_port ins.exposed_ports) (only_port (port_set ins.ports []))

-- The first network address that is not blank.
pub first_addr : Dict String → List String → String
first_addr networks [] = ""
first_addr networks (name ∷ names) =
    let ip = trim_space (text_at networks name) in
    let rest = first_addr networks names in if ip == "" then rest else ip

-- `networks` has the address of each network.
unfoldable pub preferred_container_addr : ContainerInspect → Dict String → String
preferred_container_addr ins labels =
    let preferred = trim_space (text_at labels "traefik.docker.network") in
    let chosen = text_at ins.networks preferred in
    let first = first_addr ins.networks (sort_texts (keys ins.networks)) in
    if not (ins.ip_address == "")
    then ins.ip_address
    else if not (preferred == "") && not (chosen == "")
    then chosen
    else first

module _ {U : Type 0} (lib : Library U) where
  -- fmt.Sprintf("http://%s:%d", host, port)
  abbrev pub http_url : String → ℤ → String
  http_url host port = text_append "http://" (text_append host (text_append ":" (itoa port)))

  abbrev pub url_backend : ℤ → Result U → Result Backend
  url_backend service_port (err e) = err (text_append "invalid backend url: " e)
  url_backend service_port (ok u) = ok (
      backend (lib.print (if lib.scheme u == "" then lib.with_scheme "http" u else u))
        "override-url" service_port)

  pub from_url : String → ℤ → Result Backend
  from_url v service_port = url_backend service_port (lib.parse (trim_space v))

  abbrev pub override_port : Option String → ℤ → Result ℤ
  override_port none service_port = ok service_port
  override_port (some v) service_port = elim (positive (atoi (trim_space v))) [
    | none ↦ err (text_append "invalid backend port: " (lib.quote v))
    | some n ↦ ok n
  ]

  abbrev pub host_backend : Dict String → String → ℤ → Result Backend
  host_backend labels host port =
      if not_positive port
      then err "backend host specified without valid port"
      else ok (
          backend
            (lib.print (
              lib.of_host (backend_scheme labels "http")
                (text_append (trim_space host) (text_append ":" (itoa port)))))
            "override-host-port" port)

  pub from_host : Dict String → String → ℤ → Result Backend
  from_host labels host service_port =
      override_port (not_blank (lookup "traefik-connect.backend.port" labels)) service_port
      >>= host_backend labels host

  abbrev pub reach : Dict String → ContainerInspect → String → ℤ → Result Backend
  reach labels ins advertise_addr port =
      let addr = preferred_container_addr ins labels in
      if equal_fold lib.unicode ins.network_mode "host"
      then (if advertise_addr == ""
          then err "host network container requires advertise address"
          else ok (backend (http_url advertise_addr port) "host-network" port))
      else if addr == ""
      then err (text_append "no reachable container address for port " (itoa port))
      else ok (backend (http_url addr port) "container-ip" port)

  unfoldable pub from_container : Dict String → ContainerInspect → String → ℤ → Result Backend
  from_container labels ins advertise_addr service_port =
      (if not_positive service_port then infer_port ins else ok service_port)
      >>= reach labels ins advertise_addr

  abbrev pub resolve_by :
      Option String → Option String → Dict String → ContainerInspect → String → ℤ → Result Backend
  resolve_by (some v) host labels ins advertise_addr service_port = from_url v service_port
  resolve_by none (some host) labels ins advertise_addr service_port =
      from_host labels host service_port
  resolve_by none none labels ins advertise_addr service_port =
      from_container labels ins advertise_addr service_port

  unfoldable pub resolve_backend_url : Dict String → ContainerInspect → String → ℤ → Result Backend
  resolve_backend_url labels ins advertise_addr service_port =
      resolve_by (not_blank (lookup "traefik-connect.backend.url" labels))
        (not_blank (lookup "traefik-connect.backend.host" labels)) labels ins advertise_addr
        service_port
