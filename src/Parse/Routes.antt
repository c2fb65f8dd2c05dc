-- ===== src/Parse/Routes.antt =====
-- internal/parse/labels.go: parseServices, serviceStub and parseRouters.
use Prim.Native.String.{◌++◌ as text_append}
use traefik_connect.Common.{
  String, Bool, true, false, Option, none, some, List, [], ◌∷◌, if◌then◌else◌, Dict, lookup,
  Unicode, trim_space, ℤ, pos, atoi, not_positive,
}
use traefik_connect.Model.{TlsSpec, RouterSpec, ServiceSpec}
use traefik_connect.Parse.Values.{parse_bool, csv, collect_names}

pub service_stub : String → ServiceSpec
service_stub name = record {
  name = name;
  port = pos 0;
  backend_url = "";
  backend_source = "";
  pass_host_header = none;
  sticky = none;
}

-- The port, where the number is above 0.
abbrev pub port_of : Option ℤ → ℤ
port_of none = pos 0
port_of (some n) = if not_positive n then pos 0 else n

abbrev pub read_port : Option String → ℤ
read_port none = pos 0
read_port (some v) = port_of (atoi (trim_space v))

abbrev pub read_number : Option String → Option ℤ
read_number none = none
read_number (some v) = atoi (trim_space v)

abbrev pub read_list : Option String → List String
read_list none = []
read_list (some v) = csv v

abbrev pub read_text : Option String → String
read_text none = ""
read_text (some v) = trim_space v

abbrev pub with_resolver : Option String → Option TlsSpec → Option TlsSpec
with_resolver none tls = tls
with_resolver (some v) tls = some (record { cert_resolver = trim_space v })

module _ (u : Unicode) where
  abbrev pub read_flag : Bool → Option String → Option Bool
  read_flag default none = none
  read_flag default (some v) = some (parse_bool u v default)

  abbrev pub read_tls : Option String → Option TlsSpec
  read_tls none = none
  read_tls (some v) = if parse_bool u v false then some (record { cert_resolver = "" }) else none

  -- `labels[prefix+field]`
  unfoldable pub parse_service : Dict String → String → ServiceSpec
  parse_service labels name =
      let label : String → Option String = λ field.
        lookup (text_append "traefik.http.services." (text_append name (text_append "." field)))
          labels in
      record {
        name = name;
        port = read_port (label "loadbalancer.server.port");
        backend_url = "";
        backend_source = "";
        pass_host_header = read_flag true (label "loadbalancer.passhostheader");
        sticky = read_flag false (label "loadbalancer.sticky");
      }

  unfoldable pub parse_router : Dict String → String → RouterSpec
  parse_router labels name =
      let label : String → Option String = λ field.
        lookup (text_append "traefik.http.routers." (text_append name (text_append "." field)))
          labels in
      record {
        name = name;
        rule = read_text (label "rule");
        entry_points = read_list (label "entrypoints");
        tls = with_resolver (label "tls.certresolver") (read_tls (label "tls"));
        middlewares = read_list (label "middlewares");
        service = read_text (label "service");
        priority = read_number (label "priority");
      }

  unfoldable pub services_from : Dict String → List String → Dict ServiceSpec
  services_from labels [] = []
  services_from labels (name ∷ names) =
      (name, parse_service labels name) ∷ services_from labels names

  unfoldable pub routers_from : Dict String → List String → Dict RouterSpec
  routers_from labels [] = []
  routers_from labels (name ∷ names) = (name, parse_router labels name) ∷ routers_from labels names

  unfoldable pub parse_services : Dict String → Dict ServiceSpec
  parse_services labels = services_from labels (collect_names labels "traefik.http.services.")

  unfoldable pub parse_routers : Dict String → Dict RouterSpec
  parse_routers labels = routers_from labels (collect_names labels "traefik.http.routers.")
