-- ===== src/Parse/Container/Tests.antt =====
-- A container on its way out.
use traefik_connect.Common.{
  ◌≡◌, false, true, some, [], ◌∷◌, refl, pos, none, text_at, lookup, insert, trim_prefix,
  after_prefix, has_prefix, before, trim_space, trim_left, trim_right, is_space, to_lower,
  equal_fold, itoa, atoi, sort_texts, sort_by, insert_sorted,
}
use traefik_connect.Model.{ContainerSpec}
use traefik_connect.Parse.Tests.{text_urls, web_inspect}
use traefik_connect.Parse.Values.{
  managed_label, parse_bool, decide, is_enabled, relevant_labels, seen_names, collect_names,
}
use traefik_connect.Parse.Middlewares.{middlewares_from, parse_middlewares}
use traefik_connect.Parse.Routes.{
  parse_service, parse_router, services_from, routers_from, parse_services, parse_routers,
}
use traefik_connect.Parse.Backend.{resolve_backend_url, from_container, preferred_container_addr}
use traefik_connect.Parse.Container.{
  text_take, Orders, exported, container_name, name_middlewares, with_default, resolve_services,
  router_service, check_middlewares, check_router, check_routers, build_container,
}
use traefik_connect.Parse.Container.Complete.{KeepsEntries}
use traefik_connect.Parse.Container.Laws.{IsRoutable, build_container-exported}

abbrev pub in_order : Orders
in_order = record { services = λ m. m; routers = λ m. m }

abbrev pub web : ContainerSpec
web = record {
  id = "0123456789abcdef";
  name = "web";
  image = "nginx";
  labels = web_inspect.labels;
  exported_at = 5;
  resolution_notes = "traefik.enable=true" ∷ [];
  routers =
      (
        "web",
        record {
          name = "web";
          rule = "Host(`a.example`)";
          entry_points = [];
          tls = none;
          middlewares = [];
          service = "web";
          priority = none;
        },
      )
      ∷ [];
  services =
      (
        "web",
        record {
          name = "web";
          port = pos 80;
          backend_url = "http://172.17.0.2:80";
          backend_source = "container-ip";
          pass_host_header = none;
          sticky = none;
        },
      )
      ∷ [];
  middlewares = [];
}

pub built : build_container text_urls in_order 5 web_inspect "10.0.0.7" ≡ exported web
unfolding text_take container_name name_middlewares with_default resolve_services router_service
    check_middlewares check_router check_routers build_container resolve_backend_url from_container
    preferred_container_addr parse_service parse_router services_from routers_from parse_services
    parse_routers middlewares_from parse_middlewares decide is_enabled relevant_labels seen_names
    collect_names lookup insert trim_prefix after_prefix has_prefix before trim_space is_space
    trim_left trim_right to_lower equal_fold itoa atoi sort_texts sort_by insert_sorted parse_bool
built = refl

build_container-exported_example :
    (parse_bool text_urls.unicode (text_at web_inspect.labels managed_label) false ≡ false)
    × ((is_enabled text_urls.unicode web_inspect.labels).enabled ≡ true)
    × IsRoutable text_urls in_order 5 web_inspect "10.0.0.7" web
    × (web.id ≡ web_inspect.id)
    × (container_name web_inspect ≡ some web.name)
build_container-exported_example =
    build_container-exported text_urls in_order 5 web_inspect "10.0.0.7" web built

pub keeps_entries : KeepsEntries in_order
keeps_entries = record { of_services = λ m. refl; of_routers = λ m. refl }
