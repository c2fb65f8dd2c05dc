-- ===== src/Parse/Backend/Tests.antt =====
-- Backends on examples.
use traefik_connect.Common.{◌≡◌, refl, ok, pos, lookup, equal_fold, itoa}
use traefik_connect.Parse.Tests.{text_urls, web_inspect}
use traefik_connect.Parse.Backend.{
  Backend, backend, resolve_backend_url, from_container, preferred_container_addr,
}
use traefik_connect.Parse.Backend.Laws.{Ported, resolve_backend_url-Ported}

abbrev web_backend : Backend
web_backend = backend "http://172.17.0.2:80" "container-ip" (pos 80)

resolved :
    resolve_backend_url text_urls web_inspect.labels web_inspect "10.0.0.7" (pos 80)
    ≡ ok web_backend
unfolding resolve_backend_url from_container preferred_container_addr lookup equal_fold itoa
resolved = refl

resolve_backend_url-Ported_example : Ported (pos 80) web_backend
resolve_backend_url-Ported_example =
    resolve_backend_url-Ported text_urls web_inspect.labels web_inspect "10.0.0.7" (pos 80)
      web_backend resolved
