-- ===== src/Loop/Tests.antt =====
-- A worker beside a stub.
use traefik_connect.Common.{◌≡◌, refl, [], ◌∷◌, inl}
use traefik_connect.Dockerx.{ContainerInspect}
use traefik_connect.Receiver.Tests.{web_settings, stub_inspect}
use traefik_connect.Receiver.Stubs.Build.Tests.{web_stub, web_cleaned, web_built}
use traefik_connect.Parse.Tests.{text_urls}
use traefik_connect.Parse.Container.{not_exported, build_container}
use traefik_connect.Parse.Container.Tests.{in_order}
use traefik_connect.Loop.{stub-not_exported}

abbrev inspected : ContainerInspect
inspected = record stub_inspect { labels = web_stub.labels }

stub-not_exported_example :
    build_container text_urls in_order 5 inspected "10.0.0.7"
    ≡ not_exported "not exported: managed container"
stub-not_exported_example =
    stub-not_exported text_urls in_order 5 inspected "10.0.0.7" web_settings web_cleaned "sha256:1"
      (web_stub ∷ []) web_stub web_built (inl refl) refl
