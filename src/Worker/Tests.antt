-- ===== src/Worker/Tests.antt =====
-- A worker with one container.
use traefik_connect.Common.{◌≡◌, refl, some, none, lookup}
use traefik_connect.Receiver.Tests.{web_snapshot, web_container, web_service}
use traefik_connect.Worker.{find_service, lookup_service}

found : lookup_service web_snapshot "c1" "web" ≡ some (web_container, web_service)
unfolding lookup_service find_service lookup
found = refl

missed : lookup_service web_snapshot "c1" "db" ≡ none
unfolding lookup_service find_service lookup
missed = refl
