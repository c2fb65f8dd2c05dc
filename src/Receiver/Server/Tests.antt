-- ===== src/Receiver/Server/Tests.antt =====
-- A signed snapshot.
use traefik_connect.Common.{String, List, ◌⊎◌, ok, err, false, pos, refl, is_empty, if◌then◌else◌}
use traefik_connect.Websocket.{Bytes}
use traefik_connect.Model.{Instant, Snapshot}
use traefik_connect.Api.Tests.{toy_crypto, signed_request}
use traefik_connect.Receiver.Tests.{web_snapshot, web_store_settings, web_store}
use traefik_connect.Receiver.Server.{ServerSettings, Clock, handle_snapshot}
use traefik_connect.Receiver.Server.Laws.{IsTurnedDown, IsTaken, handle_snapshot_lem}

abbrev pub web_server : ServerSettings (List String)
web_server = record {
  store = web_store_settings;
  crypto = toy_crypto;
  token = "secret";
  window = pos 5;
  max_body_bytes = pos 10;
  decode = λ body. if is_empty body then err "unexpected end of JSON input" else ok web_snapshot;
  is_deadline = λ e. false;
}

abbrev pub times : Clock
times = record { validated = 9; stored = 9; reconciled = 10 }

handle_snapshot_lem_example :
    IsTurnedDown web_server times web_store
      (handle_snapshot web_server times signed_request web_store)
    ⊎ ((body : Bytes) × ((ts : Instant) × ((snap : Snapshot) × IsTaken web_server times web_store
              signed_request
              (handle_snapshot web_server times signed_request web_store)
              body
              ts
              snap)))
handle_snapshot_lem_example =
    handle_snapshot_lem web_server times web_store "unexpected end of JSON input" refl
      signed_request
