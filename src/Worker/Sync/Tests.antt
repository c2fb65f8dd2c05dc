-- ===== src/Worker/Sync/Tests.antt =====
-- A worker with one container, and the request that it posts.
use traefik_connect.Common.{
  pos, max_int64, ◌≢◌, String, ◌≡◌, ◌≢◌, refl, ap, ◌∙◌, true, none, some, List, [], ◌∷◌, Result, ok,
  ok-injective, ℕ, zero, suc, trim_space, arith,
}
use traefik_connect.Model.{Snapshot}
use traefik_connect.Dockerx.{ContainerInspect}
use traefik_connect.Config.{AgentConfig}
use traefik_connect.Config.Tests.{agent}
use traefik_connect.Receiver.Tests.{web_snapshot, web_store}
use traefik_connect.Receiver.Validate.{validate_snapshot, persisted_record_compatible}
use traefik_connect.Receiver.Store.{upsert}
use traefik_connect.Receiver.Server.Tests.{web_server, times}
use traefik_connect.Receiver.Server.{ServerSettings, reply_upserted, handle_snapshot}
use traefik_connect.Parse.Tests.{text_urls, web_inspect}
use traefik_connect.Parse.Container.Tests.{in_order, web, built, keeps_entries}
use traefik_connect.Api.{sign_body, outside_window}
use traefik_connect.Api.Tests.{toy_crypto}
use traefik_connect.Worker.Sync.{Calls, Response, collect_containers, signed_post}
use traefik_connect.Worker.Sync.Collected.{collect_containers-validate_snapshot}
use traefik_connect.Worker.Sync.Accepted.{WritesPlainly, signed_post-handle_snapshot}

-- Its world is the number of posts that the master turns down before it takes one.
abbrev pub calls : Calls ℕ
calls = record {
  canceled = λ w. none;
  list_containers = λ w. (ok ("a" ∷ []), w);
  inspect = λ id w. (ok web_inspect, w);
  now = λ w. 5;
  split_host_port = λ s. ok "8090";
  canonical_hash = λ snap. ok "h1";
  marshal = λ snap. ok (123 ∷ 125 ∷ []);
  send = λ post w. answer w;
  decode_message = λ body. "busy";
  decode_response = λ body. ok tt;
}
  where
    answer : ℕ → Result Response × ℕ
    answer zero = (ok (record { status = 200; status_text = "OK"; body = [] }), 0)
    answer (suc w) = (ok (record { status = 503; status_text = "busy"; body = [] }), w)

abbrev pub worker : AgentConfig
worker = record agent { advertise_addr = "10.0.0.7"; token = "secret" }

abbrev sent : Snapshot
sent = record web_snapshot { containers = web ∷ [] }

collected :
    (collect_containers text_urls in_order worker calls ("a" ∷ []) 0).0 ≡ some (ok (web ∷ []))
unfolding collect_containers
collected = rw built refl

with_ids :
    (id : String) (w : ℕ) (ins : ContainerInspect) → (calls.inspect id w).0 ≡ ok ins → ins.id ≢ ""
with_ids id w ins h e =
    let same : web_inspect.id ≡ "" = ap (λ i. i.id) (ok-injective h) ∙ e in cc same

compatible : persisted_record_compatible sent ≡ true
unfolding persisted_record_compatible
compatible = refl

collect_containers-validate_snapshot_example : validate_snapshot sent ≡ ([], sent)
collect_containers-validate_snapshot_example =
    collect_containers-validate_snapshot text_urls in_order keeps_entries worker calls with_ids
      ("a" ∷ []) 0 sent collected (tt, tt) compatible

abbrev posted : Snapshot
posted = record web_snapshot { captured_at = 7 }

plain : WritesPlainly toy_crypto "secret" 7 (123 ∷ 125 ∷ [])
unfolding sign_body trim_space
plain = record {
  parsed_back = refl;
  time_plain = refl;
  time_written = λ e. cc e;
  digest_plain = refl;
  digest_written = λ e. cc e;
}

abbrev server : ServerSettings (List String)
server = record web_server { decode = λ body. ok posted }

below : server.max_body_bytes ≢ pos max_int64
below e = cc e

signed_post-handle_snapshot_example :
    handle_snapshot server times
      (signed_post worker toy_crypto posted (123 ∷ 125 ∷ [])).request
      web_store
    ≡ reply_upserted server (upsert server.store 9 10 posted web_store)
unfolding trim_space outside_window
signed_post-handle_snapshot_example =
    signed_post-handle_snapshot worker toy_crypto posted (123 ∷ 125 ∷ []) plain server times
      web_store refl refl refl (λ e. cc e) refl refl (omega arith) below
