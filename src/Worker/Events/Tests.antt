-- ===== src/Worker/Events/Tests.antt =====
-- A Docker engine that reports one event and hangs up.
use traefik_connect.Common.{false, none, some, [], ◌∷◌, ok, pos, ◌≡◌, refl, ℕ, ◌==◌}
use traefik_connect.Receiver.Tests.{stub_inspect}
use traefik_connect.Dockerx.Client.{Library, HttpResponse, Event, each_event}
use traefik_connect.Worker.Trigger.{on_event, signal}
use traefik_connect.Worker.Retry
use traefik_connect.Worker.Events.{event_stream, watch_events-eof}

abbrev answer : HttpResponse
answer = record { status = 200; status_text = "200 OK"; body = [] }

abbrev died : Event
died = record { action = "die"; id = "c1" }

abbrev pub engine : Library ℕ
engine = record {
  send = λ req w. (ok answer, w);
  text = λ body. "";
  decode_ids = λ body. ok [];
  decode_inspect = λ body. ok stub_inspect;
  decode_id = λ body. ok "id";
  encode_create = λ req. ok [];
  encode_connect = λ container. ok [];
  events = λ r w. ((died ∷ [], "EOF"), w);
  canceled = λ w. none;
}

watch_events-eof_example :
    Retry.watch_events
      (event_stream engine (λ e. e == "context canceled") (λ w. pos 0) (λ backoff w. (false, w)))
      8
      1000
      (0, 3)
    ≡ some (1, 3)
unfolding each_event on_event signal
watch_events-eof_example =
    watch_events-eof engine (λ e. e == "context canceled") (λ w. pos 0) (λ backoff w. (false, w)) 7
      1000 0 3 3 3 answer (died ∷ []) refl refl refl refl refl
