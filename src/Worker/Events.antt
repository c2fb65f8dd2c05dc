-- ===== src/Worker/Events.antt =====
-- internal/worker/agent.go over internal/dockerx/client.go: watchEvents on the event stream of the Docker
-- engine. Its state is the number of tokens in the agent's trigger, and the world; `is_canceled` is errors.Is
-- for context.Canceled, on an error's text.
pub mod Tests
use traefik_connect.Common.{
  ℕ, zero, suc, String, Bool, true, false, Option, none, some, List, Result, ok, err, ℤ, ◌==◌,
  if◌then◌else◌, leb, is_some, itoa, [], ◌∷◌, ◌≡◌, ◌≢◌, refl, ap, ◌<◌, arith, sym, ◌∙◌,
}
use traefik_connect.Dockerx.Client.{
  Library, HttpRequest, HttpResponse, Event, get_request, watched, watch_events, each_event,
  stream_end,
}
use traefik_connect.Worker.Trigger.{on_event}
use traefik_connect.Worker.Retry
use traefik_connect.Worker.Retry.{Watched, finished, canceled, broken, Stream}

module _ {W : Type 0} (lib : Library W) (is_canceled : String → Bool) (since : W → ℤ)
    (wait : ℕ → W → Bool × W) where
  abbrev as_watched : Option String → Watched
  as_watched none = finished
  as_watched (some e) = if is_canceled e then canceled else broken e

  abbrev with_outcome : {S : Type 0} → Option String × S → Watched × S
  with_outcome (e, s) = (as_watched e, s)

  abbrev pub waited : ℕ → Bool × W → Bool × (ℕ × W)
  waited pending (ended, w) = (ended, (pending, w))

  -- One round of watchEvents: WatchEvents from a minute ago, whose events signal the agent.
  abbrev pub event_stream : Stream (ℕ × W)
  event_stream = record {
    done = λ (pending, w). is_some (lib.canceled w);
    watch = λ (pending, w).
        with_outcome (watch_events lib (since w) (λ ev p. on_event ev.action p) pending w);
    wait = λ backoff (pending, w). waited pending (wait backoff w);
  }

  -- The request of WatchEvents.
  abbrev pub events_request : W → HttpRequest
  events_request w = record (get_request "/events") {
    query = ("since", itoa (since w)) ∷ ("type", "container") ∷ [];
  }

  -- When the Docker engine ends the event stream, watchEvents returns, after the signals for the events
  -- that came: it does not ask for another stream, though the context is not at its end.
  pub watch_events-eof :
      (fuel backoff pending : ℕ) (w w₁ w₂ : W) (r : HttpResponse) (events : List Event)
      → lib.canceled w ≡ none
      → lib.send (events_request w) w ≡ (ok r, w₁)
      → leb 300 r.status ≡ false
      → lib.events r w₁ ≡ ((events, "EOF"), w₂)
      → lib.canceled w₂ ≡ none
      → Retry.watch_events event_stream (suc fuel) backoff (pending, w)
        ≡ some (each_event (λ ev p. on_event ev.action p) events pending, w₂)
  unfolding Retry.watch_events watch_events stream_end
  watch_events-eof fuel backoff pending w w₁ w₂ r events running sent fine ended still =
      rw (running, sent, fine, ended, still) refl
