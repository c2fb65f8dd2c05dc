-- ===== src/Worker/Retry.antt =====
-- internal/worker/agent.go: syncWithRetry, over the tries that it makes, and watchEvents.
pub mod Laws
pub mod Consistent
pub mod Tests
use traefik_connect.Common.{
  ℕ, zero, suc, ◌*◌, String, Bool, true, false, Option, none, some, if◌then◌else◌, Result, ok, err,
  ltb, List, [], ◌∷◌, ◌||◌, ◌==◌,
}
use traefik_connect.Model.{Instant}
use traefik_connect.Worker.{second, first_backoff, next_backoff, set_error}
use traefik_connect.Worker.Sync.{Agent}

-- How a loop ends: a try that works, the end of the context, or a panic.
pub data Ended : Type 0 where
  succeeded : Ended
  given_up : Ended
  crashed : Ended

-- One try, the clock, and the select of ctx.Done and time.After: true where the context ends first.
pub record Tries (W : Type 0) : Type 0 where
  pub attempt : Agent → W → Option (Result (Unit {0}) × (Agent × W))
  pub now : W → Instant
  pub wait : ℕ → W → Bool × W

module _ {W : Type 0} (tries : Tries W) where
  -- What follows a try.
  abbrev pub after_attempt :
      ℕ
      → Agent
      → W
      → (Agent → W → Option (Ended × (Agent × W)))
      → Option (Result (Unit {0}) × (Agent × W))
      → Option (Ended × (Agent × W))
  after_attempt backoff a w again none = some (crashed, (a, w))
  after_attempt backoff a w again (some (ok _, (a₁, w₁))) = some (succeeded, (a₁, w₁))
  after_attempt backoff a w again (some (err e, (a₁, w₁))) =
      let failed = record a₁ { status = set_error (tries.now w₁) e a₁.status } in
      let (ended, w₂) = tries.wait backoff w₁ in
      let next = again failed w₂ in if ended then some (given_up, (failed, w₂)) else next

  -- The loop of syncWithRetry, for as many tries as the fuel says; `none` where it needs more.
  pub retry : ℕ → ℕ → Agent → W → Option (Ended × (Agent × W))
  retry zero backoff a w = none
  retry (suc fuel) backoff a w =
      after_attempt backoff a w (retry fuel (next_backoff backoff)) (tries.attempt a w)

  pub sync_with_retry : ℕ → Agent → W → Option (Ended × (Agent × W))
  sync_with_retry fuel = retry fuel first_backoff

-- The pause of watchEvents, in nanoseconds, after one more failure.
pub next_event_backoff : ℕ → ℕ
next_event_backoff b = if ltb b (30 * second) then b * 2 else b

-- What WatchEvents returns: nil, context.Canceled, or another error.
pub data Watched : Type 0 where
  finished : Watched
  canceled : Watched
  broken : String → Watched

-- ctx.Err, docker.WatchEvents with the calls of a.signal that it makes, and the select.
pub record Stream (W : Type 0) : Type 0 where
  pub done : W → Bool
  pub watch : W → Watched × W
  pub wait : ℕ → W → Bool × W

module _ {W : Type 0} (stream : Stream W) where
  abbrev pub after_watch : ℕ → (W → Option W) → Watched × W → Option W
  after_watch backoff again (finished, w) = some w
  after_watch backoff again (canceled, w) = some w
  after_watch backoff again (broken e, w) =
      let (ended, w₁) = stream.wait backoff w in
      let next = again w₁ in if ended then some w₁ else next

  -- The loop of watchEvents, for as many streams as the fuel says.
  unfoldable pub watch_events : ℕ → ℕ → W → Option W
  watch_events zero backoff w = none
  watch_events (suc fuel) backoff w =
      let watched =
        after_watch backoff (watch_events fuel (next_event_backoff backoff)) (stream.watch w) in
      if stream.done w then some w else watched
