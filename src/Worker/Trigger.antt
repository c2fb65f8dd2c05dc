-- ===== src/Worker/Trigger.antt =====
-- internal/worker/agent.go: signal and the loop of Run. The channel `trigger` is a buffer of tokens, and
-- the goroutines' steps come in any order.
pub mod Tests
use traefik_connect.Common.{
  ℕ, zero, suc, ◌≤◌, ◌<◌, String, Option, none, some, List, [], ◌∷◌, ◌++◌, if◌then◌else◌, ltb, ◌≡◌,
  refl, ap, ◌⊎◌, inl, inr, In, arith, Option-cases,
}

-- What happens: the ticker's channel is read, the callback of watchEvents runs for an event of the
-- Docker engine, by its action, and the loop takes a token and begins a synchronization.
pub data Event : Type 0 where
  resync_due : Event
  docker_event : String → Event
  trigger_taken : Event

-- make(chan struct{}, 1)
abbrev pub capacity : ℕ
capacity = 1

-- a.signal(): the send of a token, which is skipped where the buffer is full.
unfoldable pub signal : ℕ → ℕ
signal pending = if ltb pending capacity then suc pending else pending

-- The callback of watchEvents, whose two cases do the same.
unfoldable pub on_event : String → ℕ → ℕ
on_event action pending = signal pending

-- The tokens after a step; the loop takes a token only where there is one.
pub step : Event → ℕ → Option ℕ
step resync_due pending = some (signal pending)
step (docker_event action) pending = some (on_event action pending)
step trigger_taken zero = none
step trigger_taken (suc pending) = some pending

abbrev pub then_run : Option ℕ → (ℕ → Option ℕ) → Option ℕ
then_run none next = none
then_run (some pending) next = next pending

-- A history of the agent, where it is one.
pub run : List Event → ℕ → Option ℕ
run [] pending = some pending
run (e ∷ es) pending = then_run (step e pending) (run es)

number_of : Option ℕ → ℕ
number_of none = 0
number_of (some n) = n

some-injective : {p q : ℕ} → some p ≡ some q → p ≡ q
unfolding number_of
some-injective h = ap number_of h

signal-pending : (p : ℕ) → 0 < signal p
unfolding signal
signal-pending p = ground arith

signal-capacity : (p : ℕ) → p ≤ capacity → signal p ≤ capacity
unfolding signal
signal-capacity p h = ground arith

later :
    (e : Event) (es : List Event) (q : ℕ)
    → In trigger_taken es ⊎ (0 < q)
    → In trigger_taken (e ∷ es) ⊎ (0 < q)
later e es q (inl m) = inl (inr m)
later e es q (inr h) = inr h

-- A token stays until one is taken.
pending-run :
    (es : List Event) (p q : ℕ) → 0 < p → run es p ≡ some q → In trigger_taken es ⊎ (0 < q)
unfolding run step on_event
pending-run [] p q some_left h = let same = some-injective h in inr (omega arith)
pending-run (resync_due ∷ es) p q some_left h =
    later resync_due es q (pending-run es (signal p) q (signal-pending p) h)
pending-run (docker_event a ∷ es) p q some_left h =
    later (docker_event a) es q (pending-run es (signal p) q (signal-pending p) h)
pending-run (trigger_taken ∷ es) p q some_left h = inl (inl refl)

run-capacity : (es : List Event) (p q : ℕ) → p ≤ capacity → run es p ≡ some q → q ≤ capacity
unfolding run step on_event
run-capacity [] p q bound h = let same = some-injective h in omega arith
run-capacity (resync_due ∷ es) p q bound h =
    run-capacity es (signal p) q (signal-capacity p bound) h
run-capacity (docker_event a ∷ es) p q bound h =
    run-capacity es (signal p) q (signal-capacity p bound) h
run-capacity (trigger_taken ∷ es) zero q bound h = cc
run-capacity (trigger_taken ∷ es) (suc p) q bound h = run-capacity es p q (omega arith) h

signalled-run :
    (before after : List Event) (action : String) (p q : ℕ)
    → run (before ++ docker_event action ∷ after) p ≡ some q
    → In trigger_taken after ⊎ (0 < q)
unfolding run step on_event
signalled-run [] after action p q h = pending-run after (signal p) q (signal-pending p) h
signalled-run (e ∷ before) after action p q h = elim (Option-cases (step e p)) [
  | inl n ↦ (let h' : none ≡ some q = rw n at h in cc h')
  | inr (p', n) ↦ signalled-run before after action p' q (rw n at h)
]

-- A signal that is skipped is not missed: in every history, after the callback of watchEvents has run
-- for an event, a synchronization begins, or the token for one is there at the end; and the signals do
-- not pile up: no more than one token is there at the end if no more was there at first. Which events
-- the callback runs for is for the event stream to say.
pub run-docker_event :
    (before after : List Event) (action : String) (p q : ℕ)
    → p ≤ capacity
    → run (before ++ docker_event action ∷ after) p ≡ some q
    → (In trigger_taken after ⊎ (0 < q)) × (q ≤ capacity)
run-docker_event before after action p q bound h = (
  signalled-run before after action p q h,
  run-capacity (before ++ docker_event action ∷ after) p q bound h,
)
