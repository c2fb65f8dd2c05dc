-- ===== src/Worker/Retry/Laws.antt =====
-- internal/worker/agent.go: that the retries end, and what the agent's state is when they do.
use mathlib.Core.Path.{subst}
use traefik_connect.Common.{
  ℕ, zero, suc, ◌+◌, String, false, Option, none, some, Result, ok, err, ◌≡◌, refl, ap, arith,
  Bool-cases, inl, inr,
}
use traefik_connect.Model.{Instant}
use traefik_connect.Worker.{first_backoff, next_backoff, set_error}
use traefik_connect.Worker.Sync.{Agent}
use traefik_connect.Worker.Retry.{
  Ended, succeeded, given_up, crashed, Tries, after_attempt, retry, sync_with_retry,
}

module _ {W : Type 0} (tries : Tries W) where
  -- So many tries fail, from the first state to the last, with a pause behind each that the context
  -- does not end.
  pub data Fails : ℕ → ℕ → Agent → W → Agent → W → Type 0 where
    none_yet : {backoff : ℕ} {a : Agent} {w : W} → Fails zero backoff a w a w
    one_more :
        {n backoff : ℕ} {a a₁ a' : Agent} {w w₁ w₂ w' : W} (e : String)
        → tries.attempt a w ≡ some (err e, (a₁, w₁))
        → tries.wait backoff w₁ ≡ (false, w₂)
        → Fails n
            (next_backoff backoff)
            (record a₁ { status = set_error (tries.now w₁) e a₁.status })
            w₂
            a'
            w'
        → Fails (suc n) backoff a w a' w'

  retry_live :
      {n backoff : ℕ} {a a' a'' : Agent} {w w' w'' : W} (more : ℕ)
      → Fails n backoff a w a' w'
      → tries.attempt a' w' ≡ some (ok tt, (a'', w''))
      → retry tries (suc (n + more)) backoff a w ≡ some (succeeded, (a'', w''))
  unfolding retry
  retry_live more none_yet h = rw h refl
  retry_live more (one_more {n = n} e failed waited rest) h =
      let again : suc n + more ≡ suc (n + more) = omega arith in
      rw (again, failed, waited) (retry_live more rest h)

  -- Where some number of tries fail, with pauses that the context does not end, and the next one works,
  -- syncWithRetry ends with that one, in the state that it leaves, with any greater number as fuel.
  pub sync_with_retry_live :
      {n : ℕ} {a a' a'' : Agent} {w w' w'' : W} (more : ℕ)
      → Fails n first_backoff a w a' w'
      → tries.attempt a' w' ≡ some (ok tt, (a'', w''))
      → sync_with_retry tries (suc (n + more)) a w ≡ some (succeeded, (a'', w''))
  unfolding sync_with_retry
  sync_with_retry_live more fails works = retry_live more fails works

  abbrev agent_of : Agent → Option (Ended × (Agent × W)) → Agent
  agent_of a none = a
  agent_of a (some (ended, (a', w'))) = a'

  -- A round of the loop keeps what every try and every failure keep.
  module _ (Keeps : Agent → Type 0)
      (attempted : (a a' : Agent) (w w' : W) (r : Result (Unit {0}))
        → Keeps a
        → tries.attempt a w ≡ some (r, (a', w'))
        → Keeps a')
      (failing : (a : Agent) (now : Instant) (e : String)
        → Keeps a
        → Keeps (record a { status = set_error now e a.status })) where
    abbrev pub Kept : Option (Ended × (Agent × W)) → Type 0
    Kept o = (ended : Ended) (a' : Agent) (w' : W) → o ≡ some (ended, (a', w')) → Keeps a'

    some-Kept : (ended : Ended) (a : Agent) (w : W) → Keeps a → Kept (some (ended, (a, w)))
    some-Kept ended a w h _ a' w' e = subst Keeps (ap (agent_of a) e) h

    after_attempt-Kept :
        (backoff : ℕ) (a : Agent) (w : W) (again : Agent → W → Option (Ended × (Agent × W)))
        (o : Option (Result (Unit {0}) × (Agent × W)))
        → Keeps a
        → ((r : Result (Unit {0})) (a' : Agent) (w' : W) → o ≡ some (r, (a', w')) → Keeps a')
        → ((a' : Agent) (w' : W) → Keeps a' → Kept (again a' w'))
        → Kept (after_attempt tries backoff a w again o)
    after_attempt-Kept backoff a w again none h k g = some-Kept crashed a w h
    after_attempt-Kept backoff a w again (some (ok x, (a₁, w₁))) h k g =
        some-Kept succeeded a₁ w₁ (k (ok x) a₁ w₁ refl)
    after_attempt-Kept backoff a w again (some (err e, (a₁, w₁))) h k g =
        let failed = record a₁ { status = set_error (tries.now w₁) e a₁.status } in
        let kept = failing a₁ (tries.now w₁) e (k (err e) a₁ w₁ refl) in
        let w₂ = (tries.wait backoff w₁).1 in
        elim (Bool-cases (tries.wait backoff w₁).0) [
          | inl e ↦ rw e (some-Kept given_up failed w₂ kept)
          | inr e ↦ rw e (g failed w₂ kept)
        ]

    pub retry-Kept :
        (fuel backoff : ℕ) (a : Agent) (w : W) → Keeps a → Kept (retry tries fuel backoff a w)
    unfolding retry
    retry-Kept zero backoff a w h ended a' w' e = cc
    retry-Kept (suc fuel) backoff a w h ended a' w' e =
        after_attempt-Kept backoff a w (retry tries fuel (next_backoff backoff)) (tries.attempt a w)
          h (λ r a' w' e. attempted a a' w w' r h e) (retry-Kept fuel (next_backoff backoff)) ended
          a' w' e
