-- ===== src/Worker/Laws.antt =====
-- internal/worker/agent.go: the pauses between the agent's tries.
use traefik_connect.Common.{ℕ, zero, suc, ◌+◌, ◌*◌, ◌≤◌, ◌≡◌, refl, ap, ◌∙◌, arith}
use traefik_connect.Worker.{second, first_backoff, next_backoff, backoff_after}

next_backoff-le : (b : ℕ) → b ≤ 30 * second → (b ≤ next_backoff b) × (next_backoff b ≤ 30 * second)
unfolding next_backoff
next_backoff-le b h = (ground arith, ground arith)

backoff_after-le : (n : ℕ) → (first_backoff ≤ backoff_after n) × (backoff_after n ≤ 30 * second)
unfolding backoff_after
backoff_after-le zero = (omega arith, omega arith)
backoff_after-le (suc n) =
    let (low, high) = backoff_after-le n in
    let (grows, bounded) = next_backoff-le (backoff_after n) high in (omega arith, bounded)

backoff_after_six : backoff_after 6 ≡ 30 * second
unfolding backoff_after next_backoff
backoff_after_six = refl

next_backoff_last : next_backoff (30 * second) ≡ 30 * second
unfolding next_backoff
next_backoff_last = refl

backoff_after_last : (n : ℕ) → backoff_after (6 + n) ≡ 30 * second
unfolding backoff_after
backoff_after_last zero = backoff_after_six
backoff_after_last (suc n) =
    let same : 6 + suc n ≡ suc (6 + n) = omega arith in
    ap backoff_after same ∙ (ap next_backoff (backoff_after_last n) ∙ next_backoff_last)

-- The pause between two tries is at least half a second and at most thirty, never gets shorter, and
-- is thirty seconds from the seventh failure on.
backoff_after_lem :
    (n : ℕ)
    → (first_backoff ≤ backoff_after n)
      × (backoff_after n ≤ backoff_after (suc n))
      × (backoff_after (suc n) ≤ 30 * second)
      × (backoff_after (6 + n) ≡ 30 * second)
unfolding backoff_after
backoff_after_lem n =
    let (low, high) = backoff_after-le n in
    let (grows, bounded) = next_backoff-le (backoff_after n) high in
    (low, grows, bounded, backoff_after_last n)
