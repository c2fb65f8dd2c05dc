-- ===== src/Worker.antt =====
-- internal/worker/agent.go: the agent's state, its lookup of a service, and the pauses between its
-- tries.
pub mod Laws
pub mod Lookup
pub mod Sync
pub mod Retry
pub mod Trigger
pub mod Events
pub mod Tests
use traefik_connect.Common.{
  ℕ, zero, suc, ◌*◌, String, Bool, true, false, Option, none, some, List, [], ◌∷◌, ◌==◌,
  if◌then◌else◌, lookup, Result, ok, err, ltb, ℤ, pos, atoi, not_positive, has_prefix, trim_prefix,
}
use traefik_connect.Model.{Instant, ServiceSpec, ContainerSpec, Snapshot}

abbrev pub or_later :
    ContainerSpec
    → Option ServiceSpec
    → Option (ContainerSpec × ServiceSpec)
    → Option (ContainerSpec × ServiceSpec)
or_later c none rest = rest
or_later c (some svc) rest = some (c, svc)

-- The first container, of those that pass the test, that has the service.
pub find_service :
    (ContainerSpec → Bool) → String → List ContainerSpec → Option (ContainerSpec × ServiceSpec)
find_service test name [] = none
find_service test name (c ∷ cs) =
    let rest = find_service test name cs in
    if test c then or_later c (lookup name c.services) rest else rest

abbrev pub or_found :
    Option (ContainerSpec × ServiceSpec)
    → Option (ContainerSpec × ServiceSpec)
    → Option (ContainerSpec × ServiceSpec)
or_found (some found) later = some found
or_found none later = later

-- lookupService, on the snapshot that the agent holds
pub lookup_service : Snapshot → String → String → Option (ContainerSpec × ServiceSpec)
lookup_service snap container_id name =
    let by_id = find_service (λ c. c.id == container_id) name snap.containers in
    let by_name = find_service (λ c. true) name snap.containers in
    or_found (if container_id == "" then none else by_id) (if name == "" then none else by_name)

abbrev pub second : ℕ
second = 1000000000

abbrev pub first_backoff : ℕ
first_backoff = 500000000

-- The pause of syncWithRetry, in nanoseconds, after one more failure.
pub next_backoff : ℕ → ℕ
next_backoff b =
    if ltb b (30 * second) then (if ltb (30 * second) (b * 2) then 30 * second else b * 2) else b

-- The pause after `n` failures before it.
pub backoff_after : ℕ → ℕ
backoff_after zero = first_backoff
backoff_after (suc n) = next_backoff (backoff_after n)

-- listenPort, where `split` has the port of net.SplitHostPort.
pub listen_port : (String → Result String) → String → ℤ
listen_port split addr = port_of addr (split addr)
  where
    or_default : Option ℤ → ℤ
    or_default none = pos 8090
    or_default (some n) = n

    positive_or_default : Option ℤ → ℤ
    positive_or_default none = pos 8090
    positive_or_default (some n) = if not_positive n then pos 8090 else n

    port_of : String → Result String → ℤ
    port_of addr (ok port) = positive_or_default (atoi port)
    port_of addr (err e) =
        if has_prefix addr ":" then or_default (atoi (trim_prefix addr ":")) else pos 8090

pub record AgentStatus : Type 0 where
  pub worker_id : String
  pub last_sync_at : Instant
  pub last_error : String
  pub last_hash : String
  pub last_containers : ℕ
  pub last_success : Bool

pub set_error : Instant → String → AgentStatus → AgentStatus
set_error now e s = record s { last_sync_at = now; last_error = e; last_success = false }

pub set_success : Instant → String → ℕ → AgentStatus → AgentStatus
set_success now hash containers s = record s {
  last_sync_at = now;
  last_hash = hash;
  last_error = "";
  last_containers = containers;
  last_success = true;
}
