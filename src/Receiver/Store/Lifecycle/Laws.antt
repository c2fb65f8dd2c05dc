-- ===== src/Receiver/Store/Lifecycle/Laws.antt =====
-- What RemoveExpired keeps, and what Statuses lists.
use traefik_connect.Common.{
  String, ◌≡◌, refl, ◌∙◌, Bool, true, false, Option, none, some, [], ◌∷◌, ◌==◌, if◌then◌else◌, Dict,
  lookup, lookup-remove, arith, Bool-cases, inl, inr, eq_iff, ℤ, not_positive, ◌&&◌, map, ok, List,
}
use mathlib.Core.List.{Perm}
use mathlib.Core.List.Perm
use traefik_connect.Common.Sort.Laws.{IsSorted, sort_by-IsSorted, sort_by-perm}
use traefik_connect.Model.{Instant}
use traefik_connect.Receiver.Store.{WorkerRecord, StoreSettings, Store}
use traefik_connect.Receiver.Store.Lifecycle.{
  is_expired, to_status, expire, expire_round, expire_all, remove_expired, statuses, load,
}

-- No key comes twice.
abbrev pub IsDistinct : {V : Type 0} → Dict V → Type 0
IsDistinct [] = Unit
IsDistinct ((k, v) ∷ m) = (lookup k m ≡ none) × IsDistinct m

-- `entries` is the map `m`, in the order of a `range` over it.
pub record IsRange {V : Type 0} (entries m : Dict V) : Type 0 where
  pub distinct : IsDistinct entries
  pub same : (k : String) → lookup k entries ≡ lookup k m

module _ (ttl : ℤ) (now : Instant) where
  -- An entry of `k` in the list has expired.
  expired_in : String → Dict WorkerRecord → Bool
  expired_in k [] = false
  expired_in k ((id, r) ∷ rs) =
      let rest = expired_in k rs in if id == k && is_expired ttl now r then true else rest

  abbrev pub live : Option WorkerRecord → Option WorkerRecord
  live none = none
  live (some r) = if is_expired ttl now r then none else some r

  expired_in-none :
      (k : String) (rs : Dict WorkerRecord) → lookup k rs ≡ none → expired_in k rs ≡ false
  unfolding expired_in lookup
  expired_in-none k [] h = refl
  expired_in-none k ((id, r) ∷ rs) h = elim (Bool-cases (id == k)) [
    | inl e ↦ cc
    | inr e ↦ rw e (expired_in-none k rs (ground (arith, e, h)))
  ]

  expired_in_lem :
      (k : String) (rs : Dict WorkerRecord)
      → IsDistinct rs
      → (if expired_in k rs then none else lookup k rs) ≡ live (lookup k rs)
  unfolding expired_in lookup
  expired_in_lem k [] h = refl
  expired_in_lem k ((id, r) ∷ rs) (h, hs) = elim (Bool-cases (id == k)) [
    | inl e ↦ ground (arith, e, expired_in-none k rs (rw (← (eq_iff id k).0 e) h))
    | inr e ↦ rw e (expired_in_lem k rs hs)
  ]

module _ {W : Type 0} (settings : StoreSettings W) (now : Instant) where
  lookup-expire_round :
      (k id : String) (r : WorkerRecord) (s : Store W)
      → lookup k (expire_round settings now id r s).workers
        ≡ (if id == k && is_expired settings.ttl now r then none else lookup k s.workers)
  unfolding expire_round expire
  lookup-expire_round k id r s = elim (Bool-cases (is_expired settings.ttl now r)) [
    | inl e ↦ rw e (lookup-remove id k s.workers ∙ ground arith)
    | inr e ↦ rw e (ground arith)
  ]

  lookup-expire_all :
      (k : String) (rs : Dict WorkerRecord) (s : Store W)
      → lookup k (expire_all settings now rs s).workers
        ≡ (if expired_in settings.ttl now k rs then none else lookup k s.workers)
  unfolding expire_all expired_in
  lookup-expire_all k [] s = refl
  lookup-expire_all k ((id, r) ∷ rs) s =
      lookup-expire_all k rs (expire_round settings now id r s)
      ∙ ground (arith, lookup-expire_round k id r s)

  lookup-expired :
      (s : Store W) (k : String)
      → IsRange (settings.order s.workers) s.workers
      → lookup k (expire_all settings now (settings.order s.workers) s).workers
        ≡ live settings.ttl now (lookup k s.workers)
  lookup-expired s k h =
      lookup-expire_all k (settings.order s.workers) s
      ∙ (rw (← h.same k) (expired_in_lem settings.ttl now k (settings.order s.workers) h.distinct))

  -- What RemoveExpired leaves of the record of a worker.
  pub surviving : ℤ → Option WorkerRecord → Option WorkerRecord
  surviving ttl o = let left = live ttl now o in if not_positive ttl then o else left

  -- With a positive ttl, RemoveExpired deletes the records of exactly those workers whose last
  -- update is more than the ttl ago; with any other ttl it keeps every record. The workers are
  -- ranged over once each.
  pub lookup-remove_expired :
      (s : Store W) (k : String)
      → IsRange (settings.order s.workers) s.workers
      → lookup k (remove_expired settings now s).workers
        ≡ surviving settings.ttl (lookup k s.workers)
  unfolding remove_expired surviving
  lookup-remove_expired s k h = elim (Bool-cases (not_positive settings.ttl)) [
    | inl e ↦ rw e refl
    | inr e ↦ rw e (lookup-expired s k h)
  ]

-- Statuses lists one status for each record of the store, in the order of the workers' ids, if the
-- store's records are ranged over once each.
statuses_lem :
    {W : Type 0} (settings : StoreSettings W) (s : Store W)
    → Perm (settings.order s.workers) s.workers
    → IsSorted (λ t. t.worker_id) (statuses settings s)
      × Perm (statuses settings s) (map to_status s.workers)
unfolding statuses
statuses_lem settings s ranged = (
  sort_by-IsSorted (λ t. t.worker_id) (map to_status (settings.order s.workers)),
  Perm.trans (sort_by-perm (λ t. t.worker_id) (map to_status (settings.order s.workers)))
      (Perm.map to_status ranged),
)

-- Load works where the state directory can be made and read, whatever the files hold.
pub load-ok :
    {W : Type 0} (settings : StoreSettings W) (clock : String → Instant) (s : Store W) (w₁ w₂ : W)
    (entries : List (String × Bool))
    → settings.api.make_dir s.world ≡ (ok tt, w₁)
    → settings.api.read_dir w₁ ≡ (ok entries, w₂)
    → (load settings clock s).1 ≡ ok tt
unfolding load
load-ok settings clock s w₁ w₂ entries made found = rw (made, found) refl
