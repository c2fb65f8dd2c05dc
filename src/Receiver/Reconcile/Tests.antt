-- ===== src/Receiver/Reconcile/Tests.antt =====
-- Reconciling the example, whose stub is there as it should be.
use traefik_connect.Common.{
  String, ◌≡◌, ◌≢◌, refl, true, false, false, ok, err, none, List, [], ◌∷◌, In, All, Dict, lookup,
  insert, length, keys, after_prefix, trim_prefix, inl, inr, keep_if, not, ◌==◌, Bool-cases,
  is_some, ok-injective, ==-false, ==-true, sym, ap, ◌∙◌,
}
use traefik_connect.Dockerx.{ContainerInspect}
use traefik_connect.Receiver.Tests.{web_settings, engine, in_order, other_inspect, inspect_by_id}
use traefik_connect.Receiver.Stubs.Build.Tests.{web_stub, web_cleaned, web_built}
use traefik_connect.Receiver.Stubs.{StubSpec}
use traefik_connect.Receiver.Reconcile.{
  ManagedContainer, to_managed, add_managed, is_managed_by, by_name, list_managed_containers,
  list_managed_from, reconcile_worker,
}
use traefik_connect.Receiver.Reconcile.Settled.{reconcile_worker_settled, StandsIn}
use traefik_connect.Receiver.Reconcile.Sparing.{Survives, reconcile_worker-survives}

abbrev world : List String
world = "stub" ∷ "other" ∷ []

abbrev listed : Dict ManagedContainer
listed =
    (
      "tc-0123456789ab",
      record {
        id = "stub";
        name = "tc-0123456789ab";
        desired_hash = "h1";
        image_id = "sha256:1";
        running = true;
      },
    )
    ∷ []

list_example : list_managed_containers engine "w1" world ≡ (ok listed, world)
unfolding list_managed_containers list_managed_from add_managed to_managed insert lookup trim_prefix
    after_prefix
list_example = refl

abbrev wanted : Dict StubSpec
wanted = ("tc-0123456789ab", web_stub) ∷ []

by_name_example : by_name (web_stub ∷ []) [] ≡ wanted
unfolding by_name insert
by_name_example = refl

stand_example : All (StandsIn listed) (by_name (web_stub ∷ []) [])
unfolding by_name insert lookup
stand_example =
    let current : ManagedContainer = record {
      id = "stub";
      name = "tc-0123456789ab";
      desired_hash = "h1";
      image_id = "sha256:1";
      running = true;
    } in
    ((current, refl, refl), tt)

wanted_example : All (λ e. is_some (lookup e.0 (by_name (web_stub ∷ []) [])) ≡ true) listed
unfolding by_name insert lookup
wanted_example = (refl, tt)

size_example : length (keys (by_name (web_stub ∷ []) [])) ≡ length (by_name (web_stub ∷ []) [])
unfolding by_name insert
size_example = refl

reconcile_worker_settled_example :
    reconcile_worker engine web_settings in_order web_cleaned world ≡ record {
      managed = keys (by_name (web_stub ∷ []) []);
      issues = [];
      failure = none;
      world = world;
    }
reconcile_worker_settled_example =
    reconcile_worker_settled engine web_settings in_order web_cleaned "sha256:1" (web_stub ∷ [])
      listed world world world refl web_built list_example size_example stand_example wanted_example

differ : (s t : String) → (s == t) ≡ false → s ≢ t
differ s t h e = cc (h, ==-true s t e)

-- The other container is there.
abbrev HasOther : List String → Type 0
HasOther w = In "other" w

kept_other :
    (id : String) (w : List String)
    → id ≢ "other"
    → HasOther w
    → HasOther (keep_if (λ other. not (other == id)) w)
kept_other id [] ne h = h
kept_other id (x ∷ w) ne (inl e) = rw (e, ==-false "other" id (λ h. ne (sym h))) (inl refl)
kept_other id (x ∷ w) ne (inr h) = elim (Bool-cases (x == id)) [
  | inl e ↦ rw e (kept_other id w ne h)
  | inr e ↦ rw e (inr (kept_other id w ne h))
]

other_unmarked : is_managed_by "w1" other_inspect ≡ false
unfolding lookup
other_unmarked = refl

other_not_managed :
    (id : String) (ins : ContainerInspect)
    → inspect_by_id id ≡ ok ins
    → is_managed_by "w1" ins ≡ true
    → ins.id ≢ "other"
other_not_managed id ins h m e = elim (Bool-cases (id == "stub")) [
  | inl f ↦ differ "stub" "other" refl (ap (λ r. r.id) (ok-injective (rw f at h)) ∙ e)
  | inr f ↦ elim (Bool-cases (id == "other")) [
    | inl g ↦ not_marked (rw (← ok-injective (rw (f, g) at h)) at m)
    | inr g ↦ not_found (rw (f, g) at h)
  ]
]
  where
    not_marked : is_managed_by "w1" other_inspect ≡ true → ⊥
    not_marked h = cc (h, other_unmarked)

    not_found : err "no such container" ≡ ok ins → ⊥
    not_found h = cc h

other_survives : Survives engine "w1" (λ id. id ≢ "other") HasOther
other_survives = record {
  image = λ name w h. h;
  list = λ w h. h;
  inspect = λ id w h. h;
  reported = λ id w ins h m. other_not_managed id ins h m;
  create = λ name req w h. inr h;
  created = λ name req w id h e. differ "new" "other" refl (ok-injective h ∙ e);
  connect = λ network id w h. h;
  start = λ id w h. h;
  remove = λ id w ne h. kept_other id w ne h;
}

reconcile_worker-survives_example :
    HasOther (reconcile_worker engine web_settings in_order web_cleaned world).world
reconcile_worker-survives_example =
    reconcile_worker-survives engine web_settings in_order web_cleaned other_survives (λ m h. h)
      world (inr (inl refl))
