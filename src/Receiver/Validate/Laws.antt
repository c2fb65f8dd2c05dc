-- ===== src/Receiver/Validate/Laws.antt =====
-- What a validated snapshot guarantees.
use mathlib.Core.List.{Sublistᴰ}
use traefik_connect.Common.{
  not_positive, ◌+◌, String, ◌≡◌, ◌≢◌, ◌↔◌, ◌⊎◌, refl, true, false, List, [], ◌∷◌, ◌++◌, ◌==◌,
  eq_iff, All, arith, length, Bool-cases, inl, inr, ◌∙◌, sym,
}
use traefik_connect.Model.{ContainerSpec, Snapshot, ValidationIssue}
use traefik_connect.Receiver.Validate.{
  seen_id, check_containers, snapshot_issues, validate_snapshot, has_snapshot_issue,
  persisted_record_compatible,
}

-- A container with all that the receiver needs to build stubs for it.
pub record IsComplete (c : ContainerSpec) : Type 0 where
  pub id : c.id ≢ ""
  pub name : c.name ≢ ""
  pub routers : c.routers ≢ []
  pub services : c.services ≢ []

abbrev pub HasDistinctIds : List ContainerSpec → Type 0
HasDistinctIds [] = Unit
HasDistinctIds (c ∷ cs) = All (λ d. d.id ≢ c.id) cs × HasDistinctIds cs

abbrev pub IsUnseen : List String → ContainerSpec → Type 0
IsUnseen seen c = seen_id c.id seen ≡ false

check_containers-IsComplete :
    (w : String) (cs : List ContainerSpec) (seen : List String)
    → All IsComplete (check_containers w cs seen).kept
unfolding check_containers
check_containers-IsComplete w [] seen = tt
check_containers-IsComplete w (c ∷ cs) seen = ground (
  arith,
  check_containers-IsComplete w cs seen,
  check_containers-IsComplete w cs (c.id ∷ seen),
  eq_iff c.id "",
  eq_iff c.name "",
)

All-IsUnseen-weaken :
    (id : String) (seen : List String) (cs : List ContainerSpec)
    → All (IsUnseen (id ∷ seen)) cs
    → All (IsUnseen seen) cs
All-IsUnseen-weaken id seen [] h = tt
All-IsUnseen-weaken id seen (c ∷ cs) (h, hs) = (ground arith, All-IsUnseen-weaken id seen cs hs)

All-IsUnseen-ne :
    (id : String) (seen : List String) (cs : List ContainerSpec)
    → All (IsUnseen (id ∷ seen)) cs
    → All (λ d. d.id ≢ id) cs
All-IsUnseen-ne id seen [] h = tt
All-IsUnseen-ne id seen (c ∷ cs) (h, hs) =
    (ground (arith, eq_iff id c.id), All-IsUnseen-ne id seen cs hs)

check_containers-IsUnseen :
    (w : String) (cs : List ContainerSpec) (seen : List String)
    → All (IsUnseen seen) (check_containers w cs seen).kept
unfolding check_containers
check_containers-IsUnseen w [] seen = tt
check_containers-IsUnseen w (c ∷ cs) seen = ground (
  arith,
  check_containers-IsUnseen w cs seen,
  All-IsUnseen-weaken c.id seen (check_containers w cs (c.id ∷ seen)).kept
      (check_containers-IsUnseen w cs (c.id ∷ seen)),
)

check_containers-HasDistinctIds :
    (w : String) (cs : List ContainerSpec) (seen : List String)
    → HasDistinctIds (check_containers w cs seen).kept
unfolding check_containers
check_containers-HasDistinctIds w [] seen = tt
check_containers-HasDistinctIds w (c ∷ cs) seen = ground (
  arith,
  check_containers-HasDistinctIds w cs seen,
  check_containers-HasDistinctIds w cs (c.id ∷ seen),
  All-IsUnseen-ne c.id seen (check_containers w cs (c.id ∷ seen)).kept
      (check_containers-IsUnseen w cs (c.id ∷ seen)),
)

-- What one round of the loop appends to the containers kept by the rest.
kept-cons-cases :
    (w : String) (c : ContainerSpec) (cs : List ContainerSpec) (seen : List String)
    → ((check_containers w (c ∷ cs) seen).kept ≡ (check_containers w cs seen).kept)
      ⊎ ((check_containers w (c ∷ cs) seen).kept ≡ (check_containers w cs (c.id ∷ seen)).kept)
      ⊎ ((check_containers w (c ∷ cs) seen).kept ≡ c ∷ (check_containers w cs (c.id ∷ seen)).kept)
unfolding check_containers
kept-cons-cases w c cs seen = ground arith

nil_sublist : (cs : List ContainerSpec) → Sublistᴰ [] cs
nil_sublist [] = Sublistᴰ.slnil
nil_sublist (c ∷ cs) = Sublistᴰ.cons (nil_sublist cs)

check_containers-sublist :
    (w : String) (cs : List ContainerSpec) (seen : List String)
    → Sublistᴰ (check_containers w cs seen).kept cs
check_containers-sublist w [] seen = unfold check_containers in Sublistᴰ.slnil
check_containers-sublist w (c ∷ cs) seen = elim (kept-cons-cases w c cs seen) [
  | inl e ↦ rw e (Sublistᴰ.cons (check_containers-sublist w cs seen))
  | inr (inl e) ↦ rw e (Sublistᴰ.cons (check_containers-sublist w cs (c.id ∷ seen)))
  | inr (inr e) ↦ rw e (Sublistᴰ.cons-cons refl (check_containers-sublist w cs (c.id ∷ seen)))
]

-- Each container is kept or reported, and never both.
check_containers_count :
    (w : String) (cs : List ContainerSpec) (seen : List String)
    → length (check_containers w cs seen).issues + length (check_containers w cs seen).kept
      ≡ length cs
unfolding check_containers
check_containers_count w [] seen = refl
check_containers_count w (c ∷ cs) seen =
    ground (arith, check_containers_count w cs seen, check_containers_count w cs (c.id ∷ seen))

All-IsUnseen-cons :
    (id : String) (seen : List String) (cs : List ContainerSpec)
    → All (IsUnseen seen) cs
    → All (λ d. d.id ≢ id) cs
    → All (IsUnseen (id ∷ seen)) cs
All-IsUnseen-cons id seen [] h ne = tt
All-IsUnseen-cons id seen (c ∷ cs) (h, hs) (ne, nes) =
    (ground (arith, eq_iff id c.id), All-IsUnseen-cons id seen cs hs nes)

-- Containers that pass every guard are kept as they are.
check_containers_of_complete :
    (w : String) (cs : List ContainerSpec) (seen : List String)
    → All IsComplete cs
    → All (IsUnseen seen) cs
    → HasDistinctIds cs
    → check_containers w cs seen ≡ record { issues = []; kept = cs }
unfolding check_containers
check_containers_of_complete w [] seen oks news nes = refl
check_containers_of_complete w (c ∷ cs) seen (ok, oks) (new, news) (ne, nes_later) = ground (
  arith,
  check_containers_of_complete w cs (c.id ∷ seen) oks (All-IsUnseen-cons c.id seen cs news ne)
      nes_later,
  eq_iff c.id "",
  eq_iff c.name "",
)

abbrev IsContainerIssue : ValidationIssue → Type 0
IsContainerIssue i = i.scope ≡ "container"

check_containers_scope :
    (w : String) (cs : List ContainerSpec) (seen : List String)
    → All IsContainerIssue (check_containers w cs seen).issues
unfolding check_containers
check_containers_scope w [] seen = tt
check_containers_scope w (c ∷ cs) seen =
    ground (arith, check_containers_scope w cs seen, check_containers_scope w cs (c.id ∷ seen))

has_snapshot_issue-append :
    (xs ys : List ValidationIssue)
    → All IsContainerIssue ys
    → has_snapshot_issue (xs ++ ys) ≡ has_snapshot_issue xs
unfolding has_snapshot_issue
has_snapshot_issue-append [] [] h = refl
has_snapshot_issue-append [] (y ∷ ys) (h, hs) = rw h (has_snapshot_issue-append [] ys hs)
has_snapshot_issue-append (x ∷ xs) ys h = ground (arith, has_snapshot_issue-append xs ys h)

-- The two ways that validation can end.
validate_snapshot_unnamed :
    (s : Snapshot)
    → (s.worker_id == "") ≡ true
    → (has_snapshot_issue (validate_snapshot s).0 ≡ true)
      × ((validate_snapshot s).1.containers ≡ [])
unfolding validate_snapshot has_snapshot_issue
validate_snapshot_unnamed s e = rw e (refl, refl)

validate_snapshot_named :
    (s : Snapshot)
    → (s.worker_id == "") ≡ false
    → validate_snapshot s ≡ (
      snapshot_issues s ++ (check_containers s.worker_id s.containers []).issues,
      record s { containers = (check_containers s.worker_id s.containers []).kept },
    )
unfolding validate_snapshot
validate_snapshot_named s e = rw e

-- Validation finds no fault with the snapshot itself exactly when a record of it could be loaded.
snapshot_issues_iff :
    (s : Snapshot)
    → (s.worker_id == "") ≡ false
    → (has_snapshot_issue (snapshot_issues s) ≡ false) ↔ (persisted_record_compatible s ≡ true)
unfolding snapshot_issues has_snapshot_issue persisted_record_compatible
snapshot_issues_iff s e = (ground arith, ground arith)

no_snapshot_issues :
    (s : Snapshot) → has_snapshot_issue (snapshot_issues s) ≡ false → snapshot_issues s ≡ []
unfolding snapshot_issues has_snapshot_issue
no_snapshot_issues s h = ground arith

unnamed_incompatible :
    (s : Snapshot) → (s.worker_id == "") ≡ true → persisted_record_compatible s ≡ false
unfolding persisted_record_compatible
unnamed_incompatible s e = rw e

has_snapshot_issue_named :
    (s : Snapshot)
    → (s.worker_id == "") ≡ false
    → has_snapshot_issue (validate_snapshot s).0 ≡ has_snapshot_issue (snapshot_issues s)
has_snapshot_issue_named s e = rw (validate_snapshot_named s e) (
    has_snapshot_issue-append (snapshot_issues s) _
      (check_containers_scope s.worker_id s.containers []))

All-IsUnseen-nil : (cs : List ContainerSpec) → All (IsUnseen []) cs
All-IsUnseen-nil [] = tt
All-IsUnseen-nil (c ∷ cs) = (refl, All-IsUnseen-nil cs)

-- Validation changes nothing in a snapshot that passes every guard.
validate_snapshot_of_complete :
    (s : Snapshot)
    → (s.worker_id == "") ≡ false
    → snapshot_issues s ≡ []
    → All IsComplete s.containers
    → HasDistinctIds s.containers
    → validate_snapshot s ≡ ([], s)
validate_snapshot_of_complete s e faultless oks nes =
    let same =
      check_containers_of_complete s.worker_id s.containers [] oks (All-IsUnseen-nil s.containers)
        nes in
    rw (validate_snapshot_named s e, faultless, same) refl

compatible_issues :
    (s : Snapshot)
    → persisted_record_compatible s ≡ true
    → ((s.worker_id == "") ≡ false) × (snapshot_issues s ≡ [])
unfolding persisted_record_compatible snapshot_issues
compatible_issues s h = elim (Bool-cases (s.worker_id == "")) [
  | inl e ↦ ground (arith, e, h)
  | inr e₁ ↦ elim (Bool-cases (s.advertise_addr == "")) [
    | inl e ↦ ground (arith, e₁, e, h)
    | inr e₂ ↦ elim (Bool-cases (not_positive s.proxy_port)) [
      | inl e ↦ ground (arith, e₁, e₂, e, h)
      | inr e₃ ↦ (e₁, rw (e₂, e₃) refl)
    ]
  ]
]

pub validate_snapshot_of_compatible :
    (s : Snapshot)
    → persisted_record_compatible s ≡ true
    → All IsComplete s.containers
    → HasDistinctIds s.containers
    → validate_snapshot s ≡ ([], s)
validate_snapshot_of_compatible s h oks nes =
    let (named, faultless) = compatible_issues s h in
    validate_snapshot_of_complete s named faultless oks nes

snapshot_issues-containers :
    (s : Snapshot) (cs : List ContainerSpec)
    → snapshot_issues (record s { containers = cs }) ≡ snapshot_issues s
unfolding snapshot_issues
snapshot_issues-containers s cs = refl

-- The containers of a validated snapshot are complete, have pairwise different ids, and are some of
-- the containers received, in their order.
pub validate_snapshot_sound :
    (s : Snapshot)
    → All IsComplete (validate_snapshot s).1.containers
      × HasDistinctIds (validate_snapshot s).1.containers
      × Sublistᴰ (validate_snapshot s).1.containers s.containers
validate_snapshot_sound s = elim (Bool-cases (s.worker_id == "")) [
  | inl e ↦ rw (validate_snapshot_unnamed s e).1 (tt, tt, nil_sublist s.containers)
  | inr e ↦ rw (validate_snapshot_named s e) (
    check_containers-IsComplete s.worker_id s.containers [],
    check_containers-HasDistinctIds s.worker_id s.containers [],
    check_containers-sublist s.worker_id s.containers [],
  )
]

-- Where validation finds no fault with the snapshot itself, every container received is either kept
-- or reported in an issue: the issues and the containers kept are as many as those received.
validate_snapshot_count :
    (s : Snapshot)
    → has_snapshot_issue (validate_snapshot s).0 ≡ false
    → length (validate_snapshot s).0 + length (validate_snapshot s).1.containers
      ≡ length s.containers
validate_snapshot_count s h = elim (Bool-cases (s.worker_id == "")) [
  | inl e ↦ cc (validate_snapshot_unnamed s e).0
  | inr e ↦
      let none_there = no_snapshot_issues s (sym (has_snapshot_issue_named s e) ∙ h) in
      rw (validate_snapshot_named s e, none_there)
        (check_containers_count s.worker_id s.containers [])
]

-- A snapshot that was validated with no fault of its own is validated again with no issue at all,
-- and nothing more is dropped from it.
validate_snapshot_idem :
    (s : Snapshot)
    → has_snapshot_issue (validate_snapshot s).0 ≡ false
    → validate_snapshot (validate_snapshot s).1 ≡ ([], (validate_snapshot s).1)
validate_snapshot_idem s h = elim (Bool-cases (s.worker_id == "")) [
  | inl e ↦ cc (validate_snapshot_unnamed s e).0
  | inr e ↦
      let k = (check_containers s.worker_id s.containers []).kept in
      let faultless = no_snapshot_issues s (sym (has_snapshot_issue_named s e) ∙ h) in
      rw (validate_snapshot_named s e) (
        validate_snapshot_of_complete (record s { containers = k }) e
          (snapshot_issues-containers s k ∙ faultless)
          (check_containers-IsComplete s.worker_id s.containers [])
          (check_containers-HasDistinctIds s.worker_id s.containers []))
]

-- Validation finds no fault with a snapshot itself exactly when the test that is applied to
-- persisted records on loading accepts it.
pub has_snapshot_issue_iff :
    (s : Snapshot)
    → (has_snapshot_issue (validate_snapshot s).0 ≡ false) ↔ (persisted_record_compatible s ≡ true)
has_snapshot_issue_iff s = elim (Bool-cases (s.worker_id == "")) [
  | inl e ↦ (λ h. cc (validate_snapshot_unnamed s e).0, λ h. cc (unnamed_incompatible s e))
  | inr e ↦ rw (has_snapshot_issue_named s e) (snapshot_issues_iff s e)
]

pub validate_snapshot-time : (s : Snapshot) → (validate_snapshot s).1.captured_at ≡ s.captured_at
unfolding validate_snapshot
validate_snapshot-time s = elim (Bool-cases (s.worker_id == "")) [
  | inl e ↦ rw e refl
  | inr e ↦ rw e refl
]

containers-compatible :
    (s : Snapshot) (cs : List ContainerSpec)
    → persisted_record_compatible (record s { containers = cs }) ≡ persisted_record_compatible s
unfolding persisted_record_compatible
containers-compatible s cs = refl

pub validate_snapshot-compatible :
    (s : Snapshot)
    → persisted_record_compatible (validate_snapshot s).1 ≡ persisted_record_compatible s
unfolding validate_snapshot
validate_snapshot-compatible s = elim (Bool-cases (s.worker_id == "")) [
  | inl e ↦ rw e (containers-compatible s [])
  | inr e ↦ rw e (containers-compatible s (check_containers s.worker_id s.containers []).kept)
]
