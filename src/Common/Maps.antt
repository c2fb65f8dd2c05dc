-- ===== src/Common/Maps.antt =====
-- Go's maps with text keys, as association lists. The order of a map's entries stands for the
-- order in which Go happens to range over it.
use Prim.Native.String.{String}
use mathlib.Core.Path.{◌≡◌, refl}
use mathlib.Core.Option.{Option, none, some}
use mathlib.Core.List.{List, [], ◌∷◌}
use native.Mathlib.Omega.{arith}
use text.Mathlib.Text.{◌==◌}
use text.Mathlib.TextEquality.{eq_iff}
use traefik_connect.Common.Lists.{All}
use traefik_connect.Common.Tests.{if◌then◌else◌, Bool-cases}
use mathlib.Core.Logic.{inl, inr}

abbrev pub Dict {ℓ} : Type ℓ → Type ℓ
Dict V = List (String × V)

module _ {ℓ} {V : Type ℓ} where
  -- v, ok := m[k]
  unfoldable pub lookup : String → Dict V → Option V
  lookup a [] = none
  lookup a ((b, x) ∷ d) = if b == a then some x else lookup a d

  -- m[k] = v
  unfoldable pub insert : String → V → Dict V → Dict V
  insert a x [] = (a, x) ∷ []
  insert a x ((b, y) ∷ d) = if b == a then (a, x) ∷ d else (b, y) ∷ insert a x d

  -- delete(m, k)
  unfoldable pub remove : String → Dict V → Dict V
  remove a [] = []
  remove a ((b, y) ∷ d) = let rest = remove a d in if b == a then rest else (b, y) ∷ rest

  abbrev pub keys : Dict V → List String
  keys [] = []
  keys ((a, x) ∷ d) = a ∷ keys d

  pub lookup-insert :
      (a b : String) (x : V) (d : Dict V)
      → lookup b (insert a x d) ≡ (if a == b then some x else lookup b d)
  unfolding lookup insert
  lookup-insert a b x [] = refl
  lookup-insert a b x ((c, y) ∷ d) =
      ground (arith, eq_iff a b, eq_iff c a, eq_iff c b, lookup-insert a b x d)

  pub lookup-remove :
      (a b : String) (d : Dict V) → lookup b (remove a d) ≡ (if a == b then none else lookup b d)
  unfolding lookup remove
  lookup-remove a b [] = ground arith
  lookup-remove a b ((c, y) ∷ d) =
      ground (arith, eq_iff a b, eq_iff c a, eq_iff c b, lookup-remove a b d)

pub All-insert :
    {V : Type 0} (P : String × V → Type 0) (k : String) (v : V) (m : Dict V)
    → P (k, v)
    → All P m
    → All P (insert k v m)
unfolding insert
All-insert P k v [] h hs = (h, tt)
All-insert P k v ((j, w) ∷ m) h (hw, hs) = elim (Bool-cases (j == k)) [
  | inl e ↦ rw e (h, hs)
  | inr e ↦ rw e (hw, All-insert P k v m h hs)
]

pub All-remove :
    {V : Type 0} (P : String × V → Type 0) (k : String) (m : Dict V) → All P m → All P (remove k m)
unfolding remove
All-remove P k [] hs = tt
All-remove P k ((j, w) ∷ m) (hw, hs) = elim (Bool-cases (j == k)) [
  | inl e ↦ rw e (All-remove P k m hs)
  | inr e ↦ rw e (hw, All-remove P k m hs)
]

abbrev pub or_zero {ℓ} : {V : Type ℓ} → V → Option V → V
or_zero z none = z
or_zero z (some v) = v

-- m[k], with the zero value for a missing key
abbrev pub at_or {ℓ} : {V : Type ℓ} → V → Dict V → String → V
at_or z m k = or_zero z (lookup k m)

-- m[k] where a missing key gives the empty text
abbrev pub text_at : Dict String → String → String
text_at d a = elim (lookup a d) [ none ↦ "" | some x ↦ x ]

pub ruleset dict_laws = (lookup-insert, lookup-remove)
