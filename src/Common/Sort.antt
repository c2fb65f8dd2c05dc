-- ===== src/Common/Sort.antt =====
-- sort.Strings and sort.SliceStable: a stable insertion sort. Texts are in the order of their bytes.
pub mod Order
pub mod Laws
use Prim.Native.String.{String, compare}
use mathlib.Core.Bool.{Bool}
use mathlib.Core.List.{List, [], ◌∷◌}
use text.Mathlib.Text.{is_lt}
use traefik_connect.Common.Tests.{if◌then◌else◌}

-- s < t
abbrev pub lt_text : String → String → Bool
lt_text s t = is_lt (compare s t)

module _ {ℓ} {A : Type ℓ} (less : A → A → Bool) where
  -- Behind the items that are less.
  unfoldable pub insert_sorted : A → List A → List A
  insert_sorted a [] = a ∷ []
  insert_sorted a (x ∷ xs) =
      let later = insert_sorted a xs in if less x a then x ∷ later else a ∷ x ∷ xs

  unfoldable pub sort_with : List A → List A
  unfolding insert_sorted
  sort_with [] = []
  sort_with (x ∷ xs) = insert_sorted x (sort_with xs)

unfoldable pub sort_by {ℓ} : {A : Type ℓ} → (A → String) → List A → List A
unfolding sort_with
sort_by key = sort_with (λ a b. lt_text (key a) (key b))

unfoldable pub sort_texts : List String → List String
unfolding sort_with
sort_texts = sort_with lt_text
