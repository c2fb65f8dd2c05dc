-- ===== src/Parse/Values/Csv.antt =====
-- internal/parse/labels.go: csv, against the strings.Join with which internal/receiver/store.go and
-- internal/render/render.go write a list.
use Prim.Native.Char.{code}
use Prim.Native.String.{String, ◌++◌}
use text.Mathlib.TextLemmas.{nil-append, cons-append}
use traefik_connect.Common.{
  ℕ, ◌≡◌, refl, ap, ◌∙◌, Bool, true, false, List, [], ◌∷◌, All, ◌==◌, eqb, if◌then◌else◌, split,
  join, trim_space, arith, Bool-cases, inl, inr, cons_first,
}
use traefik_connect.Parse.Values.{keep_items, csv}

-- The separator does not come in the text.
abbrev pub lacks : ℕ → String → Bool
lacks sep String.[] = true
lacks sep (String.◌∷◌ c s) = let rest = lacks sep s in if eqb (code c) sep then false else rest

-- An item of a list as the labels can have it: not empty, without blanks at its ends and without a
-- comma.
pub record IsItem (s : String) : Type 0 where
  pub full : (s == "") ≡ false
  pub trimmed : trim_space s ≡ s
  pub whole : lacks b',' s ≡ true

split-lacks : (s : String) → lacks b',' s ≡ true → split b',' s ≡ s ∷ []
unfolding split cons_first
split-lacks String.[] h = refl
split-lacks (String.◌∷◌ c s) h = elim (Bool-cases (eqb (code c) b',')) [
  | inl e ↦ ground (arith, e, h)
  | inr e ↦ rw (e, split-lacks s (rw e at h)) refl
]

split-cons : (s t : String) → lacks b',' s ≡ true → split b',' (s ++ ("," ++ t)) ≡ s ∷ split b',' t
unfolding split cons_first
split-cons String.[] t h = rw (nil-append ("," ++ t), cons-append "," "" t, nil-append t) refl
split-cons (String.◌∷◌ c s) t h = elim (Bool-cases (eqb (code c) b',')) [
  | inl e ↦ ground (arith, e, h)
  | inr e ↦ rw (cons-append c s ("," ++ t), e, split-cons s t (rw e at h)) refl
]

split-join :
    (x : String) (xs : List String) → All IsItem (x ∷ xs) → split b',' (join (x ∷ xs) ",") ≡ x ∷ xs
unfolding join
split-join x [] (h, hs) = split-lacks x h.whole
split-join x (y ∷ ys) (h, hs) =
    split-cons x (join (y ∷ ys) ",") h.whole ∙ ap (λ r. x ∷ r) (split-join y ys hs)

keep_items_lem : (xs : List String) → All IsItem xs → keep_items xs ≡ xs
unfolding keep_items
keep_items_lem [] hs = refl
keep_items_lem (x ∷ xs) (h, hs) = rw (h.trimmed, h.full, keep_items_lem xs hs) refl

-- A list of items that is joined with commas is read back as it was.
csv-join : (xs : List String) → All IsItem xs → csv (join xs ",") ≡ xs
unfolding csv keep_items split join trim_space
csv-join [] hs = refl
csv-join (x ∷ xs) hs = rw (split-join x xs hs) (keep_items_lem (x ∷ xs) hs)
