-- ===== src/Common/Sort/Laws.antt =====
-- A sorted list holds the same items, in ascending order, and depends on no order that they had.
use Prim.Native.String.{String}
use mathlib.Core.Path.{◌≡◌, refl, ap, sym, subst, ◌∙◌}
use mathlib.Core.Logic.{◌⊎◌, inl, inr}
use mathlib.Core.Bool.{Bool, true, false}
use mathlib.Core.List.{List, [], ◌∷◌, Perm, Permᴰ}
use mathlib.Core.List.Perm
use traefik_connect.Common.Tests.{Bool-cases}
use traefik_connect.Common.Lists.{All}
use traefik_connect.Common.Sort.{lt_text, insert_sorted, sort_with, sort_by, sort_texts}
use traefik_connect.Common.Sort.Order.{lt_text_asymm, lt_text_trans, lt_text_total}

module _ {A : Type 0} (less : A → A → Bool) where
  -- No item is less than the one before it.
  abbrev pub IsOrdered : List A → Type 0
  IsOrdered [] = Unit
  IsOrdered (x ∷ []) = Unit
  IsOrdered (x ∷ y ∷ xs) = (less y x ≡ false) × IsOrdered (y ∷ xs)

  -- A strict order.
  pub record IsStrict : Type 0 where
    pub asymm : (a b : A) → less a b ≡ true → less b a ≡ false
    pub trans : (a b c : A) → less a b ≡ true → less b c ≡ true → less a c ≡ true

  -- Of two items one is less, or they are the same.
  abbrev pub Comparable : A → A → Type 0
  Comparable a b = ((less a b ≡ true) ⊎ (less b a ≡ true)) ⊎ (a ≡ b)

  abbrev pub AllComparable : List A → Type 0
  AllComparable [] = Unit
  AllComparable (x ∷ xs) = All (Comparable x) xs × AllComparable xs

  abbrev HeadsUp : A → List A → Type 0
  HeadsUp x [] = Unit
  HeadsUp x (y ∷ ys) = less y x ≡ false

  IsOrdered-cons : (x : A) (xs : List A) → HeadsUp x xs → IsOrdered xs → IsOrdered (x ∷ xs)
  IsOrdered-cons x [] h s = tt
  IsOrdered-cons x (y ∷ ys) h s = (h, s)

  IsOrdered-tail : (x : A) (xs : List A) → IsOrdered (x ∷ xs) → IsOrdered xs
  IsOrdered-tail x [] s = tt
  IsOrdered-tail x (y ∷ ys) (h, s) = s

  HeadsUp-insert :
      (x a : A) (xs : List A)
      → IsOrdered (x ∷ xs)
      → less a x ≡ false
      → HeadsUp x (insert_sorted less a xs)
  unfolding insert_sorted
  HeadsUp-insert x a [] s h = h
  HeadsUp-insert x a (y ∷ ys) (k, s) h = elim (Bool-cases (less y a)) [
    | inl e ↦ rw e k
    | inr e ↦ rw e h
  ]

  insert_sorted-IsOrdered :
      IsStrict → (a : A) (xs : List A) → IsOrdered xs → IsOrdered (insert_sorted less a xs)
  unfolding insert_sorted
  insert_sorted-IsOrdered o a [] s = tt
  insert_sorted-IsOrdered o a (x ∷ xs) s = elim (Bool-cases (less x a)) [
    | inl e ↦ rw e (
        IsOrdered-cons x (insert_sorted less a xs) (HeadsUp-insert x a xs s (o.asymm x a e))
          (insert_sorted-IsOrdered o a xs (IsOrdered-tail x xs s)))
    | inr e ↦ rw e (e, s)
  ]

  sort_with-IsOrdered : IsStrict → (xs : List A) → IsOrdered (sort_with less xs)
  unfolding sort_with
  sort_with-IsOrdered o [] = tt
  sort_with-IsOrdered o (x ∷ xs) =
      insert_sorted-IsOrdered o x (sort_with less xs) (sort_with-IsOrdered o xs)

  insert_sorted-perm : (a : A) (xs : List A) → Perm (insert_sorted less a xs) (a ∷ xs)
  unfolding insert_sorted
  insert_sorted-perm a [] = Perm.refl _
  insert_sorted-perm a (x ∷ xs) = elim (Bool-cases (less x a)) [
    | inl e ↦ rw e (Perm.trans (Perm.cons x (insert_sorted-perm a xs)) (Perm.swap _ _ _))
    | inr e ↦ rw e (Perm.refl _)
  ]

  sort_with-perm : (xs : List A) → Perm (sort_with less xs) xs
  unfolding sort_with
  sort_with-perm [] = Perm.refl _
  sort_with-perm (x ∷ xs) =
      Perm.trans (insert_sorted-perm x (sort_with less xs)) (Perm.cons x (sort_with-perm xs))

  module _ (P : A → Type 0) where
    insert_sorted-All : (a : A) (xs : List A) → P a → All P xs → All P (insert_sorted less a xs)
    unfolding insert_sorted
    insert_sorted-All a [] h hs = (h, tt)
    insert_sorted-All a (x ∷ xs) h (hx, hs) = elim (Bool-cases (less x a)) [
      | inl e ↦ rw e (hx, insert_sorted-All a xs h hs)
      | inr e ↦ rw e (h, (hx, hs))
    ]

    sort_with-All : (xs : List A) → All P xs → All P (sort_with less xs)
    unfolding sort_with
    sort_with-All [] hs = tt
    sort_with-All (x ∷ xs) (h, hs) = insert_sorted-All x (sort_with less xs) h (sort_with-All xs hs)

  -- Two items of which one is less are inserted in either order.
  insert_sorted-commutes :
      IsStrict
      → (a b : A) (xs : List A) → less a b ≡ true
      → insert_sorted less a (insert_sorted less b xs)
        ≡ insert_sorted less b (insert_sorted less a xs)
  unfolding insert_sorted
  insert_sorted-commutes o a b [] h = rw (h, o.asymm a b h) refl
  insert_sorted-commutes o a b (x ∷ xs) h = elim (Bool-cases (less x a)) [
    | inl xa ↦ rw (xa, o.trans x a b xa h, xa) (ap (λ r. x ∷ r) (insert_sorted-commutes o a b xs h))
    | inr xa ↦ elim (Bool-cases (less x b)) [
      | inl xb ↦ rw (xa, xb, xa, h) refl
      | inr xb ↦ rw (xa, xb, h, xa, o.asymm a b h) refl
    ]
  ]

  insert_sorted-swap :
      IsStrict
      → (a b : A) (xs : List A) → Comparable a b
      → insert_sorted less a (insert_sorted less b xs)
        ≡ insert_sorted less b (insert_sorted less a xs)
  insert_sorted-swap o a b xs (inl (inl h)) = insert_sorted-commutes o a b xs h
  insert_sorted-swap o a b xs (inl (inr h)) = sym (insert_sorted-commutes o b a xs h)
  insert_sorted-swap o a b xs (inr e) = rw e refl

  Comparable-sym : (a b : A) → Comparable a b → Comparable b a
  Comparable-sym a b (inl (inl h)) = inl (inr h)
  Comparable-sym a b (inl (inr h)) = inl (inl h)
  Comparable-sym a b (inr e) = inr (sym e)

  All-perm : (P : A → Type 0) (xs ys : List A) → Permᴰ xs ys → All P xs → All P ys
  All-perm P [] [] Permᴰ.nil h = h
  All-perm P (a ∷ xs) (b ∷ ys) (Permᴰ.cons e d) (h, hs) = (rw (← e) h, All-perm P xs ys d hs)
  All-perm P (a ∷ b ∷ xs) (c ∷ d ∷ ys) (Permᴰ.swap e f) (h, (k, hs)) =
      (rw (← f) k, (rw (← e) h, hs))
  All-perm P xs ys (Permᴰ.trans {l₂ = zs} d e) h = All-perm P zs ys e (All-perm P xs zs d h)

  AllComparable-perm : (xs ys : List A) → Permᴰ xs ys → AllComparable xs → AllComparable ys
  AllComparable-perm [] [] Permᴰ.nil h = h
  AllComparable-perm (a ∷ xs) (b ∷ ys) (Permᴰ.cons e d) (h, hs) =
      (All-perm (Comparable b) xs ys d (rw (← e) h), AllComparable-perm xs ys d hs)
  AllComparable-perm (a ∷ b ∷ xs) (c ∷ d ∷ ys) (Permᴰ.swap e f) ((k, ha), (hb, hs)) = (
    (rw (← e, ← f) (Comparable-sym a b k), subst (λ z. All (Comparable z) xs) f hb),
    (subst (λ z. All (Comparable z) xs) e ha, hs),
  )
  AllComparable-perm xs ys (Permᴰ.trans {l₂ = zs} d e) h =
      AllComparable-perm zs ys e (AllComparable-perm xs zs d h)

  -- The sorted list does not depend on the order of items that are comparable.
  pub sort_with-unordered :
      IsStrict
      → (xs ys : List A) → Permᴰ xs ys
      → AllComparable xs
      → sort_with less xs ≡ sort_with less ys
  unfolding sort_with
  sort_with-unordered o [] [] Permᴰ.nil h = refl
  sort_with-unordered o (a ∷ xs) (b ∷ ys) (Permᴰ.cons e d) (h, hs) =
      rw (e, sort_with-unordered o xs ys d hs) refl
  sort_with-unordered o (a ∷ b ∷ xs) (c ∷ d ∷ ys) (Permᴰ.swap e f) ((k, ha), (hb, hs)) =
      rw (← e, ← f) (insert_sorted-swap o a b (sort_with less xs) k)
  sort_with-unordered o xs ys (Permᴰ.trans {l₂ = zs} d e) h =
      sort_with-unordered o xs zs d h ∙ sort_with-unordered o zs ys e (AllComparable-perm xs zs d h)

module _ {A : Type 0} (key : A → String) where
  abbrev by_key : A → A → Bool
  by_key a b = lt_text (key a) (key b)

  by_key-IsStrict : IsStrict by_key
  by_key-IsStrict = record {
    asymm = λ a b. lt_text_asymm (key a) (key b);
    trans = λ a b c. lt_text_trans (key a) (key b) (key c);
  }

  -- The keys ascend.
  abbrev pub IsSorted : List A → Type 0
  IsSorted = IsOrdered by_key

  pub sort_by-IsSorted : (xs : List A) → IsSorted (sort_by key xs)
  unfolding sort_by
  sort_by-IsSorted = sort_with-IsOrdered by_key by_key-IsStrict

  pub sort_by-perm : (xs : List A) → Perm (sort_by key xs) xs
  unfolding sort_by
  sort_by-perm = sort_with-perm by_key

  pub sort_by-All : (P : A → Type 0) (xs : List A) → All P xs → All P (sort_by key xs)
  unfolding sort_by
  sort_by-All P = sort_with-All by_key P

Comparable-texts : (s t : String) → Comparable lt_text s t
Comparable-texts s t = elim (Bool-cases (lt_text s t)) [
  | inl h ↦ inl (inl h)
  | inr h ↦ elim (Bool-cases (lt_text t s)) [
    | inl k ↦ inl (inr k)
    | inr k ↦ inr (lt_text_total s t h k)
  ]
]

All-texts : (s : String) (ts : List String) → All (Comparable lt_text s) ts
All-texts s [] = tt
All-texts s (t ∷ ts) = (Comparable-texts s t, All-texts s ts)

AllComparable-texts : (ss : List String) → AllComparable lt_text ss
AllComparable-texts [] = tt
AllComparable-texts (s ∷ ss) = (All-texts s ss, AllComparable-texts ss)

-- sort.Strings forgets the order that it was given.
pub sort_texts-unordered : (xs ys : List String) → Permᴰ xs ys → sort_texts xs ≡ sort_texts ys
unfolding sort_texts
sort_texts-unordered xs ys d =
    sort_with-unordered lt_text (record { asymm = lt_text_asymm; trans = lt_text_trans }) xs ys d
      (AllComparable-texts xs)
