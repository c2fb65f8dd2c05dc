-- ===== src/Common/Sort/Order.antt =====
-- The order of texts is a strict total order.
use Prim.Native.Nat.{ℕ, compare as compare_ℕ, Ordering}
use Prim.Native.Char.{code}
use Prim.Native.String.{String, compare, then as and_then}
use Prim.Native.String.compare
use mathlib.Core.Path.{◌≡◌, refl, ap, sym, ◌∙◌}
use mathlib.Core.Bool.{true, false}
use native.Mathlib.Omega.{arith}
use text.Mathlib.Text.{is_lt}
use text.Mathlib.TextEquality.{path_by_compare}
use traefik_connect.Common.Sort.{lt_text}

then_asymm :
    (m n : ℕ) (o p : Ordering)
    → (is_lt o ≡ true → is_lt p ≡ false)
    → is_lt (and_then (compare_ℕ m n) o) ≡ true
    → is_lt (and_then (compare_ℕ n m) p) ≡ false
then_asymm m n o p h k = ground arith

pub lt_text_asymm : (s t : String) → lt_text s t ≡ true → lt_text t s ≡ false
lt_text_asymm String.[] String.[] h = refl
lt_text_asymm String.[] (String.◌∷◌ d t) h = ap is_lt (λ i. compare.cons-nil d t i)
lt_text_asymm (String.◌∷◌ c s) String.[] h = cc (h, ap is_lt (λ i. compare.cons-nil c s i))
lt_text_asymm (String.◌∷◌ c s) (String.◌∷◌ d t) h =
    ap is_lt (λ i. compare.cons-cons d c t s i)
    ∙ then_asymm (code c) (code d) (compare s t) (compare t s) (lt_text_asymm s t)
        (sym (ap is_lt (λ i. compare.cons-cons c d s t i)) ∙ h)

then_trans :
    (l m n : ℕ) (o p q : Ordering)
    → (is_lt o ≡ true → is_lt p ≡ true → is_lt q ≡ true)
    → is_lt (and_then (compare_ℕ l m) o) ≡ true
    → is_lt (and_then (compare_ℕ m n) p) ≡ true
    → is_lt (and_then (compare_ℕ l n) q) ≡ true
then_trans l m n o p q h k₁ k₂ = ground arith

pub lt_text_trans : (r s t : String) → lt_text r s ≡ true → lt_text s t ≡ true → lt_text r t ≡ true
lt_text_trans String.[] String.[] t h k = k
lt_text_trans (String.◌∷◌ c r) String.[] t h k = cc (h, ap is_lt (λ i. compare.cons-nil c r i))
lt_text_trans r (String.◌∷◌ c s) String.[] h k = cc (k, ap is_lt (λ i. compare.cons-nil c s i))
lt_text_trans String.[] (String.◌∷◌ d s) (String.◌∷◌ e t) h k =
    ap is_lt (λ i. compare.nil-cons e t i)
lt_text_trans (String.◌∷◌ c r) (String.◌∷◌ d s) (String.◌∷◌ e t) h k =
    ap is_lt (λ i. compare.cons-cons c e r t i)
    ∙ then_trans (code c) (code d) (code e) (compare r s) (compare s t) (compare r t)
        (lt_text_trans r s t) (sym (ap is_lt (λ i. compare.cons-cons c d r s i)) ∙ h)
        (sym (ap is_lt (λ i. compare.cons-cons d e s t i)) ∙ k)

then_total :
    (m n : ℕ) (o p : Ordering)
    → (is_lt o ≡ false → is_lt p ≡ false → o ≡ Ordering.eq)
    → is_lt (and_then (compare_ℕ m n) o) ≡ false
    → is_lt (and_then (compare_ℕ n m) p) ≡ false
    → and_then (compare_ℕ m n) o ≡ Ordering.eq
then_total m n o p h k₁ k₂ = ground arith

compare_total :
    (s t : String) → lt_text s t ≡ false → lt_text t s ≡ false → compare s t ≡ Ordering.eq
compare_total String.[] String.[] h k = refl
compare_total String.[] (String.◌∷◌ d t) h k = cc (h, ap is_lt (λ i. compare.nil-cons d t i))
compare_total (String.◌∷◌ c s) String.[] h k = cc (k, ap is_lt (λ i. compare.nil-cons c s i))
compare_total (String.◌∷◌ c s) (String.◌∷◌ d t) h k =
    (λ i. compare.cons-cons c d s t i)
    ∙ then_total (code c) (code d) (compare s t) (compare t s) (compare_total s t)
        (sym (ap is_lt (λ i. compare.cons-cons c d s t i)) ∙ h)
        (sym (ap is_lt (λ i. compare.cons-cons d c t s i)) ∙ k)

-- Two texts of which neither is less are equal.
pub lt_text_total : (s t : String) → lt_text s t ≡ false → lt_text t s ≡ false → s ≡ t
lt_text_total s t h k = path_by_compare s t (compare_total s t h k)
