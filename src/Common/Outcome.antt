-- ===== src/Common/Outcome.antt =====
-- Go's `(value, error)` pairs. An error is the text that its `Error` method returns.
use Prim.Native.String.{String}
use mathlib.Core.Path.{◌≡◌, refl, ap}

pub data Result {ℓ} (A : Type ℓ) : Type ℓ where
  ok : A → Result A
  err : String → Result A

infixl 5 ◌>>=◌
-- `if err != nil { return ..., err }`
abbrev pub ◌>>=◌ {ℓ κ} : {X : Type ℓ} {Y : Type κ} → Result X → (X → Result Y) → Result Y
err text >>= next = err text
ok x >>= next = next x

module _ {ℓ κ} {X : Type ℓ} {Y : Type κ} where
  pub >>=-eq-ok :
      (first : Result X) (next : X → Result Y) {b : Y}
      → first >>= next ≡ ok b
      → (x : X) × (first ≡ ok x) × (next x ≡ ok b)
  >>=-eq-ok (err text) next h = cc
  >>=-eq-ok (ok x) next h = (x, refl, h)

abbrev result_or {ℓ} : {X : Type ℓ} → X → Result X → X
result_or x (err text) = x
result_or x (ok y) = y

pub ok-injective {ℓ} : {X : Type ℓ} {x y : X} → ok x ≡ ok y → x ≡ y
ok-injective {x} h = ap (λ r. result_or x r) h
