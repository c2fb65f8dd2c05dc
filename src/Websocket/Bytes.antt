-- ===== src/Websocket/Bytes.antt =====
-- Bytes of lengths, and masking.
use Prim.Native.Nat.{bit_xor}
use traefik_connect.Common.{
  ℕ, zero, suc, ◌+◌, ◌%◌, ◌^◌, ◌<◌, ◌≡◌, refl, Bool, true, false, if◌then◌else◌, [], ◌∷◌, ◌++◌,
  arith, eqb, eqb_iff, length, All, ap, some, ok,
}
use traefik_connect.Websocket.{
  Bytes, get_or, xor_from, big_endian, take_full, read_full, join_bytes,
}

-- The test on every number below the bound.
passes : (ℕ → Bool) → ℕ → Bool
passes test zero = true
passes test (suc bound) = let lower = passes test bound in if test bound then lower else false

passes_lem : (test : ℕ → Bool) (bound x : ℕ) → x < bound → passes test bound ≡ true → test x ≡ true
unfolding passes
passes_lem test zero x below h = absurd (omega arith)
passes_lem test (suc bound) x below h = ground (arith, passes_lem test bound x)

abbrev undone : ℕ → ℕ → Bool
undone k x = eqb (bit_xor (bit_xor x k) k) x

xor_table : passes (λ k. passes (undone k) 256) 256 ≡ true
unfolding passes
xor_table = refl

pub xor_twice : (x k : ℕ) → x < 256 → k < 256 → bit_xor (bit_xor x k) k ≡ x
xor_twice x k hx hk =
    let row = passes_lem (λ k. passes (undone k) 256) 256 k hk xor_table in
    (eqb_iff _ x).0 (passes_lem (undone k) 256 x hx row)

abbrev pub IsBytes : Bytes → Type 0
IsBytes = All (λ b. b < 256)

get_or-lt : (key : Bytes) (i : ℕ) → IsBytes key → get_or key i 0 < 256
get_or-lt [] i h = omega arith
get_or-lt (x ∷ xs) zero (h, hs) = h
get_or-lt (x ∷ xs) (suc i) (h, hs) = get_or-lt xs i hs

pub xor_from_twice :
    (key : Bytes) (i : ℕ) (bs : Bytes)
    → IsBytes key
    → IsBytes bs
    → xor_from key i (xor_from key i bs) ≡ bs
unfolding xor_from
xor_from_twice key i [] k h = refl
xor_from_twice key i (b ∷ bs) k (h, hs) = rw (
  xor_twice b (get_or key (i % 4) 0) h (get_or-lt key (i % 4) k),
  xor_from_twice key (i + 1) bs k hs,
)

pub length-xor_from : (key : Bytes) (i : ℕ) (bs : Bytes) → length (xor_from key i bs) ≡ length bs
unfolding xor_from
length-xor_from key i [] = refl
length-xor_from key i (b ∷ bs) = ap suc (length-xor_from key (i + 1) bs)

take_full-append : (bs rest : Bytes) → take_full (length bs) (bs ++ rest) ≡ some (bs, rest)
unfolding take_full
take_full-append [] rest = refl
take_full-append (b ∷ bs) rest = rw (take_full-append bs rest)

-- Reading as many bytes as were written gives them back.
pub read_full-append :
    (n : ℕ) (bs rest : Bytes) → length bs ≡ n → read_full n (bs ++ rest) ≡ ok (bs, rest)
unfolding read_full
read_full-append n bs rest e = rw (← e, take_full-append bs rest, read_full)

pub join-big_endian_2 : (n : ℕ) → n < 2 ^ 16 → join_bytes 0 (big_endian 2 n) ≡ n
unfolding join_bytes big_endian
join-big_endian_2 n h = omega arith

pub join-big_endian_8 : (n : ℕ) → n < 2 ^ 64 → join_bytes 0 (big_endian 8 n) ≡ n
unfolding join_bytes big_endian
join-big_endian_8 n h = omega arith
