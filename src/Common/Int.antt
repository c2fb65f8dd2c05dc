-- ===== src/Common/Int.antt =====
-- Go's `int` and `time.Duration`: signed numbers, with their decimal text.
use Prim.Native.Nat.{ℕ, zero, suc, ◌+◌, ◌-◌, ◌*◌, ◌/◌, ◌%◌, ◌^◌}
use Prim.Native.Char.{code}
use Prim.Native.String.{String, ◌++◌}
use mathlib.Core.Bool.{Bool, true, false, ◌&&◌}
use mathlib.Core.Option.{Option, none, some}
use traefik_connect.Common.Tests.{ltb, leb, eqb, if◌then◌else◌}

-- `negsuc n` is -(n + 1).
pub data ℤ : Type 0 where
  pos : ℕ → ℤ
  negsuc : ℕ → ℤ

-- n <= 0
abbrev pub not_positive : ℤ → Bool
not_positive (pos n) = eqb n 0
not_positive (negsuc n) = true

digit_text : ℕ → String
digit_text n =
    if eqb n 0
    then "0"
    else if eqb n 1
    then "1"
    else if eqb n 2
    then "2"
    else if eqb n 3
    then "3"
    else if eqb n 4
    then "4"
    else if eqb n 5
    then "5"
    else if eqb n 6
    then "6"
    else if eqb n 7
    then "7"
    else if eqb n 8
    then "8"
    else "9"

-- The digits of `n`, before the text `rest`; a fuel of `n` is enough, since `n / 10 < n`.
digits_before : ℕ → ℕ → String → String
digits_before zero n rest = digit_text n ++ rest
digits_before (suc fuel) n rest =
    let more = digits_before fuel (n / 10) (digit_text (n % 10) ++ rest) in
    if ltb n 10 then digit_text n ++ rest else more

-- strconv.Itoa
unfoldable pub itoa : ℤ → String
unfolding digit_text digits_before
itoa (pos n) = digits_before n n ""
itoa (negsuc n) = "-" ++ digits_before (suc n) (suc n) ""

-- The largest int64.
abbrev pub max_int64 : ℕ
max_int64 = 2 ^ 63 - 1

-- n + 1 on int64, which wraps around.
unfoldable pub next_int64 : ℤ → ℤ
next_int64 (pos n) = if eqb n max_int64 then negsuc max_int64 else pos (suc n)
next_int64 (negsuc zero) = pos 0
next_int64 (negsuc (suc n)) = negsuc n

parse_digits : ℕ → String → Option ℕ
parse_digits acc String.[] = some acc
parse_digits acc (String.◌∷◌ c s) =
    let rest = parse_digits (acc * 10 + (code c - b'0')) s in
    if leb b'0' (code c) && leb (code c) b'9' then rest else none

-- One digit at least.
parse_number : String → Option ℕ
parse_number String.[] = none
parse_number (String.◌∷◌ c s) = parse_digits 0 (String.◌∷◌ c s)

signed_positive : Option ℕ → Option ℤ
signed_positive none = none
signed_positive (some n) = if leb n max_int64 then some (pos n) else none

signed_negative : Option ℕ → Option ℤ
signed_negative none = none
signed_negative (some zero) = some (pos 0)
signed_negative (some (suc n)) = if leb n max_int64 then some (negsuc n) else none

-- strconv.Atoi on a 64-bit machine, with `none` for its error: a sign, then decimal digits, in the
-- range of int64.
unfoldable pub atoi : String → Option ℤ
unfolding parse_digits parse_number signed_positive signed_negative
atoi String.[] = none
atoi (String.◌∷◌ c s) =
    if eqb (code c) b'-'
    then signed_negative (parse_number s)
    else if eqb (code c) b'+'
    then signed_positive (parse_number s)
    else signed_positive (parse_number (String.◌∷◌ c s))

-- strconv.FormatBool, and %t
abbrev pub format_bool : Bool → String
format_bool true = "true"
format_bool false = "false"
