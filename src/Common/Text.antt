-- ===== src/Common/Text.antt =====
-- The functions of Go's `strings` and `unicode` that the program calls. A text is valid UTF-8.
use Prim.Native.Nat.{ℕ}
use Prim.Native.Char.{Char, code}
use Prim.Native.String.{String, ◌++◌}
use mathlib.Core.Bool.{Bool, true, false, ◌&&◌, ◌||◌}
use mathlib.Core.Option.{Option, none, some}
use mathlib.Core.List.{List, [], ◌∷◌}
use text.Mathlib.Text.{◌==◌}
use text.Mathlib.TextEquality.{eq_iff}
use text.Mathlib.TextLemmas.{nil-append, cons-append}
use mathlib.Core.Path.{◌≡◌, ap}
use mathlib.Core.Logic.{◌≢◌}
use native.Mathlib.Omega.{arith}
use traefik_connect.Common.Tests.{ltb, leb, eqb, if◌then◌else◌, is_some}

-- What Go's tables say of the characters beyond ASCII, which no source file of the program holds.
pub record Unicode : Type 0 where
  pub lower : Char → Char
  pub fold : Char → Char
  pub letter : Char → Bool
  pub digit : Char → Bool

abbrev within : ℕ → ℕ → ℕ → Bool
within lo hi c = leb lo c && leb c hi

-- unicode.IsSpace
unfoldable pub is_space : Char → Bool
is_space c =
    within 9 13 (code c)
    || eqb (code c) 32
    || eqb (code c) 0x85
    || eqb (code c) 0xa0
    || eqb (code c) 0x1680
    || within 0x2000 0x200a (code c)
    || eqb (code c) 0x2028
    || eqb (code c) 0x2029
    || eqb (code c) 0x202f
    || eqb (code c) 0x205f
    || eqb (code c) 0x3000

-- The character that stands in the second text where `c` stands in the first.
translate : String → String → Char → Char
translate (String.◌∷◌ a from) (String.◌∷◌ b to) c =
    if eqb (code a) (code c) then b else translate from to c
translate _ _ c = c

module _ (u : Unicode) where
  -- unicode.ToLower
  pub to_lower_char : Char → Char
  to_lower_char c =
      if ltb (code c) 128
      then translate "ABCDEFGHIJKLMNOPQRSTUVWXYZ" "abcdefghijklmnopqrstuvwxyz" c
      else u.lower c

  -- A representative of the characters that differ by case only.
  fold_char : Char → Char
  fold_char c =
      if ltb (code c) 128
      then translate "ABCDEFGHIJKLMNOPQRSTUVWXYZ" "abcdefghijklmnopqrstuvwxyz" c
      else u.fold c

  -- strings.ToLower
  unfoldable pub to_lower : String → String
  unfolding translate to_lower_char
  to_lower String.[] = ""
  to_lower (String.◌∷◌ c s) = String.◌∷◌ (to_lower_char c) (to_lower s)

  fold_text : String → String
  fold_text String.[] = ""
  fold_text (String.◌∷◌ c s) = String.◌∷◌ (fold_char c) (fold_text s)

  -- strings.EqualFold
  unfoldable pub equal_fold : String → String → Bool
  unfolding translate fold_char fold_text
  equal_fold s t = fold_text s == fold_text t

  -- unicode.IsLetter, unicode.IsDigit
  unfoldable pub is_letter : Char → Bool
  is_letter c =
      if ltb (code c) 128
      then within b'a' b'z' (code c) || within b'A' b'Z' (code c)
      else u.letter c

  unfoldable pub is_digit : Char → Bool
  is_digit c = if ltb (code c) 128 then within b'0' b'9' (code c) else u.digit c

-- The text without the characters at its left end, and at its right end, that pass the test.
unfoldable pub trim_left : (Char → Bool) → String → String
trim_left p String.[] = ""
trim_left p (String.◌∷◌ c s) = if p c then trim_left p s else String.◌∷◌ c s

abbrev pub cons_trimmed : (Char → Bool) → Char → String → String
cons_trimmed p c String.[] = if p c then "" else String.◌∷◌ c ""
cons_trimmed p c (String.◌∷◌ d s) = String.◌∷◌ c (String.◌∷◌ d s)

unfoldable pub trim_right : (Char → Bool) → String → String
trim_right p String.[] = ""
trim_right p (String.◌∷◌ c s) = cons_trimmed p c (trim_right p s)

-- strings.TrimSpace
unfoldable pub trim_space : String → String
unfolding is_space trim_left trim_right
trim_space s = trim_right is_space (trim_left is_space s)

-- The rest of `s` behind `prefix`, and `none` where `s` does not begin with it.
unfoldable pub after_prefix : String → String → Option String
after_prefix s String.[] = some s
after_prefix String.[] (String.◌∷◌ d prefix) = none
after_prefix (String.◌∷◌ c s) (String.◌∷◌ d prefix) =
    let rest = after_prefix s prefix in if eqb (code c) (code d) then rest else none

pub after_prefix-append : (p x : String) → after_prefix (p ++ x) p ≡ some x
unfolding after_prefix
after_prefix-append String.[] x = ap some (nil-append x)
after_prefix-append (String.◌∷◌ c p) x =
    rw (cons-append c p x) (ground (arith, after_prefix-append p x))

-- strings.HasPrefix
unfoldable pub has_prefix : String → String → Bool
unfolding after_prefix
has_prefix s prefix = is_some (after_prefix s prefix)

-- strings.TrimPrefix
unfoldable pub trim_prefix : String → String → String
unfolding after_prefix
trim_prefix s prefix = elim (after_prefix s prefix) [ none ↦ s | some rest ↦ rest ]

pub has_prefix-append : (p x : String) → has_prefix (p ++ x) p ≡ true
unfolding has_prefix
has_prefix-append p x = ap is_some (after_prefix-append p x)

pub trim_prefix-append : (p x : String) → trim_prefix (p ++ x) p ≡ x
unfolding trim_prefix
trim_prefix-append p x =
    ap (λ o. elim o [ none ↦ p ++ x | some rest ↦ rest ]) (after_prefix-append p x)

-- strings.Contains
unfoldable pub contains : String → String → Bool
unfolding has_prefix
contains String.[] t = has_prefix "" t
contains (String.◌∷◌ c s) t = has_prefix (String.◌∷◌ c s) t || contains s t

unfoldable pub cons_first : Char → List String → List String
cons_first c [] = String.◌∷◌ c "" ∷ []
cons_first c (part ∷ parts) = String.◌∷◌ c part ∷ parts

-- strings.Split at a separator of one character
unfoldable pub split : ℕ → String → List String
unfolding cons_first
split sep String.[] = "" ∷ []
split sep (String.◌∷◌ c s) =
    let rest = split sep s in if eqb (code c) sep then "" ∷ rest else cons_first c rest

-- The text before the first separator: strings.Split(s, sep)[0], strings.SplitN(s, sep, 2)[0]
unfoldable pub before : ℕ → String → String
before sep String.[] = ""
before sep (String.◌∷◌ c s) =
    let rest = String.◌∷◌ c (before sep s) in if eqb (code c) sep then "" else rest

-- strings.Join
unfoldable pub join : List String → String → String
join [] sep = ""
join (s ∷ []) sep = s
join (s ∷ t ∷ rest) sep = s ++ (sep ++ join (t ∷ rest) sep)

-- A test of texts from a fact about them.
pub ==-false : (s t : String) → s ≢ t → (s == t) ≡ false
==-false s t ne = ground (arith, eq_iff s t)

pub ==-true : (s t : String) → s ≡ t → (s == t) ≡ true
==-true s t e = (eq_iff s t).1 e
