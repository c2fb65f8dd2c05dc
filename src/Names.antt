-- ===== src/Names.antt =====
-- internal/util/names.go
pub mod Sanitize
pub mod Tests
use traefik_connect.Common.{
  String, Char, code, Bool, true, false, ◌||◌, ◌==◌, if◌then◌else◌, eqb, Unicode, to_lower,
  is_letter, is_digit, trim_left, trim_right, trim_space, List, [], ◌∷◌, ltb,
}
use Prim.Native.String.{len, slice}

abbrev pub dash : Char
dash = "-"

abbrev pub is_dash : Char → Bool
is_dash c = eqb (code c) b'-'

abbrev pub or_unnamed : String → String
or_unnamed s = if s == "" then "unnamed" else s

module _ (u : Unicode) where
  abbrev pub is_word : Char → Bool
  is_word c = is_letter u c || is_digit u c

  -- What the loop of SanitizeName writes from here on. The cases '-', '_' and '.' of its switch do
  -- what the default does.
  unfoldable pub sanitize_runes : String → Bool → String
  sanitize_runes String.[] last_dash = ""
  sanitize_runes (String.◌∷◌ r s) last_dash =
      let word = String.◌∷◌ r (sanitize_runes s false) in
      let skipped = sanitize_runes s last_dash in
      let dashed = String.◌∷◌ dash (sanitize_runes s true) in
      if is_word r then word else if last_dash then skipped else dashed

  unfoldable pub sanitize_name : String → String
  sanitize_name s =
      let t = trim_space (to_lower u s) in
      if t == ""
      then "unnamed"
      else or_unnamed (trim_right is_dash (trim_left is_dash (sanitize_runes t false)))

-- ShortHash, over the hexadecimal SHA-1 of its parts, each followed by a zero byte.
unfoldable pub short_hash : (List String → String) → List String → String
short_hash sha1_hex parts =
    let sum = sha1_hex parts in if ltb 12 (len sum) then slice sum 0 12 else sum
