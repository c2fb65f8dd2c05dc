-- ===== src/Config/Flags.antt =====
-- Go's package flag, as internal/config/config.go uses it: FlagSet.Parse for flags that take a value.
use Prim.Native.String.{◌++◌}
use traefik_connect.Common.{
  String, Option, none, some, List, [], ◌∷◌, ◌==◌, if◌then◌else◌, ◌||◌, before, Result, ok, err,
  ◌>>=◌, has_prefix, trim_prefix,
}

-- A flag's name, and what its value sets, or the error of a value that does not parse.
pub record Flag (C : Type 0) : Type 0 where
  pub name : String
  pub set : String → C → Result C

-- What an argument is: the end of the flags, an error, or a flag with its value, if it has one.
pub data Argument : Type 0 where
  ends : Argument
  malformed : String → Argument
  flagged : String → Option String → Argument

abbrev split_value : String → String → Argument
split_value name value =
    if name == value
    then flagged name none
    else flagged name (some (trim_prefix (trim_prefix value name) "="))

-- A flag without its dashes: `name` or `name=value`.
abbrev named : String → String → Argument
named whole String.[] = malformed ("bad flag syntax: " ++ whole)
named whole (String.◌∷◌ c t) =
    let s = String.◌∷◌ c t in
    if has_prefix s "-" || has_prefix s "="
    then malformed ("bad flag syntax: " ++ whole)
    else split_value (before b'=' s) s

unfoldable pub read_argument : String → Argument
read_argument s =
    if s == "-"
    then ends
    else if s == "--"
    then ends
    else if has_prefix s "--"
    then named s (trim_prefix s "--")
    else if has_prefix s "-"
    then named s (trim_prefix s "-")
    else ends

abbrev pub not_defined : String → String
not_defined name =
    if name == "help" || name == "h"
    then "flag: help requested"
    else "flag provided but not defined: -" ++ name

abbrev failed_as : {C : Type 0} → String → Result C → Result C
failed_as name (ok c) = ok c
failed_as name (err e) = err ("invalid value for flag -" ++ (name ++ (": " ++ e)))

module _ {C : Type 0} where
  unfoldable pub find_flag : List (Flag C) → String → Option (Flag C)
  find_flag [] name = none
  find_flag (f ∷ flags) name = if f.name == name then some f else find_flag flags name

  -- f.Value.Set
  abbrev pub apply_flag : Flag C → C → String → Result C
  apply_flag f c value = failed_as f.name (f.set value c)

  -- What is done with one argument: `value_next` for a flag whose value is the next argument, and
  -- `go_on` behind a flag with its value.
  abbrev by_flag :
      Option (Flag C) → String → Option String → C → (Flag C → Result C) → (C → Result C) → Result C
  by_flag none name value c value_next go_on = err (not_defined name)
  by_flag (some f) name (some value) c value_next go_on = apply_flag f c value >>= go_on
  by_flag (some f) name none c value_next go_on = value_next f

  abbrev by_argument :
      List (Flag C) → Argument → C → (Flag C → Result C) → (C → Result C) → Result C
  by_argument flags ends c value_next go_on = ok c
  by_argument flags (malformed e) c value_next go_on = err e
  by_argument flags (flagged name value) c value_next go_on =
      by_flag (find_flag flags name) name value c value_next go_on

  -- FlagSet.Parse
  unfoldable pub parse_flags : List (Flag C) → List String → C → Result C
  parse_flags flags [] c = ok c
  parse_flags flags (arg ∷ []) c =
      by_argument flags (read_argument arg) c (λ f. err ("flag needs an argument: -" ++ f.name))
        (λ c. ok c)
  parse_flags flags (arg ∷ value ∷ rest) c =
      by_argument flags (read_argument arg) c (λ f. apply_flag f c value >>= parse_flags flags rest)
        (parse_flags flags (value ∷ rest))
