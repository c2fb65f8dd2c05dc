-- ===== src/Parse/Values.antt =====
-- internal/parse/labels.go: IsEnabled, relevantLabels, collectNames, csv and parseBool.
pub mod Csv
pub mod Tests
use Prim.Native.String.{◌++◌ as text_append}
use traefik_connect.Common.{
  String, Bool, true, false, ◌||◌, Option, none, some, List, [], ◌∷◌, ◌==◌, if◌then◌else◌, Dict,
  lookup, any, keep_if, Unicode, to_lower, trim_space, trim_prefix, has_prefix, before, split,
  sort_texts,
}

abbrev pub managed_label : String
managed_label = "traefik-connect.managed"

abbrev pub opt_in_primary : String
opt_in_primary = "traefik-connect.enable"

abbrev pub opt_in_fallback : String
opt_in_fallback = "traefik.enable"

pub record OptInDecision : Type 0 where
  pub enabled : Bool
  pub reason : String

abbrev pub one_of : String → List String → Bool
one_of s words = any (λ w. s == w) words

module _ (u : Unicode) where
  unfoldable pub parse_bool : String → Bool → Bool
  unfolding trim_space to_lower
  parse_bool v default =
      let word = to_lower u (trim_space v) in
      if one_of word ("1" ∷ "t" ∷ "true" ∷ "yes" ∷ "y" ∷ "on" ∷ [])
      then true
      else if one_of word ("0" ∷ "f" ∷ "false" ∷ "no" ∷ "n" ∷ "off" ∷ [])
      then false
      else default

  unfoldable pub decide : String → String → OptInDecision
  decide label v =
      if parse_bool v false
      then record { enabled = true; reason = text_append label "=true" }
      else record { enabled = false; reason = text_append label "=false" }

  abbrev pub is_enabled_by : Option String → Option String → OptInDecision
  is_enabled_by (some v) fallback = decide opt_in_primary v
  is_enabled_by none (some v) = decide opt_in_fallback v
  is_enabled_by none none = record { enabled = false; reason = "no opt-in label" }

  unfoldable pub is_enabled : Dict String → OptInDecision
  is_enabled labels = is_enabled_by (lookup opt_in_primary labels) (lookup opt_in_fallback labels)

unfoldable pub relevant_labels : Dict String → Dict String
relevant_labels labels =
    keep_if (λ kv. has_prefix kv.0 "traefik." || has_prefix kv.0 "traefik-connect.") labels

-- The names that the loop of collectNames adds to `seen`.
unfoldable pub seen_names : String → Dict String → List String → List String
seen_names prefix [] seen = seen
seen_names prefix ((k, v) ∷ labels) seen =
    let name = before b'.' (trim_prefix k prefix) in
    let added = if name == "" then seen else if one_of name seen then seen else name ∷ seen in
    seen_names prefix labels (if has_prefix k prefix then added else seen)

unfoldable pub collect_names : Dict String → String → List String
collect_names labels prefix = sort_texts (seen_names prefix labels [])

-- The trimmed items that are not empty.
pub keep_items : List String → List String
keep_items [] = []
keep_items (item ∷ items) =
    let rest = keep_items items in let s = trim_space item in if s == "" then rest else s ∷ rest

pub csv : String → List String
csv v = keep_items (split b',' v)
