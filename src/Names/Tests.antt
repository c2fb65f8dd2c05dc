-- ===== src/Names/Tests.antt =====
-- internal/util/names.go on examples.
use traefik_connect.Common.{◌≡◌, refl, Unicode, false, to_lower, trim_space, is_letter, is_digit}
use traefik_connect.Names.{sanitize_name, sanitize_runes}
use traefik_connect.Names.Sanitize.{IsName, sanitize_name-IsName}

-- Only the characters of ASCII are letters or digits.
abbrev pub ascii : Unicode
ascii = record { lower = λ c. c; fold = λ c. c; letter = λ c. false; digit = λ c. false }

sanitized : sanitize_name ascii " _My Web--App. " ≡ "my-web-app"
unfolding sanitize_name sanitize_runes trim_space to_lower is_letter is_digit
sanitized = refl

sanitize_name-IsName_example : IsName ascii (sanitize_name ascii " _My Web--App. ")
sanitize_name-IsName_example = sanitize_name-IsName ascii " _My Web--App. "
