-- ===== src/Parse/Values/Tests.antt =====
-- A list on an example.
use traefik_connect.Common.{◌≡◌, refl, [], ◌∷◌, trim_space, split}
use traefik_connect.Parse.Values.{csv, keep_items}

listed : csv " web,, websecure " ≡ "web" ∷ "websecure" ∷ []
unfolding csv keep_items trim_space split
listed = refl
