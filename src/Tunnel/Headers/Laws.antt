-- ===== src/Tunnel/Headers/Laws.antt =====
-- Which headers a filter lets through.
use traefik_connect.Common.{
  String, ◌≡◌, refl, ap, ◌∙◌, Bool, true, false, not, ◌&&◌, none, List, [], ◌∷◌, ◌++◌, ◌==◌,
  if◌then◌else◌, lookup, insert, lookup-insert, any, Unicode, to_lower, arith, eq_iff, Bool-cases,
  inl, inr, ◌⊎◌,
}
use traefik_connect.Tunnel.Headers.{
  Header, hop_by_hop_names, values_of, is_hop_by_hop, is_internal, add_values, add_kept,
  sanitize_headers, sanitize_response_headers,
}

module _ (u : Unicode) (canonical : String → String) where
  -- Keys with one canonical form differ by case alone.
  abbrev pub KeepsLetters : Type 0
  KeepsLetters = (a b : String) → canonical a ≡ canonical b → to_lower u a ≡ to_lower u b

  add_values-other :
      (j k : String) (vs : List String) (out : Header)
      → (canonical k == canonical j) ≡ false
      → lookup (canonical j) (add_values u canonical k vs out) ≡ lookup (canonical j) out
  unfolding add_values
  add_values-other j k [] out ne = refl
  add_values-other j k (v ∷ vs) out ne =
      let values = values_of (lookup (canonical k) out) ++ v ∷ [] in
      add_values-other j k vs (insert (canonical k) values out) ne
      ∙ (lookup-insert (canonical k) (canonical j) values out ∙ rw ne refl)

  -- A key that is skipped in each of its spellings is not in what is kept.
  add_kept-skipped :
      (skip : String → Bool) (j : String) (header out : Header)
      → ((k : String) → canonical k ≡ canonical j → skip k ≡ true)
      → lookup (canonical j) out ≡ none
      → lookup (canonical j) (add_kept u canonical skip header out) ≡ none
  unfolding add_kept
  add_kept-skipped skip j [] out all h = h
  add_kept-skipped skip j ((k, vs) ∷ header) out all h = elim (Bool-cases (skip k)) [
    | inl e ↦ rw e (add_kept-skipped skip j header out all h)
    | inr e ↦ elim (Bool-cases (canonical k == canonical j)) [
      | inl f ↦ cc (all k ((eq_iff (canonical k) (canonical j)).0 f), e)
      | inr f ↦ rw e (
          add_kept-skipped skip j header (add_values u canonical k vs out) all
            (add_values-other j k vs out f ∙ h))
    ]
  ]

  is_hop_by_hop_same :
      (k j : String)
      → KeepsLetters
      → canonical k ≡ canonical j
      → is_hop_by_hop u canonical k ≡ is_hop_by_hop u canonical j
  unfolding is_hop_by_hop
  is_hop_by_hop_same k j same e = ap (λ t. any (λ name. name == t) hop_by_hop_names) (same k j e)

  is_internal_same :
      (internal : List String) (k j : String)
      → canonical k ≡ canonical j
      → is_internal u canonical internal k ≡ is_internal u canonical internal j
  unfolding is_internal
  is_internal_same internal k j e = ap (λ t. any (λ name. canonical name == t) internal) e

  empty_none : (j : String) → lookup {V = List String} (canonical j) [] ≡ none
  unfolding lookup
  empty_none j = refl

  -- The worker's filter drops every hop-by-hop header of a backend's response, in whatever case it is
  -- spelled.
  pub sanitize_response_headers-lookup :
      (header : Header) (j : String)
      → KeepsLetters
      → is_hop_by_hop u canonical j ≡ true
      → lookup (canonical j) (sanitize_response_headers u canonical header) ≡ none
  unfolding sanitize_response_headers
  sanitize_response_headers-lookup header j same hop =
      add_kept-skipped (is_hop_by_hop u canonical) j header []
        (λ k e. is_hop_by_hop_same k j same e ∙ hop) (empty_none j)

  -- The stub's filter drops the program's own headers from a client's request, also when it upgrades
  -- the connection, and the hop-by-hop headers when it does not.
  pub sanitize_headers-lookup :
      (internal : List String) (header : Header) (upgrade : Bool) (j : String)
      → KeepsLetters
      → (is_internal u canonical internal j ≡ true)
        ⊎ ((upgrade ≡ false) × (is_hop_by_hop u canonical j ≡ true))
      → lookup (canonical j) (sanitize_headers u canonical internal header upgrade) ≡ none
  unfolding sanitize_headers
  sanitize_headers-lookup internal header upgrade j same (inl own) =
      add_kept-skipped
        (λ k.
          if is_internal u canonical internal k
          then true
          else not upgrade && is_hop_by_hop u canonical k)
        j header [] (λ k e. rw (is_internal_same internal k j e ∙ own) refl) (empty_none j)
  sanitize_headers-lookup internal header upgrade j same (inr (off, hop)) =
      add_kept-skipped
        (λ k.
          if is_internal u canonical internal k
          then true
          else not upgrade && is_hop_by_hop u canonical k)
        j header [] (λ k e. ground (arith, off, is_hop_by_hop_same k j same e, hop)) (empty_none j)
