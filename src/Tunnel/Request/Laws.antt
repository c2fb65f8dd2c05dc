-- ===== src/Tunnel/Request/Laws.antt =====
-- What the worker's proxy writes to a backend.
use traefik_connect.Common.{
  String, ◌≡◌, sym, Bool, false, not, ◌&&◌, List, [], ◌∷◌, ◌++◌, In, Bool-cases, inl, inr, ◌⊎◌,
  arith, Unicode,
}
use traefik_connect.Tunnel.Headers.{Header, is_hop_by_hop}
use traefik_connect.Tunnel.Request.{
  header_line, value_lines, header_lines, RequestStart, request_line, host_line, length_lines,
  request_lines,
}

In-append : (l : String) (xs ys : List String) → In l (xs ++ ys) → In l xs ⊎ In l ys
In-append l [] ys m = inr m
In-append l (x ∷ xs) ys (inl e) = inl (inl e)
In-append l (x ∷ xs) ys (inr m) = first_or l x xs ys (In-append l xs ys m)
  where
    first_or : (l x : String) (xs ys : List String) → In l xs ⊎ In l ys → In l (x ∷ xs) ⊎ In l ys
    first_or l x xs ys (inl m) = inl (inr m)
    first_or l x xs ys (inr m) = inr m

-- The line is that of a header with a key that is not skipped.
abbrev pub IsKeptLine : (String → Bool) → String → Type 0
IsKeptLine skip l = (k : String) × ((v : String) × ((skip k ≡ false) × (l ≡ header_line k v)))

value_lines-IsKeptLine :
    (skip : String → Bool) (k : String) (vs : List String) (l : String)
    → skip k ≡ false
    → In l (value_lines k vs)
    → IsKeptLine skip l
value_lines-IsKeptLine skip k [] l h m = absurd m
value_lines-IsKeptLine skip k (v ∷ vs) l h (inl e) = (k, (v, (h, sym e)))
value_lines-IsKeptLine skip k (v ∷ vs) l h (inr m) = value_lines-IsKeptLine skip k vs l h m

kept_or :
    (skip : String → Bool) (k : String) (vs : List String) (l : String) (rest : List String)
    → skip k ≡ false
    → (In l rest → IsKeptLine skip l)
    → In l (value_lines k vs) ⊎ In l rest
    → IsKeptLine skip l
kept_or skip k vs l rest e later (inl m) = value_lines-IsKeptLine skip k vs l e m
kept_or skip k vs l rest e later (inr m) = later m

-- Each header line that is written belongs to a key that is not passed over.
header_lines-IsKeptLine :
    (skip : String → Bool) (header : Header) (l : String)
    → In l (header_lines skip header)
    → IsKeptLine skip l
unfolding header_lines
header_lines-IsKeptLine skip [] l m = absurd m
header_lines-IsKeptLine skip ((k, vs) ∷ header) l m = elim (Bool-cases (skip k)) [
  | inl e ↦ header_lines-IsKeptLine skip header l (rw e at m)
  | inr e ↦
      kept_or skip k vs l (header_lines skip header) e
        (λ m. header_lines-IsKeptLine skip header l m)
        (In-append l (value_lines k vs) (header_lines skip header) (rw e at m))
]

module _ (u : Unicode) (canonical : String → String) where
  kept_plain :
      (l : String)
      → IsKeptLine (λ k. is_hop_by_hop u canonical k && not false) l
      → IsKeptLine (is_hop_by_hop u canonical) l
  kept_plain l (k, (v, (h, e))) = (k, (v, (ground (arith, h), e)))

  -- The lines behind the header's: those that give the body's length or coding, and the empty one.
  abbrev pub IsEndLine : RequestStart → Bool → String → Type 0
  IsEndLine start chunked l = In l (length_lines u canonical start chunked ++ "" ∷ [])

  kept_or_end :
      (start : RequestStart) (chunked : Bool) (l : String)
      → In l (header_lines (λ k. is_hop_by_hop u canonical k && not false) start.header)
        ⊎ IsEndLine start chunked l
      → IsKeptLine (is_hop_by_hop u canonical) l ⊎ IsEndLine start chunked l
  kept_or_end start chunked l (inr m) = inr m
  kept_or_end start chunked l (inl m) = inl (
      kept_plain l
        (header_lines-IsKeptLine (λ k. is_hop_by_hop u canonical k && not false) start.header l m))

  -- Of a request that does not upgrade the connection, each line that is written to the backend is
  -- the request line, the Host line, the line of a header that is not hop-by-hop, or one of the lines
  -- that the proxy itself writes for the body's length or coding and for the end of the header.
  pub request_lines_lem :
      (start : RequestStart) (backend : String) (pass_host_header chunked : Bool) (l : String)
      → In l (request_lines u canonical start backend pass_host_header false chunked)
      → ((l ≡ request_line u canonical start) ⊎ (l ≡ host_line start backend pass_host_header))
        ⊎ (IsKeptLine (is_hop_by_hop u canonical) l ⊎ IsEndLine start chunked l)
  unfolding request_lines
  request_lines_lem start backend pass_host_header chunked l (inl e) = inl (inl (sym e))
  request_lines_lem start backend pass_host_header chunked l (inr (inl e)) = inl (inr (sym e))
  request_lines_lem start backend pass_host_header chunked l (inr (inr m)) = inr (
      kept_or_end start chunked l (
        In-append l (header_lines (λ k. is_hop_by_hop u canonical k && not false) start.header)
          (length_lines u canonical start chunked ++ "" ∷ []) m))
