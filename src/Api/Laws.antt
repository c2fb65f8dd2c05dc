-- ===== src/Api/Laws.antt =====
-- What a request has to have to be validated, and that a signed one has it.
use traefik_connect.Common.{
  ℕ, zero, suc, ◌≤◌, String, ◌≡◌, refl, sym, ap, ◌∙◌, true, false, [], ◌∷◌, ◌==◌, Result, ok, err,
  >>=-eq-ok, ok-injective, ℤ, pos, negsuc, eqb, eqb_iff, max_int64, next_int64, ◌≢◌, ◌⊎◌, length,
  take, trim_space, arith, Bool-cases, inl, inr,
}
use traefik_connect.Model.{Instant}
use traefik_connect.Websocket.{Bytes}
use traefik_connect.Api.{
  Request, Crypto, read_limited, is_outside, sign_body, check_body, check_time, parsed_time,
  is_bearer, validate_request, is_above,
}

-- The limit is above the length, so that nothing is cut off.
take_all : (n : ℕ) (bs : Bytes) → length (take (suc n) bs) ≤ n → take (suc n) bs ≡ bs
take_all n [] h = refl
take_all zero (b ∷ bs) h = absurd (omega arith)
take_all (suc n) (b ∷ bs) h = ap (λ r. b ∷ r) (take_all n bs (omega arith))

take_short : (n : ℕ) (bs : Bytes) → length bs ≤ n → take (suc n) bs ≡ bs
take_short n [] h = refl
take_short zero (b ∷ bs) h = absurd (omega arith)
take_short (suc n) (b ∷ bs) h = ap (λ r. b ∷ r) (take_short n bs (omega arith))

read_limited-ok :
    (n : ℕ) (r : Result Bytes) (body : Bytes)
    → read_limited (pos (suc n)) r ≡ ok body
    → length body ≤ n
    → r ≡ ok body
unfolding read_limited
read_limited-ok n (err e) body h fits = cc
read_limited-ok n (ok bs) body h fits =
    let same = ok-injective h in ap ok (sym (take_all n bs (rw (← same) at fits)) ∙ same)

-- A length within a limit; nothing is within a negative one.
abbrev pub Fits : ℤ → ℕ → Type 0
Fits (pos limit) n = n ≤ limit
Fits (negsuc m) n = ⊥

not_above : (limit : ℤ) (n : ℕ) → is_above limit n ≡ false → Fits limit n
not_above (pos limit) n h = ground arith
not_above (negsuc m) n h = cc

Fits-above : (limit : ℤ) (n : ℕ) → Fits limit n → is_above limit n ≡ false
Fits-above (pos limit) n h = ground arith
Fits-above (negsuc m) n h = absurd h

-- What is read with a limit of one byte more than fits is everything, unless that limit wraps around.
read_limited-next_int64 :
    (limit : ℤ) (r : Result Bytes) (body : Bytes)
    → read_limited (next_int64 limit) r ≡ ok body
    → Fits limit (length body)
    → (r ≡ ok body) ⊎ ((limit ≡ pos max_int64) × (body ≡ []))
unfolding next_int64 read_limited
read_limited-next_int64 (negsuc m) r body h fits = absurd fits
read_limited-next_int64 (pos n) r body h fits = elim (Bool-cases (eqb n max_int64)) [
  | inl e ↦ inr (ap pos ((eqb_iff n max_int64).0 e), sym (ok-injective (rw e at h)))
  | inr e ↦ inl (read_limited-ok n r body (rw e at h) fits)
]

read_limited-whole :
    (limit : ℤ) (body : Bytes)
    → limit ≢ pos max_int64
    → Fits limit (length body)
    → read_limited (next_int64 limit) (ok body) ≡ ok body
unfolding next_int64 read_limited
read_limited-whole (negsuc m) body ne fits = absurd fits
read_limited-whole (pos n) body ne fits = elim (Bool-cases (eqb n max_int64)) [
  | inl e ↦ absurd (ne (ap pos ((eqb_iff n max_int64).0 e)))
  | inr e ↦ rw (e, take_short n body fits) refl
]

-- The request has the bearer's token, a time within the window, and a signature of the body at that
-- time.
pub record IsSigned (crypto : Crypto) (r : Request) (token : String) (window max_bytes : ℤ)
    (now : Instant) (body : Bytes) (ts : Instant) : Type 0 where
  pub configured : (token == "") ≡ false
  pub bearer : is_bearer token r.authorization ≡ true
  pub timed : crypto.parse_time (trim_space r.timestamp) ≡ ok ts
  pub inside : is_outside window now ts ≡ false
  pub size : Fits max_bytes (length body)
  pub signed : (trim_space r.signature == sign_body crypto token ts body) ≡ true

-- And the body is all that the request has.
pub record IsAllowed (crypto : Crypto) (r : Request) (token : String) (window max_bytes : ℤ)
    (now : Instant) (body : Bytes) (ts : Instant) : Type 0 where
  pub is_signed : IsSigned crypto r token window max_bytes now body ts
  pub whole : r.body ≡ ok body

module _ (crypto : Crypto) where
  check_body-ok :
      (token signature : String) (ts : Instant) (n : ℤ) (read body : Bytes) (t : Instant)
      → check_body crypto token signature ts n read ≡ ok (body, t)
      → (read ≡ body)
        × (ts ≡ t)
        × Fits n (length read)
        × ((trim_space signature == sign_body crypto token ts read) ≡ true)
  unfolding check_body
  check_body-ok token signature ts n read body t h = elim (Bool-cases (is_above n (length read))) [
    | inl e ↦ cc (rw e at h)
    | inr e₁ ↦ elim (Bool-cases (trim_space signature == "")) [
      | inl e ↦ ground (arith, e₁, e, h)
      | inr e₂ ↦ elim (Bool-cases (trim_space signature == sign_body crypto token ts read)) [
        | inl e ↦
            (let same = ok-injective (rw (e₁, e₂, e) at h) in
              (ap (λ p. p.0) same, ap (λ p. p.1) same, not_above n (length read) e₁, e))
        | inr e ↦ ground (arith, e₁, e₂, e, h)
      ]
    ]
  ]

  check_time-ok :
      (token : String) (window n : ℤ) (now : Instant) (r : Request) (ts t : Instant) (body : Bytes)
      → check_time crypto token window n now r ts ≡ ok (body, t)
      → (is_outside window now ts ≡ false)
        × (ts ≡ t)
        × ((r.body ≡ ok body) ⊎ ((n ≡ pos max_int64) × (body ≡ [])))
        × Fits n (length body)
        × ((trim_space r.signature == sign_body crypto token t body) ≡ true)
  unfolding check_time
  check_time-ok token window n now r ts t body h = elim (Bool-cases (is_outside window now ts)) [
    | inl e ↦ ground (arith, e, h)
    | inr e ↦
        (let (read, limited, checked) =
            >>=-eq-ok (read_limited (next_int64 n) r.body)
              (check_body crypto token r.signature ts n) {b = (body, t)} (rw e at h) in
          let (same, same_time, fits, signed) =
            check_body-ok token r.signature ts n read body t checked in
          (
            e,
            same_time,
            rw same at (read_limited-next_int64 n r.body read limited fits),
            rw same at fits,
            rw (same, same_time) at signed,
          ))
  ]

  parsed_time-ok : (p : Result Instant) (ts : Instant) → parsed_time p ≡ ok ts → p ≡ ok ts
  parsed_time-ok (ok t) ts h = h
  parsed_time-ok (err e) ts h = cc

  -- A request that ValidateRequest accepts is signed: the token is set and is the bearer's, the timestamp
  -- parses and lies within the window, and the body returned is no longer than the limit and signed
  -- together with that timestamp; and that body is the whole body of the request, or the limit is the
  -- largest int64, for which it is empty.
  pub validate_request-IsSigned :
      (r : Request) (token : String) (window n : ℤ) (now : Instant) (body : Bytes) (ts : Instant)
      → validate_request crypto r token window n now ≡ ok (body, ts)
      → IsSigned crypto r token window n now body ts
        × ((r.body ≡ ok body) ⊎ ((n ≡ pos max_int64) × (body ≡ [])))
  unfolding validate_request
  validate_request-IsSigned r token window n now body ts h = elim (Bool-cases (token == "")) [
    | inl e ↦ ground (arith, e, h)
    | inr e₁ ↦ elim (Bool-cases (is_bearer token r.authorization)) [
      | inr e ↦ ground (arith, e₁, e, h)
      | inl e₂ ↦ elim (Bool-cases (trim_space r.timestamp == "")) [
        | inl e ↦ ground (arith, e₁, e₂, e, h)
        | inr e₃ ↦
            (let (t, parsed, checked) =
                >>=-eq-ok (parsed_time (crypto.parse_time (trim_space r.timestamp)))
                  (check_time crypto token window n now r) {b = (body, ts)}
                  (rw (e₁, e₂, e₃) at h) in
              let (inside, same, whole, size, signed) =
                check_time-ok token window n now r t ts body checked in
              (
                record {
                  configured = e₁;
                  bearer = e₂;
                  timed =
                      parsed_time-ok (crypto.parse_time (trim_space r.timestamp)) ts
                        (rw same at parsed);
                  inside = rw same at inside;
                  size = size;
                  signed = signed;
                },
                whole,
              ))
      ]
    ]
  ]

  -- And an allowed request whose timestamp and signature are not blank is accepted, with its body
  -- and its time, where the limit is not the largest int64.
  pub IsAllowed-validate_request :
      (r : Request) (token : String) (window n : ℤ) (now : Instant) (body : Bytes) (ts : Instant)
      → IsAllowed crypto r token window n now body ts
      → n ≢ pos max_int64
      → (trim_space r.timestamp == "") ≡ false
      → (trim_space r.signature == "") ≡ false
      → validate_request crypto r token window n now ≡ ok (body, ts)
  unfolding validate_request check_time check_body
  IsAllowed-validate_request r token window n now body ts a ne stamped some_signature =
      let s = a.is_signed in
      rw
        (
          s.configured,
          s.bearer,
          stamped,
          s.timed,
          s.inside,
          a.whole,
          read_limited-whole n body ne s.size,
          Fits-above n (length body) s.size,
          some_signature,
          s.signed,
        )
        refl
