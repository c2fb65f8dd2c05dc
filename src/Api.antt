-- ===== src/Api.antt =====
-- internal/api/api.go: SignBody and ValidateRequest.
pub mod Laws
pub mod Tests
use Prim.Native.String.{◌++◌}
use traefik_connect.Common.{
  ℕ, zero, suc, ◌+◌, String, next_int64, [], true, Bool, false, not, ◌&&◌, ◌||◌, ◌==◌,
  if◌then◌else◌, Result, ok, err, ◌>>=◌, ltb, ℤ, pos, negsuc, length, take, has_prefix, trim_prefix,
  trim_space,
}
use traefik_connect.Model.{Instant}
use traefik_connect.Websocket.{Bytes}

-- The parts of a request that ValidateRequest reads; a header that is missing is the empty text, and
-- `body` is what the body's reader yields until its end, or its error.
pub record Request : Type 0 where
  pub method : String
  pub authorization : String
  pub timestamp : String
  pub signature : String
  pub body : Result Bytes

-- The calls of Go's library: HMAC with SHA-256 in hexadecimal, of a key and a message given by its
-- written parts, and time.Parse and Format of RFC 3339 times.
pub record Crypto : Type 0 where
  pub hmac_hex : String → String → Bytes → String
  pub parse_time : String → Result Instant
  pub format_time : Instant → String

-- io.ReadAll of io.LimitReader, which does not read at all where its limit is 0 or less; an error of
-- the reader beyond the limit is not reached, and is left out.
unfoldable pub read_limited : ℤ → Result Bytes → Result Bytes
read_limited (negsuc n) r = ok []
read_limited (pos zero) r = ok []
read_limited (pos (suc n)) (err e) = err e
read_limited (pos (suc n)) (ok bs) = ok (take (suc n) bs)

-- int64(n) > limit, for a length
abbrev pub is_above : ℤ → ℕ → Bool
is_above (pos limit) n = ltb limit n
is_above (negsuc m) n = true

-- ts.Before(now - window) || ts.After(now + window), on times after Go's zero time by the window at
-- least
unfoldable pub outside_window : Instant → Instant → ℕ → Bool
outside_window now ts window = ltb (ts + window) now || ltb (now + window) ts

abbrev pub is_outside : ℤ → Instant → Instant → Bool
is_outside (negsuc n) now ts = false
is_outside (pos n) now ts = ltb 0 n && outside_window now ts n

abbrev pub parsed_time : Result Instant → Result Instant
parsed_time (ok ts) = ok ts
parsed_time (err e) = err ("invalid timestamp: " ++ e)

abbrev pub is_bearer : String → String → Bool
is_bearer token auth = has_prefix auth "Bearer " && trim_space (trim_prefix auth "Bearer ") == token

module _ (crypto : Crypto) where
  unfoldable pub sign_body : String → Instant → Bytes → String
  sign_body token ts body = crypto.hmac_hex token (crypto.format_time ts ++ "\n") body

  -- The last part of ValidateRequest, for the body that was read.
  pub check_body : String → String → Instant → ℤ → Bytes → Result (Bytes × Instant)
  check_body token signature ts max_bytes body =
      let sig = trim_space signature in
      if is_above max_bytes (length body)
      then err "request body too large"
      else if sig == ""
      then err "missing signature"
      else if not (sig == sign_body token ts body)
      then err "invalid signature"
      else ok (body, ts)

  pub check_time : String → ℤ → ℤ → Instant → Request → Instant → Result (Bytes × Instant)
  check_time token window max_bytes now r ts =
      let read =
        read_limited (next_int64 max_bytes) r.body >>= check_body token r.signature ts max_bytes in
      if is_outside window now ts then err "timestamp outside allowed window" else read

  pub validate_request : Request → String → ℤ → ℤ → Instant → Result (Bytes × Instant)
  validate_request r token window max_bytes now =
      let raw = trim_space r.timestamp in
      let timed = parsed_time (crypto.parse_time raw) >>= check_time token window max_bytes now r in
      if token == ""
      then err "server token not configured"
      else if not (is_bearer token r.authorization)
      then err "unauthorized"
      else if raw == ""
      then err "missing timestamp"
      else timed
