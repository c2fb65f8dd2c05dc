-- ===== src/Api/Tests.antt =====
-- A signed request.
use traefik_connect.Common.{
  ◌≡◌, ◌⊎◌, max_int64, next_int64, refl, ok, [], ◌∷◌, pos, trim_space, has_prefix, trim_prefix,
}
use traefik_connect.Websocket.{Bytes}
use traefik_connect.Api.{
  Request, Crypto, sign_body, check_body, check_time, read_limited, validate_request,
  outside_window,
}
use traefik_connect.Api.Laws.{IsSigned, validate_request-IsSigned}

-- A digest that is the key, and times that are all 7.
abbrev pub toy_crypto : Crypto
toy_crypto = record {
  hmac_hex = λ key stamp body. key;
  parse_time = λ s. ok 7;
  format_time = λ t. "7";
}

abbrev pub signed_request : Request
signed_request = record {
  method = "POST";
  authorization = "Bearer secret";
  timestamp = "7";
  signature = "secret";
  body = ok (123 ∷ 125 ∷ []);
}

validated :
    validate_request toy_crypto signed_request "secret" (pos 5) (pos 10) 9 ≡ ok (123 ∷ 125 ∷ [], 7)
unfolding next_int64 validate_request check_time check_body read_limited sign_body outside_window
    trim_space has_prefix trim_prefix
validated = refl

validate_request-IsSigned_example :
    IsSigned toy_crypto signed_request "secret" (pos 5) (pos 10) 9 (123 ∷ 125 ∷ []) 7
    × ((signed_request.body ≡ ok (123 ∷ 125 ∷ []))
        ⊎ ((pos 10 ≡ pos max_int64) × (◌≡◌ {A = Bytes} (123 ∷ 125 ∷ []) [])))
validate_request-IsSigned_example =
    validate_request-IsSigned toy_crypto signed_request "secret" (pos 5) (pos 10) 9 (123 ∷ 125 ∷ [])
      7 validated

-- With the largest limit no body is read, and the signature is tested against the empty body.
unread :
    validate_request toy_crypto
      (record signed_request { body = ok (123 ∷ 125 ∷ []) })
      "secret"
      (pos 5)
      (pos max_int64)
      9
    ≡ ok ([], 7)
unfolding next_int64 validate_request check_time check_body read_limited sign_body outside_window
    trim_space has_prefix trim_prefix
unread = refl
