-- ===== src/Worker/Sync/Accepted.antt =====
-- internal/worker/agent.go, internal/api/api.go and internal/receiver/server.go: what the agent posts
-- reaches the master's store.
use Prim.Native.String.{◌++◌}
use traefik_connect.Common.{
  String, true, false, ◌≡◌, ◌≢◌, refl, ok, length, trim_space, has_prefix-append,
  trim_prefix-append, ==-true, ==-false, ℤ, pos, max_int64,
}
use traefik_connect.Model.{Instant, Snapshot}
use traefik_connect.Config.{AgentConfig}
use traefik_connect.Websocket.{Bytes}
use traefik_connect.Api.{Crypto, sign_body, is_outside, is_bearer, validate_request}
use traefik_connect.Api.Laws.{Fits, IsAllowed-validate_request}
use traefik_connect.Receiver.Store.{Store, upsert}
use traefik_connect.Receiver.Server.{ServerSettings, Clock, reply_upserted, handle_snapshot}
use traefik_connect.Receiver.Server.Laws.{handle_snapshot-allowed}
use traefik_connect.Worker.Sync.{signed_post}

-- What Go's library writes for a time and for a signature: the time in RFC 3339 is parsed back, and
-- neither it nor the digest in hexadecimal is blank or has a space at an end.
pub record WritesPlainly (crypto : Crypto) (token : String) (t : Instant) (body : Bytes)
    : Type 0 where
  pub parsed_back : crypto.parse_time (crypto.format_time t) ≡ ok t
  pub time_plain : trim_space (crypto.format_time t) ≡ crypto.format_time t
  pub time_written : crypto.format_time t ≢ ""
  pub digest_plain : trim_space (sign_body crypto token t body) ≡ sign_body crypto token t body
  pub digest_written : sign_body crypto token t body ≢ ""

is_bearer_lem :
    (token : String) → trim_space token ≡ token → is_bearer token ("Bearer " ++ token) ≡ true
is_bearer_lem token plain =
    rw (has_prefix-append "Bearer " token, trim_prefix-append "Bearer " token, plain)
      (==-true token token refl)

module _ (cfg : AgentConfig) (crypto : Crypto) (snap : Snapshot) (body : Bytes)
    (plain : WritesPlainly crypto cfg.token snap.captured_at body) where
  -- What the agent signs, a server with the same token accepts, in time and within the limit.
  signed_post-validate_request :
      (window max_bytes : ℤ) (now : Instant)
      → cfg.token ≢ ""
      → trim_space cfg.token ≡ cfg.token
      → is_outside window now snap.captured_at ≡ false
      → Fits max_bytes (length body)
      → max_bytes ≢ pos max_int64
      → validate_request crypto
          (signed_post cfg crypto snap body).request
          cfg.token
          window
          max_bytes
          now
        ≡ ok (body, snap.captured_at)
  unfolding signed_post
  signed_post-validate_request window max_bytes now set trimmed inside fits below =
      let ts = snap.captured_at in
      IsAllowed-validate_request crypto (signed_post cfg crypto snap body).request cfg.token window
        max_bytes now body ts
        (record {
          is_signed = record {
            configured = ==-false cfg.token "" set;
            bearer = is_bearer_lem cfg.token trimmed;
            timed = rw plain.time_plain plain.parsed_back;
            inside = inside;
            size = fits;
            signed = rw plain.digest_plain (==-true _ _ refl);
          };
          whole = refl;
        })
        below (rw plain.time_plain (==-false _ _ plain.time_written))
        (rw plain.digest_plain (==-false _ _ plain.digest_written))

  -- A snapshot that the agent posts is handed to the Upsert of a master with the same token and digest,
  -- whole, where the token is not empty and has no space at its ends, the snapshot arrives within the
  -- window and the limit, the limit is not the largest int64, the master decodes what the agent encoded,
  -- the time that is written is parsed back, and neither it nor the digest is blank or has a space at
  -- its ends.
  pub signed_post-handle_snapshot :
      {W : Type 0} (settings : ServerSettings W) (clock : Clock) (s : Store W)
      → settings.crypto ≡ crypto
      → settings.token ≡ cfg.token
      → settings.decode body ≡ ok snap
      → cfg.token ≢ ""
      → trim_space cfg.token ≡ cfg.token
      → is_outside settings.window clock.validated snap.captured_at ≡ false
      → Fits settings.max_body_bytes (length body)
      → settings.max_body_bytes ≢ pos max_int64
      → handle_snapshot settings clock (signed_post cfg crypto snap body).request s
        ≡ reply_upserted settings (upsert settings.store clock.stored clock.reconciled snap s)
  unfolding signed_post
  signed_post-handle_snapshot settings clock s same token decoded set trimmed inside fits below =
      handle_snapshot-allowed settings clock s (signed_post cfg crypto snap body).request body snap
        refl
        (rw (same, token)
          (signed_post-validate_request settings.window settings.max_body_bytes clock.validated set
            trimmed inside fits below))
        decoded
