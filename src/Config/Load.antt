-- ===== src/Config/Load.antt =====
-- LoadAgent, LoadReceiver, LoadStub and LoadTestApp of internal/config/config.go.
use traefik_connect.Common.{
  String, List, [], ◌∷◌, ◌==◌, ◌||◌, if◌then◌else◌, Result, ok, err, ◌>>=◌, ℤ, pos, not_positive, ℕ,
  ◌*◌, ◌^◌,
}
use traefik_connect.Config.{
  Environment, getenv, env_or, env_duration, env_int64, hostname_fallback, AgentConfig,
  ReceiverConfig, StubConfig, TestAppConfig,
}
use traefik_connect.Config.Flags.{Flag, parse_flags}

abbrev pub seconds : ℕ → ℤ
seconds n = pos (n * 1000000000)

-- fs.StringVar, and fs.DurationVar and fs.Int64Var.
abbrev text_flag : {C : Type 0} → String → (String → C → C) → Flag C
text_flag name set = record { name = name; set = λ value c. ok (set value c) }

abbrev number_flag : {C : Type 0} → (String → Result ℤ) → String → (ℤ → C → C) → Flag C
number_flag parse name set = record {
  name = name;
  set = λ value c. parse value >>= (λ n. ok (set n c));
}

abbrev pub stub_flags : List (Flag StubConfig)
stub_flags =
    text_flag "listen" (λ v c. record c { listen_addr = v })
    ∷ text_flag "target-url" (λ v c. record c { target_url = v })
    ∷ text_flag "token" (λ v c. record c { token = v })
    ∷ text_flag "container-id" (λ v c. record c { container_id = v })
    ∷ text_flag "service-name" (λ v c. record c { service_name = v })
    ∷ []

unfoldable pub check_agent : AgentConfig → Result AgentConfig
check_agent cfg =
    if cfg.worker_id == "" || (cfg.master_url == "" || cfg.token == "")
    then err "worker-id, master-url, and token are required"
    else ok cfg

unfoldable pub check_receiver : ReceiverConfig → Result ReceiverConfig
check_receiver cfg = if cfg.token == "" then err "token is required" else ok cfg

unfoldable pub check_stub : StubConfig → Result StubConfig
check_stub cfg =
    if cfg.target_url == ""
      || (cfg.token == "" || (cfg.container_id == "" || cfg.service_name == ""))
    then err "target-url, token, container-id, and service-name are required"
    else ok cfg

unfoldable pub check_test_app : TestAppConfig → Result TestAppConfig
check_test_app cfg =
    if cfg.listen_addr == "" || (cfg.name == "" || not_positive cfg.file_size)
    then err "listen, name, and file-size are required"
    else ok cfg

module _ (env : Environment) where
  abbrev pub agent_flags : List (Flag AgentConfig)
  agent_flags =
      text_flag "worker-id" (λ v c. record c { worker_id = v })
      ∷ text_flag "advertise-addr" (λ v c. record c { advertise_addr = v })
      ∷ text_flag "docker-socket" (λ v c. record c { docker_socket = v })
      ∷ text_flag "master-url" (λ v c. record c { master_url = v })
      ∷ text_flag "token" (λ v c. record c { token = v })
      ∷ number_flag env.parse_duration "resync-interval" (λ v c. record c { resync_interval = v })
      ∷ number_flag env.parse_duration "request-timeout" (λ v c. record c { request_timeout = v })
      ∷ text_flag "user-agent" (λ v c. record c { user_agent = v })
      ∷ text_flag "status-listen" (λ v c. record c { status_listen_addr = v })
      ∷ text_flag "proxy-listen" (λ v c. record c { proxy_listen_addr = v })
      ∷ []

  abbrev pub agent_defaults : AgentConfig
  agent_defaults = record {
    worker_id = env_or env "AGENT_WORKER_ID" (hostname_fallback env "worker");
    advertise_addr = getenv env.variables "AGENT_ADVERTISE_ADDR";
    docker_socket = env_or env "AGENT_DOCKER_SOCKET" "/var/run/docker.sock";
    master_url = getenv env.variables "AGENT_MASTER_URL";
    token = getenv env.variables "AGENT_TOKEN";
    resync_interval = env_duration env "AGENT_RESYNC_INTERVAL" (seconds 30);
    request_timeout = env_duration env "AGENT_REQUEST_TIMEOUT" (seconds 10);
    user_agent = env_or env "AGENT_USER_AGENT" "traefik-connect-agent/1.0";
    status_listen_addr = env_or env "AGENT_STATUS_LISTEN_ADDR" ":8081";
    proxy_listen_addr = env_or env "AGENT_PROXY_LISTEN_ADDR" ":8090";
  }

  unfoldable pub load_agent : List String → Result AgentConfig
  load_agent args = parse_flags agent_flags args agent_defaults >>= check_agent

  abbrev pub receiver_flags : List (Flag ReceiverConfig)
  receiver_flags =
      text_flag "listen" (λ v c. record c { listen_addr = v })
      ∷ text_flag "token" (λ v c. record c { token = v })
      ∷ text_flag "state-dir" (λ v c. record c { state_dir = v })
      ∷ number_flag env.parse_duration "request-window" (λ v c. record c { request_window = v })
      ∷ number_flag env.parse_int "max-body-bytes" (λ v c. record c { max_body_bytes = v })
      ∷ number_flag env.parse_duration "state-ttl" (λ v c. record c { state_ttl = v })
      ∷ number_flag env.parse_duration "http-read-timeout"
          (λ v c. record c { http_read_timeout = v })
      ∷ number_flag env.parse_duration "http-write-timeout"
          (λ v c. record c { http_write_timeout = v })
      ∷ text_flag "docker-socket" (λ v c. record c { docker_socket = v })
      ∷ text_flag "docker-network" (λ v c. record c { docker_network = v })
      ∷ text_flag "stub-image" (λ v c. record c { stub_image = v })
      ∷ text_flag "tls-cert" (λ v c. record c { cert_file = v })
      ∷ text_flag "tls-key" (λ v c. record c { key_file = v })
      ∷ []

  abbrev pub receiver_defaults : ReceiverConfig
  receiver_defaults = record {
    listen_addr = env_or env "RECEIVER_LISTEN_ADDR" ":18180";
    token = getenv env.variables "RECEIVER_TOKEN";
    state_dir = env_or env "RECEIVER_STATE_DIR" "./state";
    request_window = env_duration env "RECEIVER_REQUEST_WINDOW" (seconds 300);
    max_body_bytes = env_int64 env "RECEIVER_MAX_BODY_BYTES" (pos (2 ^ 20));
    state_ttl = env_duration env "RECEIVER_STATE_TTL" (seconds 900);
    http_read_timeout = env_duration env "RECEIVER_HTTP_READ_TIMEOUT" (seconds 5);
    http_write_timeout = env_duration env "RECEIVER_HTTP_WRITE_TIMEOUT" (seconds 15);
    docker_socket = env_or env "RECEIVER_DOCKER_SOCKET" "/var/run/docker.sock";
    docker_network = env_or env "RECEIVER_DOCKER_NETWORK" "traefik-connect";
    stub_image = env_or env "RECEIVER_STUB_IMAGE" "traefik-connect";
    cert_file = getenv env.variables "RECEIVER_TLS_CERT_FILE";
    key_file = getenv env.variables "RECEIVER_TLS_KEY_FILE";
  }

  unfoldable pub load_receiver : List String → Result ReceiverConfig
  load_receiver args = parse_flags receiver_flags args receiver_defaults >>= check_receiver

  abbrev pub stub_defaults : StubConfig
  stub_defaults = record {
    listen_addr = env_or env "STUB_LISTEN_ADDR" ":18181";
    target_url = getenv env.variables "STUB_TARGET_URL";
    token = getenv env.variables "STUB_TOKEN";
    container_id = getenv env.variables "STUB_CONTAINER_ID";
    service_name = getenv env.variables "STUB_SERVICE_NAME";
  }

  unfoldable pub load_stub : List String → Result StubConfig
  load_stub args = parse_flags stub_flags args stub_defaults >>= check_stub

  abbrev pub test_app_flags : List (Flag TestAppConfig)
  test_app_flags =
      text_flag "listen" (λ v c. record c { listen_addr = v })
      ∷ text_flag "name" (λ v c. record c { name = v })
      ∷ number_flag env.parse_int "file-size" (λ v c. record c { file_size = v })
      ∷ []

  abbrev pub test_app_defaults : TestAppConfig
  test_app_defaults = record {
    listen_addr = env_or env "TESTAPP_LISTEN_ADDR" ":8080";
    name = env_or env "TESTAPP_NAME" "testapp";
    file_size = env_int64 env "TESTAPP_FILE_SIZE" (pos (16 * 2 ^ 20));
  }

  unfoldable pub load_test_app : List String → Result TestAppConfig
  load_test_app args = parse_flags test_app_flags args test_app_defaults >>= check_test_app
