-- ===== src/Config/Tests.antt =====
-- A stub's environment, and the arguments of the other commands.
use mathlib.Core.List.{◌++◌ as append}
use traefik_connect.Common.{
  ◌≡◌, ◌≢◌, refl, false, [], ◌∷◌, ok, err, pos, not_positive, after_prefix, has_prefix, trim_prefix,
  before,
}
use traefik_connect.Receiver.Stubs.{target_url}
use traefik_connect.Receiver.Tests.{web_settings, web_container}
use traefik_connect.Receiver.Stubs.Build.Tests.{web_cleaned, web_stub, stub_built}
use traefik_connect.Config.{
  Environment, AgentConfig, ReceiverConfig, StubConfig, TestAppConfig, getenv, env_or, env_duration,
  env_int64, hostname_fallback,
}
use traefik_connect.Config.Flags.{find_flag, read_argument, parse_flags}
use traefik_connect.Config.Load.{
  load_agent, load_receiver, load_stub, load_test_app, check_agent, check_receiver, check_stub,
  check_test_app, seconds,
}
use traefik_connect.Config.Laws.{load_stub-build_stub, load_lem}

abbrev started : Environment
started = record {
  variables = append web_stub.env ("PATH=/bin" ∷ []);
  hostname = ok "host";
  parse_duration = λ s. err "invalid duration";
  parse_int = λ s. ok (pos 5);
}

load_stub-build_stub_example :
    load_stub started []
    ≡ ok (record {
      listen_addr = ":18181";
      target_url = target_url web_cleaned;
      token = "secret";
      container_id = "c1";
      service_name = "web";
    })
load_stub-build_stub_example =
    load_stub-build_stub started ("PATH=/bin" ∷ []) web_settings web_cleaned "sha256:1"
      web_container "web" ("web" ∷ []) web_stub stub_built refl (λ e. cc e) (λ e. cc e) (λ e. cc e)

-- One list of arguments that each of the commands would take.
abbrev everywhere : Environment
everywhere = record started {
  variables =
      "AGENT_MASTER_URL=http://m" ∷ "AGENT_TOKEN=t" ∷ "RECEIVER_TOKEN=t"
      ∷ "STUB_TARGET_URL=http://w" ∷ "STUB_CONTAINER_ID=c" ∷ "STUB_SERVICE_NAME=s" ∷ "STUB_TOKEN=t"
      ∷ [];
}

abbrev pub agent : AgentConfig
agent = record {
  worker_id = "host";
  advertise_addr = "";
  docker_socket = "/var/run/docker.sock";
  master_url = "http://m";
  token = "t";
  resync_interval = seconds 30;
  request_timeout = seconds 10;
  user_agent = "traefik-connect-agent/1.0";
  status_listen_addr = ":8081";
  proxy_listen_addr = ":8090";
}

agent_loaded : load_agent everywhere [] ≡ ok agent
unfolding load_agent parse_flags read_argument has_prefix trim_prefix before find_flag check_agent
    getenv env_duration env_or env_int64 after_prefix hostname_fallback
agent_loaded = refl

flagged_loaded :
    load_agent everywhere
      ("-worker-id" ∷ "w2" ∷ "--docker-socket=/d" ∷ "-token=" ∷ "--token" ∷ "u" ∷ [])
    ≡ ok (record agent { worker_id = "w2"; docker_socket = "/d"; token = "u" })
unfolding load_agent parse_flags read_argument has_prefix trim_prefix before find_flag check_agent
    getenv env_duration env_or
flagged_loaded = refl

abbrev receiver : ReceiverConfig
receiver = record {
  listen_addr = ":18180";
  token = "t";
  state_dir = "./state";
  request_window = seconds 300;
  max_body_bytes = pos 1048576;
  state_ttl = seconds 900;
  http_read_timeout = seconds 5;
  http_write_timeout = seconds 15;
  docker_socket = "/var/run/docker.sock";
  docker_network = "traefik-connect";
  stub_image = "traefik-connect";
  cert_file = "";
  key_file = "";
}

receiver_loaded : load_receiver everywhere [] ≡ ok receiver
unfolding load_receiver parse_flags check_receiver getenv env_duration env_or env_int64 after_prefix
receiver_loaded = refl

abbrev stub : StubConfig
stub = record {
  listen_addr = ":18181";
  target_url = "http://w";
  token = "t";
  container_id = "c";
  service_name = "s";
}

stub_loaded : load_stub everywhere [] ≡ ok stub
unfolding load_stub parse_flags check_stub getenv env_or after_prefix
stub_loaded = refl

abbrev app : TestAppConfig
app = record { listen_addr = ":8080"; name = "testapp"; file_size = pos 16777216 }

app_loaded : load_test_app everywhere [] ≡ ok app
unfolding load_test_app parse_flags check_test_app getenv env_or env_int64 after_prefix
app_loaded = refl

load_lem_example :
    ((agent.worker_id ≢ "") × (agent.master_url ≢ "") × (agent.token ≢ ""))
    × (receiver.token ≢ "")
    × ((stub.target_url ≢ "")
        × (stub.token ≢ "")
        × (stub.container_id ≢ "")
        × (stub.service_name ≢ ""))
    × ((app.listen_addr ≢ "") × (app.name ≢ "") × (not_positive app.file_size ≡ false))
load_lem_example =
    load_lem everywhere [] agent receiver stub app agent_loaded receiver_loaded stub_loaded
      app_loaded
