-- ===== src/Config.antt =====
-- internal/config/config.go: the settings of the four commands, from the environment and the
-- arguments, with the part of Go's package flag that it uses. A time.Duration and an int64 are ℤ.
pub mod Flags
pub mod Load
pub mod Laws
pub mod Tests
use Prim.Native.String.{◌++◌}
use traefik_connect.Common.{
  String, Option, none, some, List, [], ◌∷◌, ◌==◌, if◌then◌else◌, Result, ok, err, ℤ, pos, atoi,
  after_prefix,
}

-- The variables, each as "KEY=value", the host's name, time.ParseDuration, and
-- strconv.ParseInt of a number in any base.
pub record Environment : Type 0 where
  pub variables : List String
  pub hostname : Result String
  pub parse_duration : String → Result ℤ
  pub parse_int : String → Result ℤ

abbrev pub or_next : Option String → String → String
or_next none later = later
or_next (some value) later = value

-- os.Getenv: the first of the variable's entries.
pub getenv : List String → String → String
getenv [] key = ""
getenv (entry ∷ entries) key = or_next (after_prefix entry (key ++ "=")) (getenv entries key)

module _ (env : Environment) where
  pub env_or : String → String → String
  env_or key fallback = let v = getenv env.variables key in if v == "" then fallback else v

  abbrev or_fallback : ℤ → Result ℤ → ℤ
  or_fallback fallback (err e) = fallback
  or_fallback fallback (ok d) = d

  pub env_duration : String → ℤ → ℤ
  env_duration key fallback =
      let v = getenv env.variables key in
      if v == "" then fallback else or_fallback fallback (env.parse_duration v)

  abbrev some_or : ℤ → Option ℤ → ℤ
  some_or fallback none = fallback
  some_or fallback (some n) = n

  -- strconv.ParseInt(v, 10, 64) accepts what strconv.Atoi accepts on a 64-bit machine.
  pub env_int64 : String → ℤ → ℤ
  env_int64 key fallback =
      let v = getenv env.variables key in if v == "" then fallback else some_or fallback (atoi v)

  pub hostname_fallback : String → String
  hostname_fallback prefix = name_or (env.hostname)
    where
      name_or : Result String → String
      name_or (err e) = prefix
      name_or (ok h) = if h == "" then prefix else h

pub record AgentConfig : Type 0 where
  pub worker_id : String
  pub advertise_addr : String
  pub docker_socket : String
  pub master_url : String
  pub token : String
  pub resync_interval : ℤ
  pub request_timeout : ℤ
  pub user_agent : String
  pub status_listen_addr : String
  pub proxy_listen_addr : String

pub record ReceiverConfig : Type 0 where
  pub listen_addr : String
  pub token : String
  pub state_dir : String
  pub request_window : ℤ
  pub max_body_bytes : ℤ
  pub state_ttl : ℤ
  pub http_read_timeout : ℤ
  pub http_write_timeout : ℤ
  pub docker_socket : String
  pub docker_network : String
  pub stub_image : String
  pub cert_file : String
  pub key_file : String

pub record StubConfig : Type 0 where
  pub listen_addr : String
  pub target_url : String
  pub token : String
  pub container_id : String
  pub service_name : String

pub record TestAppConfig : Type 0 where
  pub listen_addr : String
  pub name : String
  pub file_size : ℤ
