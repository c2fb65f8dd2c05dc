-- ===== src/Model.antt =====
-- internal/model/model.go: the data that the worker sends to the master.
-- A pointer field is an `Option`, a slice a list, and a map a `Dict`; a nil slice and an empty one
-- are the same here, as they are to every function that is modelled. A `time.Time` is the number
-- of nanoseconds since Go's zero time, so that 0 is the time for which `IsZero` holds.
use traefik_connect.Common.{pos, none, [], ℕ, String, Bool, Option, List, ℤ, Dict}

abbrev pub Instant : Type 0
Instant = ℕ

pub record TlsSpec : Type 0 where
  pub cert_resolver : String

pub record RouterSpec : Type 0 where
  pub name : String
  pub rule : String
  pub entry_points : List String
  pub tls : Option TlsSpec
  pub middlewares : List String
  pub service : String
  pub priority : Option ℤ

pub record ServiceSpec : Type 0 where
  pub name : String
  pub port : ℤ
  pub backend_url : String
  pub backend_source : String
  pub pass_host_header : Option Bool
  pub sticky : Option Bool

pub record RedirectScheme : Type 0 where
  pub scheme : String
  pub permanent : Option Bool

pub record HeadersSpec : Type 0 where
  pub custom_request_headers : Dict String
  pub custom_response_headers : Dict String
  pub ssl_redirect : Option Bool
  pub sts_seconds : Option ℤ
  pub sts_include_subdomains : Option Bool
  pub sts_preload : Option Bool
  pub force_sts_header : Option Bool
  pub browser_xss_filter : Option Bool
  pub content_type_nosniff : Option Bool
  pub frame_deny : Option Bool
  pub access_control_allow_origin_list : List String
  pub access_control_allow_methods : List String
  pub access_control_allow_headers : List String
  pub access_control_expose_headers : List String
  pub access_control_max_age : String
  pub add_vary_header : Option Bool

pub record MiddlewareSpec : Type 0 where
  pub name : String
  pub redirect_scheme : Option RedirectScheme
  pub headers : Option HeadersSpec
  pub basic_auth_users : List String
  pub strip_prefix_prefixes : List String

pub record ContainerSpec : Type 0 where
  pub id : String
  pub name : String
  pub image : String
  pub labels : Dict String
  pub exported_at : Instant
  pub resolution_notes : List String
  pub routers : Dict RouterSpec
  pub services : Dict ServiceSpec
  pub middlewares : Dict MiddlewareSpec

pub record Snapshot : Type 0 where
  pub worker_id : String
  pub advertise_addr : String
  pub proxy_port : ℤ
  pub captured_at : Instant
  pub version : String
  pub hash : String
  pub containers : List ContainerSpec
  pub decision_notes : List String

pub record ValidationIssue : Type 0 where
  pub worker_id : String
  pub container_id : String
  pub container : String
  pub scope : String
  pub field : String
  pub message : String

-- The zero values that Go gives for a missing key.
abbrev pub zero_router : RouterSpec
zero_router = record {
  name = "";
  rule = "";
  entry_points = [];
  tls = none;
  middlewares = [];
  service = "";
  priority = none;
}

abbrev pub zero_service : ServiceSpec
zero_service = record {
  name = "";
  port = pos 0;
  backend_url = "";
  backend_source = "";
  pass_host_header = none;
  sticky = none;
}

abbrev pub zero_middleware : MiddlewareSpec
zero_middleware = record {
  name = "";
  redirect_scheme = none;
  headers = none;
  basic_auth_users = [];
  strip_prefix_prefixes = [];
}
