-- ===== src/Dockerx.antt =====
-- internal/dockerx/client.go: what the Docker engine is asked and answers.
pub mod Client
use traefik_connect.Common.{String, Bool, List, Dict}

-- The fields of ContainerInspect that the program reads; a set is the list of its keys.
pub record ContainerInspect : Type 0 where
  pub id : String
  pub name : String
  pub image : String
  pub hostname : String
  pub config_image : String
  pub labels : Dict String
  pub exposed_ports : List String
  pub running : Bool
  pub network_mode : String
  pub ip_address : String
  pub ports : List String
  pub networks : Dict String

pub record ContainerCreateRequest : Type 0 where
  pub image : String
  pub env : List String
  pub cmd : List String
  pub labels : Dict String
  pub exposed_ports : List String
  pub auto_remove : Bool
