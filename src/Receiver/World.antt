-- ===== src/Receiver/World.antt =====
-- What the receiver asks of the Docker engine and of its state directory. Each operation takes the
-- state of the outside world and returns the next one, on success and on failure; nothing is
-- assumed of what they return.
use traefik_connect.Common.{String, Bool, List, Result}
use traefik_connect.Dockerx.{ContainerInspect, ContainerCreateRequest}

pub record World (W : Type 0) : Type 0 where
  -- the image's id
  pub inspect_image : String → W → Result String × W
  -- the ids of all containers
  pub list_containers : W → Result (List String) × W
  pub inspect_container : String → W → Result ContainerInspect × W
  -- the new container's id
  pub create_container : String → ContainerCreateRequest → W → Result String × W
  pub connect_network : String → String → W → Result (Unit {0}) × W
  pub start_container : String → W → Result (Unit {0}) × W
  -- with force
  pub remove_container : String → W → Result (Unit {0}) × W
  -- util.AtomicWriteFile and os.Remove, by the file's name in the state directory
  pub write_file : String → String → W → Result (Unit {0}) × W
  pub remove_file : String → W → Result (Unit {0}) × W
  -- os.MkdirAll of the state directory, and os.ReadDir of it: names, with whether each is a directory
  pub make_dir : W → Result (Unit {0}) × W
  pub read_dir : W → Result (List (String × Bool)) × W
  pub read_file : String → W → Result String × W
