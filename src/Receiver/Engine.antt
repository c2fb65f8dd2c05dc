-- ===== src/Receiver/Engine.antt =====
-- internal/receiver/store.go over internal/dockerx/client.go: the store's world, where the Docker engine is
-- asked through the client.
use traefik_connect.Common.{String, Bool, true, List, Result}
use traefik_connect.Dockerx.Client
use traefik_connect.Dockerx.Client.{Library}
use traefik_connect.Receiver.World.{World}

-- The operations on the state directory.
pub record Directory (W : Type 0) : Type 0 where
  pub write_file : String → String → W → Result (Unit {0}) × W
  pub remove_file : String → W → Result (Unit {0}) × W
  pub make_dir : W → Result (Unit {0}) × W
  pub read_dir : W → Result (List (String × Bool)) × W
  pub read_file : String → W → Result String × W

abbrev pub engine_world : {W : Type 0} → Library W → Directory W → World W
engine_world lib dir = record {
  inspect_image = Client.inspect_image lib;
  list_containers = Client.list_containers lib;
  inspect_container = Client.inspect_container lib;
  create_container = Client.create_container lib;
  connect_network = Client.connect_network lib;
  start_container = Client.start_container lib;
  remove_container = λ id. Client.remove_container lib id true;
  write_file = dir.write_file;
  remove_file = dir.remove_file;
  make_dir = dir.make_dir;
  read_dir = dir.read_dir;
  read_file = dir.read_file;
}
