-- ===== src/Config/Examples.antt =====
-- The theorems on the configuration at a concrete one.
use sbx_swarm_node.Prelude.{◌≡◌, ◌↔◌, [], ◌∷◌, Option, none, some, String, codes, ℤ, pos}
use sbx_swarm_node.Config.{Config, validate}
use sbx_swarm_node.Config.Sound.{IsSound, validate_iff}

abbrev parse : String → Option ℤ
parse s = some (pos 30)

abbrev config : Config
config = record {
  node_name = "n1";
  data_dir = "./data";
  listen_addr = ":8443";
  log_level = "info";
  tls_cert_file = "";
  tls_key_file = "";
  api_keys = record { key = codes "k"; role = codes "admin" } ∷ [];
  cluster_secret = "s";
  join = "10.0.0.1:7946" ∷ [];
  gossip_addr = ":7946";
  provision_limits = record { cpu = pos 4; memory = pos 0; disk = pos 0 };
  default_strategy = "spread";
  workspaces = [];
  kits = record { name = "node"; ref = "./kits/node" } ∷ [];
  backend = "sdk";
  idle_timeout = "30m";
}

validate_iff_example : (validate parse config ≡ none) ↔ IsSound parse config
validate_iff_example = validate_iff parse config
