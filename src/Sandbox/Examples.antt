-- ===== src/Sandbox/Examples.antt =====
-- The theorems on admission and kits at concrete inputs.
use sbx_swarm_node.Prelude.{
  ℕ, ◌≡◌, true, false, [], ◌∷◌, Option, none, some, String, Text, codes, Map, string_eq, nat_eq,
  text_eq, ok,
}
use sbx_swarm_node.Sandbox.Amounts.{Amounts}
use sbx_swarm_node.Sandbox.Capacity.{Capacity, new_capacity, try_reserve}
use sbx_swarm_node.Sandbox.Capacity.Admission.{IsValid, new_capacity-IsValid, try_reserve-IsValid}
use sbx_swarm_node.Prelude.{not, ◌&&◌}
use sbx_swarm_node.Sandbox.Fake.{Fake, new_fake, policy_check, host_of}
use sbx_swarm_node.Sandbox.Fake.Egress.{has_rule, policy_check-rules}
use sbx_swarm_node.Sandbox.Record.{CreateSpec, Backend}
use sbx_swarm_node.Sandbox.Manager
use sbx_swarm_node.Sandbox.Manager.Admission.{Accounted, admit_and_create-Accounted}
use sbx_swarm_node.Sandbox.Cleanup.{delete_sandbox}
use sbx_swarm_node.Sandbox.Cleanup.Deletion.{Deletes, delete_sandbox-Deletes}
use sbx_swarm_node.Sandbox.Kits.{KitInfo}

abbrev four_cores : Amounts
four_cores = record { cpu = 4; mem = 8; disk = 0 }

abbrev two_cores : Amounts
two_cores = record { cpu = 2; mem = 1; disk = 5 }

abbrev empty_node : Capacity
empty_node = new_capacity four_cores

abbrev one_pending : Capacity
one_pending = (try_reserve two_cores empty_node).0

one_pending-IsValid : IsValid one_pending
one_pending-IsValid = try_reserve-IsValid empty_node two_cores (new_capacity-IsValid four_cores)

-- A daemon that counts its calls and accepts them all.
abbrev counting : Backend
counting = record {
  Daemon = ℕ;
  create = λ spec d. (ok (record { name = spec.name; status = "running" }), d);
  start = λ name d. (ok tt, d);
  stop = λ name d. (ok tt, d);
  remove = λ name d. (ok tt, d);
  list = λ d. (ok [], d);
  ports = λ name d. (ok [], d);
  secret_hosts = λ scope d. (ok [], d);
  secret_remove = λ scope host d. (ok tt, d);
}

abbrev asked : CreateSpec
asked = record {
  name = "";
  display_name = "";
  agent = "shell";
  template = "";
  cpus = 2;
  memory_bytes = 1;
  disk = 0;
  clone = false;
  branch = "";
  review_ref = none;
  workspaces = [];
  env = [];
  labels = [];
  kits = [];
}

abbrev mint_one : ℕ → String
mint_one n = "node.1"

abbrev clock : ℕ → ℕ
clock n = n

abbrev fresh_manager : Manager.Manager counting mint_one clock "node"
fresh_manager = record {
  records = [];
  capacity = empty_node;
  published = [];
  owned = [];
  daemon = 0;
  minted = 0;
  ticks = 0;
  faults = false ∷ true ∷ [];
}

admit_and_create-Accounted_example :
    Accounted counting mint_one clock "node" fresh_manager asked
      (Manager.admit_and_create counting mint_one clock "node" asked fresh_manager)
admit_and_create-Accounted_example =
    admit_and_create-Accounted counting mint_one clock "node" asked fresh_manager
      (new_capacity-IsValid four_cores)

-- The manager after a creation with a database that no longer fails.
abbrev stocked_manager : Manager.Manager counting mint_one clock "node"
stocked_manager =
    record (Manager.admit_and_create counting mint_one clock "node" asked fresh_manager).1 {
      faults = [];
    }

delete_sandbox-Deletes_example :
    Deletes counting mint_one clock "node" stocked_manager "node.1"
      (delete_sandbox counting mint_one clock "node" "node.1" stocked_manager)
delete_sandbox-Deletes_example =
    delete_sandbox-Deletes counting mint_one clock "node" "node.1" stocked_manager

abbrev plain_mixin : KitInfo
plain_mixin = record {
  kind = codes "mixin";
  has_resources = false;
  has_run_options = false;
  has_template = false;
  has_volumes = false;
}

abbrev inspect : Text → Option KitInfo
inspect ref = some (record plain_mixin { has_volumes = true })

abbrev two_kits : Map Text Text
two_kits = (codes "b", codes "ref-b") ∷ (codes "a", codes "ref-a") ∷ []

-- A host that one rule allows and a later one denies.
abbrev ruled : Fake
ruled = record (new_fake []) {
  rules =
      record { rule = codes "a.com"; is_deny = false }
      ∷ record { rule = codes "a.com"; is_deny = true }
      ∷ [];
}

policy_check-rules_example : policy_check (codes "a.com:443") ruled ≡ (
    has_rule false (host_of (codes "a.com:443")) ruled.rules
    && not (has_rule true (host_of (codes "a.com:443")) ruled.rules))
policy_check-rules_example = policy_check-rules (codes "a.com:443") ruled
