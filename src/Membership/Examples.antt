-- ===== src/Membership/Examples.antt =====
-- The theorems on the membership at concrete nodes.
use sbx_swarm_node.Prelude.{
  ℕ, ◌+◌, ◌≡◌, refl, false, ◌||◌, List, [], ◌∷◌, some, Text, text_eq, codes, Float64, ltb, leb, eqb,
}
use sbx_swarm_node.Routing.{Table}
use sbx_swarm_node.Membership.Identity.{SwarmIdentity, standalone, pending_join, guard_join}
use sbx_swarm_node.Membership.NodeState.{NodeState}
use sbx_swarm_node.Membership.Cluster.{
  Cluster, new_cluster, merge_remote_state, revoke, accepts, is_revoked,
}
use sbx_swarm_node.Membership.Cluster.Runs.{Reach, here, next, merged, revoked}
use sbx_swarm_node.Membership.Cluster.Revocation.{IsAdvertised, exchange_converges}
use sbx_swarm_node.Membership.Cluster.Advertised.{runs_advertise}

abbrev whole : Float64
whole = record {
  Carrier = ℕ;
  from_int = λ n. n;
  add = λ a b. a + b;
  div = λ a b. a;
  lt = ltb;
  le = leb;
  eq = eqb;
}

-- A node with the given id, swarm and revocations.
abbrev node : Text → Text → List Text → NodeState whole
node id swarm ids = record {
  node_id = id;
  addr = codes "10.0.0.1:7946";
  cordoned = false;
  state_version = 0;
  protocol_version = 1;
  swarm_id = swarm;
  swarm_name = [];
  node_name = id;
  pubkey = codes "k";
  capabilities = [];
  owned_sandbox_ids = [];
  labels = [];
  limit_cpu = 4;
  limit_mem = 8;
  alloc_cpu = 0;
  alloc_mem = 0;
  workspaces = [];
  git_workspaces = [];
  templates = [];
  kits = [];
  limit_disk = 10;
  alloc_disk = 0;
  actual_cpu = 0;
  actual_mem = 0;
  revoked = ids;
}

abbrev table : Text → Table
table self = record { self = self; nodes = [] }

abbrev founder : SwarmIdentity
founder = record { swarm_id = codes "swarm"; swarm_name = []; mode = standalone }

abbrev joiner : SwarmIdentity
joiner = record { swarm_id = []; swarm_name = []; mode = pending_join }

-- "a" founded the swarm and has "x" on its disk; "b" waits to join.
abbrev a : Cluster whole
a =
    new_cluster whole (node (codes "a") (codes "swarm") []) (table (codes "a")) founder
      (codes "x" ∷ []) []

abbrev b : Cluster whole
b = new_cluster whole (node (codes "b") [] []) (table (codes "b")) joiner [] []

-- "b" merges the state of "a" and then revokes "y".
abbrev b_run :
    Reach whole b (revoke whole (codes "y") (merge_remote_state whole (some a.local) b)).1
b_run =
    next (next here (merged (some a.local) b))
      (revoked (codes "y") (merge_remote_state whole (some a.local) b))

abbrev joined : Cluster whole
joined = merge_remote_state whole (some a.local) b

runs_advertise_example : IsAdvertised whole (revoke whole (codes "y") joined).1
runs_advertise_example =
    runs_advertise whole (node (codes "b") [] []) (table (codes "b")) joiner [] []
      (revoke whole (codes "y") joined).1 refl refl b_run

-- "c" of the same swarm has "z" on its disk.
abbrev c : Cluster whole
c =
    new_cluster whole (node (codes "c") (codes "swarm") []) (table (codes "c")) founder
      (codes "z" ∷ []) []

a_advertises : IsAdvertised whole a
a_advertises =
    runs_advertise whole (node (codes "a") (codes "swarm") []) (table (codes "a")) founder
      (codes "x" ∷ []) [] a refl refl here

c_advertises : IsAdvertised whole c
c_advertises =
    runs_advertise whole (node (codes "c") (codes "swarm") []) (table (codes "c")) founder
      (codes "z" ∷ []) [] c refl refl here

exchange_converges_example :
    (is_revoked whole (codes "z") (merge_remote_state whole (some c.local) a)
      ≡ (is_revoked whole (codes "z") a || is_revoked whole (codes "z") c))
    × (is_revoked whole (codes "z") (merge_remote_state whole (some a.local) c)
        ≡ (is_revoked whole (codes "z") a || is_revoked whole (codes "z") c))
unfolding accepts new_cluster guard_join
exchange_converges_example =
    exchange_converges whole a c a_advertises c_advertises refl refl (codes "z")
