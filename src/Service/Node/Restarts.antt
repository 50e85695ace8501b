-- ===== src/Service/Node/Restarts.antt =====
-- internal/node/flags.go: the cordon and the drain outlive the process.
use sbx_swarm_node.Prelude.{◌≡◌, [], Float64}
use sbx_swarm_node.Membership.Cluster.{Cluster}
use sbx_swarm_node.Service.Node.{NodeFlags, NodeService, load_node_flags}
use sbx_swarm_node.Service.Node.Drains.{cordoned, loaded}

module _ (F : Float64) where
  abbrev pub flags_of : NodeService F → NodeFlags
  flags_of s = record { cordoned = s.cordoned; draining = s.draining }

  -- No write is going to fail, and a boot would find the flags as they are.
  pub record IsSaved (s : NodeService F) : Type 0 where
    pub healthy : s.faults ≡ []
    pub same : load_node_flags (loaded F s.stored) ≡ flags_of s
