-- ===== src/Membership/NodeState.antt =====
-- internal/membership/state.go: what a node tells the others of itself. JSON comes from a library.
use sbx_swarm_node.Prelude.{ℕ, Bool, List, Text, Map, Float64}

-- The part that rides in the small UDP messages.
pub record MetaWire : Type 0 where
  pub node_id : Text
  pub addr : Text
  pub cordoned : Bool
  pub state_version : ℕ
  pub protocol_version : ℕ

module _ (F : Float64) where
  -- `state_version` is a uint64.
  pub record NodeState : Type 0 where
    pub node_id : Text
    pub addr : Text
    pub cordoned : Bool
    pub state_version : ℕ
    pub protocol_version : ℕ
    pub swarm_id : Text
    pub swarm_name : Text
    pub node_name : Text
    pub pubkey : Text
    pub capabilities : List Text
    pub owned_sandbox_ids : List Text
    pub labels : Map Text Text
    pub limit_cpu : F.Carrier
    pub limit_mem : F.Carrier
    pub alloc_cpu : F.Carrier
    pub alloc_mem : F.Carrier
    pub workspaces : List Text
    pub git_workspaces : List Text
    pub templates : List Text
    pub kits : List Text
    pub limit_disk : F.Carrier
    pub alloc_disk : F.Carrier
    pub actual_cpu : F.Carrier
    pub actual_mem : F.Carrier
    pub revoked : List Text

  -- What EncodeMeta hands to the JSON library.
  unfoldable pub meta_wire : NodeState → MetaWire
  meta_wire n = record {
    node_id = n.node_id;
    addr = n.addr;
    cordoned = n.cordoned;
    state_version = n.state_version;
    protocol_version = n.protocol_version;
  }
