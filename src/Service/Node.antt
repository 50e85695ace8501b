-- ===== src/Service/Node.antt =====
-- internal/apiserver/nodeservice.go and internal/node/flags.go: the cordon and the drain of a node.
-- Cordon, Uncordon and Drain hold the service's lock, so each is one step. `stored` is the flags in
-- the store, and `faults` says of the writes to come which of them fail. A drainer is wired.
pub mod Drains
pub mod Restarts
use sbx_swarm_node.Prelude.{
  ℕ, ◌+◌, Bool, true, false, not, ◌&&◌, List, [], ◌∷◌, Option, none, some, Text, codes, text_eq,
  ◌==◌, if◌then◌else◌, Result, ok, err, Float64,
}
use sbx_swarm_node.Membership.Cluster.{Cluster, RevokeError, set_cordoned, revoke, revoked_list}

pub record NodeFlags : Type 0 where
  pub cordoned : Bool
  pub draining : Bool

pub record NodeInfo : Type 0 where
  pub node_id : Text
  pub node_name : Text
  pub version : Text
  pub role : Text
  pub cordoned : Bool
  pub draining : Bool

pub data NodeError : Type 0 where
  needs_clustering : NodeError
  revoke_failed : RevokeError → NodeError

-- What the store gives at boot: a failed read, no value, a value that is not the flags, or the flags.
pub data Loaded : Type 0 where
  unreadable missing corrupt : Loaded
  found : NodeFlags → Loaded

unfoldable pub load_node_flags : Loaded → NodeFlags
load_node_flags (found f) = f
load_node_flags _ = record { cordoned = false; draining = false }

module _ (F : Float64) where
  -- `sweeps` is the actors of the sweeps whose goroutine runs.
  pub record NodeService : Type 0 where
    pub node_id : Text
    pub node_name : Text
    pub version : Text
    pub cordoned : Bool
    pub draining : Bool
    pub sweeping : Bool
    pub sweeps : List Text
    pub cluster : Option (Cluster F)
    pub stored : Option NodeFlags
    pub faults : List Bool

  unfoldable pub mirror : Bool → Option (Cluster F) → Option (Cluster F)
  mirror v none = none
  mirror v (some c) = some (set_cordoned F v c)

  -- What is stored after a write of the flags, and the writes to come.
  unfoldable pub written : NodeFlags → Option NodeFlags → List Bool → Option NodeFlags × List Bool
  written f old [] = (some f, [])
  written f old (true ∷ faults) = (old, faults)
  written f old (false ∷ faults) = (some f, faults)

  unfoldable pub save_flags : NodeService → NodeService
  save_flags s =
      let (now, rest) =
        written (record { cordoned = s.cordoned; draining = s.draining }) s.stored s.faults in
      record s { stored = now; faults = rest }

  unfoldable pub node_info : Text → NodeService → NodeInfo
  node_info role s = record {
    node_id = s.node_id;
    node_name = s.node_name;
    version = s.version;
    role = role;
    cordoned = false;
    draining = false;
  }

  flags_info : NodeService → NodeInfo
  flags_info s = record {
    node_id = s.node_id;
    node_name = s.node_name;
    version = s.version;
    role = [];
    cordoned = s.cordoned;
    draining = s.draining;
  }

  unfoldable pub cordon : NodeService → NodeInfo × NodeService
  unfolding flags_info
  cordon s =
      let s' = save_flags (record s { cordoned = true; cluster = mirror true s.cluster }) in
      (flags_info s', s')

  unfoldable pub uncordon : NodeService → NodeInfo × NodeService
  unfolding flags_info
  uncordon s =
      let s' =
        save_flags
          (record s { cordoned = false; draining = false; cluster = mirror false s.cluster }) in
      (flags_info s', s')

  unfoldable pub actor_or_system : Text → Text
  actor_or_system actor = if not (actor == []) then actor else codes "system"

  -- A sweep starts unless one runs.
  start_sweep : Text → NodeService → NodeService
  start_sweep actor s =
      if not s.sweeping
      then record s { sweeping = true; sweeps = actor_or_system actor ∷ s.sweeps }
      else s

  unfoldable pub drain : Text → NodeService → NodeInfo × NodeService
  unfolding flags_info start_sweep
  drain actor s =
      let s' = start_sweep actor (
        save_flags
          (record s { cordoned = true; draining = true; cluster = mirror true s.cluster })) in
      (flags_info s', s')

  -- The end of the goroutine of a sweep, when DrainAll has returned; `rest` is the others.
  unfoldable pub end_sweep : List Text → NodeService → NodeService
  end_sweep rest s = record s { sweeping = false; sweeps = rest }

  -- The flags at boot (SetCordonedFlag, SetDraining), and the cluster of the node, if it has one.
  restored_cluster : Bool → Option (Cluster F) → Option (Cluster F)
  restored_cluster true cl = mirror true cl
  restored_cluster false cl = cl

  unfoldable pub boot :
      (id name version : Text)
      → Loaded
      → Option NodeFlags
      → List Bool
      → Option (Cluster F)
      → NodeService
  unfolding restored_cluster
  boot id name version loaded stored faults cl =
      let flags = load_node_flags loaded in
      record {
        node_id = id;
        node_name = name;
        version = version;
        cordoned = flags.cordoned;
        draining = flags.draining;
        sweeping = false;
        sweeps = [];
        cluster = restored_cluster flags.cordoned cl;
        stored = stored;
        faults = faults;
      }

  revoked_reply :
      NodeService
      → Result RevokeError (Unit {0}) × Cluster F
      → Result NodeError (List Text) × NodeService
  revoked_reply s (err e, c) = (err (revoke_failed e), record s { cluster = some c })
  revoked_reply s (ok _, c) = (ok (revoked_list F c), record s { cluster = some c })

  unfoldable pub revoke_node : Text → NodeService → Result NodeError (List Text) × NodeService
  unfolding revoked_reply
  revoke_node id s = elim s.cluster [
    | none ↦ (err needs_clustering, s)
    | some c ↦ revoked_reply s (revoke F id c)
  ]

  unfoldable pub list_revoked : NodeService → List Text
  list_revoked s = elim s.cluster [ none ↦ [] | some c ↦ revoked_list F c ]
