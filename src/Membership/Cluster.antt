-- ===== src/Membership/Cluster.antt =====
-- internal/membership/cluster.go and revocation.go. The gossip library calls the delegates and is
-- told of a new local state by UpdateNode; `updates` counts these calls and `fan_outs` the rounds of
-- push and pull that a revocation starts. The library is running.
pub mod Advertised
pub mod Cordons
pub mod Joins
pub mod Revocation
pub mod Runs
use sbx_swarm_node.Prelude.{
  ℕ, ◌+◌, ◌%◌, ◌^◌, Bool, true, false, not, ◌&&◌, ◌||◌, List, [], ◌∷◌, ◌++◌, Option, none, some,
  Text, text_eq, ◌==◌, nat_eq, eqb, ltb, if◌then◌else◌, contains, length, Map, get, put, delete,
  Float64, Result, ok, err, sort_texts, keep, map,
}
use sbx_swarm_node.Routing
use sbx_swarm_node.Routing.{Table}
use sbx_swarm_node.Membership.Identity.{
  Mode, pending_join, rejoin, SwarmIdentity, guard_join, adopt,
}
use sbx_swarm_node.Membership.NodeState.{NodeState, MetaWire, meta_wire}

pub data RevokeError : Type 0 where
  empty_node_id revoke_self : RevokeError

abbrev pub protocol_version : ℕ
protocol_version = 1

module _ (F : Float64) where
  -- `revoked` is the set of the revoked ids, each once, and `stored` the keys of the bucket
  -- "revoked"; `faults` says of the writes to the disk to come which of them fail.
  pub record Cluster : Type 0 where
    pub local : NodeState F
    pub peer_states : Map Text (NodeState F)
    pub tbl : Table
    pub si : SwarmIdentity
    pub revoked : List Text
    pub stored : List Text
    pub updates : ℕ
    pub fan_outs : ℕ
    pub shutdown : Bool
    pub dead : List Text
    pub faults : List Bool

  -- A write to the disk; the result says whether it succeeded.
  write : Cluster → Cluster × Bool
  write c = elim c.faults [ [] ↦ (c, true) | f ∷ fs ↦ (record c { faults = fs }, not f) ]

  unfoldable pub next_version : NodeState F → NodeState F
  next_version n = record n { state_version = (n.state_version + 1) % 2 ^ 64 }

  -- The local state changes, and the peers are told.
  unfoldable pub readvertise : (NodeState F → NodeState F) → Cluster → Cluster
  unfolding next_version
  readvertise f c = record c { local = next_version (f c.local); updates = c.updates + 1 }

  unfoldable pub set_cordoned : Bool → Cluster → Cluster
  set_cordoned cordoned = readvertise (λ n. record n { cordoned = cordoned })

  unfoldable pub update_local_sandbox_ids : List Text → Cluster → Cluster
  update_local_sandbox_ids ids = readvertise (λ n. record n { owned_sandbox_ids = ids })

  unfoldable pub update_local_load :
      (cpu mem disk util_cpu util_mem : F.Carrier) → Cluster → Cluster
  update_local_load cpu mem disk util_cpu util_mem = readvertise (λ n. record n {
    alloc_cpu = cpu;
    alloc_mem = mem;
    alloc_disk = disk;
    actual_cpu = util_cpu;
    actual_mem = util_mem;
  })

  texts_equal : List Text → List Text → Bool
  texts_equal [] [] = true
  texts_equal [] (_ ∷ _) = false
  texts_equal (_ ∷ _) [] = false
  texts_equal (s ∷ ss) (t ∷ ts) = s == t && texts_equal ss ts

  unfoldable pub update_local_templates : List Text → Cluster → Cluster
  unfolding texts_equal
  update_local_templates templates c =
      let sorted = sort_texts templates in
      if texts_equal c.local.templates sorted
      then c
      else readvertise (λ n. record n { templates = sorted }) c

  -- One round of the loop of addRevokedLocked, with whether the set grew in this round. An error of
  -- the store is dropped, and the id stays in memory.
  store_revoked : Text → Cluster × Bool → Cluster
  store_revoked id (c, true) = record c { stored = id ∷ c.stored }
  store_revoked id (c, false) = c

  unfoldable pub add_one : Text → Cluster → Cluster × Bool
  unfolding write store_revoked
  add_one id c =
      if id == [] || contains id c.revoked
      then (c, false)
      else (store_revoked id (write (record c { revoked = id ∷ c.revoked })), true)

  pub add_each : List Text → Cluster → Cluster × Bool
  add_each [] c = (c, false)
  add_each (id ∷ ids) c =
      let (c', grew) = add_one id c in let (c'', more) = add_each ids c' in (c'', grew || more)

  unfoldable pub add_revoked : List Text → Cluster → Cluster × Bool
  unfolding add_each next_version
  add_revoked ids c =
      let (c', grew) = add_each ids c in
      if grew
      then (
        record c' { local = next_version (record c'.local { revoked = sort_texts c'.revoked }) },
        true,
      )
      else (c', false)

  -- The refresh and the round of push and pull that follow a growth of the set.
  unfoldable pub spread : Cluster × Bool → Cluster
  spread (c, true) = record c { updates = c.updates + 1; fan_outs = c.fan_outs + 1 }
  spread (c, false) = c

  unfoldable pub revoke : Text → Cluster → Result RevokeError (Unit {0}) × Cluster
  unfolding add_revoked spread
  revoke node_id c =
      if node_id == []
      then (err empty_node_id, c)
      else if node_id == c.local.node_id
      then (err revoke_self, c)
      else (ok tt, spread (add_revoked (node_id ∷ []) c))

  unfoldable pub is_revoked : Text → Cluster → Bool
  is_revoked node_id c = contains node_id c.revoked

  unfoldable pub revoked_list : Cluster → List Text
  revoked_list c = sort_texts c.revoked

  seeded : List Text → NodeState F → NodeState F
  seeded [] n = n
  seeded (id ∷ ids) n = record n { revoked = sort_texts (id ∷ ids) }

  -- NewCluster up to the start of the gossip library, with loadRevoked.
  unfoldable pub new_cluster : NodeState F → Table → SwarmIdentity → List Text → List Bool → Cluster
  unfolding seeded
  new_cluster local tbl si stored faults = record {
    local = seeded stored local;
    peer_states = [];
    tbl = tbl;
    si = si;
    revoked = stored;
    stored = stored;
    updates = 0;
    fan_outs = 0;
    shutdown = false;
    dead = [];
    faults = faults;
  }

  unfoldable pub is_pending : SwarmIdentity → Bool
  is_pending si = elim si.mode [ pending_join ↦ true | _ ↦ false ]

  -- What MergeRemoteState does with a peer that passes its two guards: remember it, fold in the
  -- revocations that it carries, and enter it in the routing table.
  unfoldable pub track : NodeState F → Cluster → Cluster
  unfolding add_revoked spread
  track remote c =
      let c' = spread (
        add_revoked remote.revoked
          (record c { peer_states = put remote.node_id remote c.peer_states })) in
      record c' { tbl = Routing.upsert remote.node_id remote.addr remote.pubkey c'.tbl }

  -- The write of swarm.json decides whether the node leaves pending-join.
  adopted : NodeState F → Cluster × Bool → Cluster
  adopted remote (c, true) = record c {
    local = record c.local { swarm_id = remote.swarm_id };
    si = record c.si { mode = rejoin };
  }
  adopted remote (c, false) = c

  unfoldable pub adopt_from : NodeState F → Cluster → Cluster
  unfolding adopted write
  adopt_from remote c =
      adopted remote (write (record c { si = adopt remote.swarm_id remote.swarm_name c.si }))

  unfoldable pub merge_compatible : NodeState F → Cluster → Cluster
  merge_compatible remote c =
      if is_pending c.si && not (remote.swarm_id == [])
      then adopt_from remote (track remote c)
      else track remote c

  unfoldable pub accepts : NodeState F → Cluster → Bool
  accepts remote c =
      eqb remote.protocol_version protocol_version && guard_join c.si.swarm_id remote.swarm_id

  -- MergeRemoteState when no other call falls between its parts; `none` is a state that does not decode.
  unfoldable pub merge_remote_state : Option (NodeState F) → Cluster → Cluster
  unfolding merge_compatible accepts
  merge_remote_state none c = c
  merge_remote_state (some remote) c = if accepts remote c then merge_compatible remote c else c

  -- NotifyJoin and NotifyUpdate; `none` is a meta message that does not decode. It has no key.
  unfoldable pub notify_meta : Option MetaWire → Cluster → Cluster
  notify_meta none c = c
  notify_meta (some m) c =
      if m.node_id == [] || m.addr == []
      then c
      else record c { tbl = Routing.upsert m.node_id m.addr [] c.tbl }

  unfoldable pub notify_leave : Text → Cluster → Cluster
  notify_leave node_id c = record c {
    tbl = Routing.remove node_id c.tbl;
    peer_states = delete node_id c.peer_states;
    dead = node_id ∷ c.dead;
  }

  -- NodeMeta, with the encoder of the JSON library.
  unfoldable pub node_meta : (MetaWire → Text) → ℕ → Cluster → Text
  unfolding meta_wire
  node_meta encode limit c =
      let b = encode (meta_wire F c.local) in
      if ltb limit (length b)
      then encode (meta_wire F (record c.local { owned_sandbox_ids = [] }))
      else b

  unfoldable pub peers_known : Cluster → List (NodeState F)
  peers_known c = map (λ e. e.1) c.peer_states

  -- Leave and Shutdown tell whether the library is called.
  unfoldable pub leave : Cluster → Bool
  leave c = not c.shutdown

  unfoldable pub shut_down : Cluster → Cluster × Bool
  shut_down c = if c.shutdown then (c, false) else (record c { shutdown = true }, true)
