-- ===== src/Membership/Cluster/Runs.antt =====
-- internal/membership/cluster.go and revocation.go: a run of a node is a sequence of its own
-- operations and of the gossip library's calls, in any order.
use sbx_swarm_node.Prelude.{
  ◌≡◌, refl, Bool, true, ◌||◌, List, Option, none, some, arith, Text, text_eq, Float64,
}
use sbx_swarm_node.Membership.NodeState.{NodeState, MetaWire}
use sbx_swarm_node.Membership.Cluster.{
  Cluster, is_revoked, readvertise, set_cordoned, update_local_sandbox_ids, update_local_load,
  update_local_templates, revoke, track, adopt_from, merge_remote_state, notify_meta, notify_leave,
  shut_down,
}
use sbx_swarm_node.Membership.Cluster.Revocation.{
  track-revoked, adopt_from-revoked, merge_remote_state-revoked, revoke-revoked,
}

module _ (F : Float64) where
  -- MergeRemoteState holds the mutex to read the swarm id for its guard, again to remember the peer and
  -- fold in its revocations, and again behind the adoption. Other calls, another merge included, may
  -- come in between, so the parts behind the guard are also steps by themselves, at any moment.
  pub data Step : Cluster F → Cluster F → Type 0 where
    cordon : (b : Bool) (c : Cluster F) → Step c (set_cordoned F b c)
    own : (ids : List Text) (c : Cluster F) → Step c (update_local_sandbox_ids F ids c)
    load :
        (cpu mem disk util_cpu util_mem : F.Carrier) (c : Cluster F)
        → Step c (update_local_load F cpu mem disk util_cpu util_mem c)
    offer : (templates : List Text) (c : Cluster F) → Step c (update_local_templates F templates c)
    revoked : (id : Text) (c : Cluster F) → Step c (revoke F id c).1
    merged :
        (remote : Option (NodeState F)) (c : Cluster F) → Step c (merge_remote_state F remote c)
    folded : (remote : NodeState F) (c : Cluster F) → Step c (track F remote c)
    took_over : (remote : NodeState F) (c : Cluster F) → Step c (adopt_from F remote c)
    met : (meta : Option MetaWire) (c : Cluster F) → Step c (notify_meta F meta c)
    left : (id : Text) (c : Cluster F) → Step c (notify_leave F id c)
    stopped : (c : Cluster F) → Step c (shut_down F c).0

  pub data Reach (c : Cluster F) : Cluster F → Type 0 where
    here : Reach c c
    next : {d e : Cluster F} → Reach c d → Step d e → Reach c e

  pub templates-same :
      (templates : List Text) (c : Cluster F)
      → ((update_local_templates F templates c).revoked ≡ c.revoked)
        × ((update_local_templates F templates c).local.revoked ≡ c.local.revoked)
        × ((update_local_templates F templates c).si ≡ c.si)
        × ((update_local_templates F templates c).peer_states ≡ c.peer_states)
  unfolding update_local_templates readvertise
  templates-same templates c = ground arith

  pub shut_down-same :
      (c : Cluster F)
      → ((shut_down F c).0.revoked ≡ c.revoked)
        × ((shut_down F c).0.local.revoked ≡ c.local.revoked)
        × ((shut_down F c).0.si ≡ c.si)
        × ((shut_down F c).0.peer_states ≡ c.peer_states)
  unfolding shut_down
  shut_down-same c = ground arith

  pub notify_meta-same :
      (meta : Option MetaWire) (c : Cluster F)
      → ((notify_meta F meta c).revoked ≡ c.revoked)
        × ((notify_meta F meta c).local.revoked ≡ c.local.revoked)
        × ((notify_meta F meta c).si ≡ c.si)
        × ((notify_meta F meta c).peer_states ≡ c.peer_states)
  unfolding notify_meta
  notify_meta-same none c = (refl, refl, refl, refl)
  notify_meta-same (some m) c = ground arith

  or_true : (x a b : Bool) → x ≡ (a || b) → a ≡ true → x ≡ true
  or_true x a b e h = ground (arith, e, h)

  keeps_revoked :
      (j : Text) {c d : Cluster F} → Step c d → is_revoked F j c ≡ true → is_revoked F j d ≡ true
  unfolding is_revoked set_cordoned update_local_sandbox_ids update_local_load notify_leave
      readvertise merge_remote_state
  keeps_revoked j (cordon b c) h = h
  keeps_revoked j (own ids c) h = h
  keeps_revoked j (load _ _ _ _ _ c) h = h
  keeps_revoked j (offer ts c) h = rw ((templates-same ts c).0) h
  keeps_revoked j (revoked id c) h = or_true _ _ _ (revoke-revoked F j id c) h
  keeps_revoked j (merged none c) h = h
  keeps_revoked j (merged (some r) c) h = or_true _ _ _ (merge_remote_state-revoked F j r c) h
  keeps_revoked j (folded r c) h = or_true _ _ _ (unfold is_revoked in track-revoked F j r c) h
  keeps_revoked j (took_over r c) h = rw (adopt_from-revoked F r c) h
  keeps_revoked j (met m c) h = rw ((notify_meta-same m c).0) h
  keeps_revoked j (left id c) h = h
  keeps_revoked j (stopped c) h = rw ((shut_down-same c).0) h

  -- A revocation is never taken back: what a node has on its list it has there after any further
  -- operations and calls of the gossip library.
  pub revoked_forever :
      (j : Text) (c d : Cluster F) → Reach c d → is_revoked F j c ≡ true → is_revoked F j d ≡ true
  revoked_forever j c d r h = go r
    where
      go : {e : Cluster F} → Reach c e → is_revoked F j e ≡ true
      go here = h
      go (next r s) = keeps_revoked j s (go r)
