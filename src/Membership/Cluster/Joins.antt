-- ===== src/Membership/Cluster/Joins.antt =====
-- internal/membership/cluster.go and identity.go: how a node that waits to join gets its swarm.
use sbx_swarm_node.Prelude.{
  ◌≡◌, refl, ◌∙◌, Bool, true, false, List, [], ◌∷◌, some, arith, Text, text_eq, nat_eq, ◌==◌,
  Bool-cases, inl, inr, Float64, put,
}
use sbx_swarm_node.Membership.Identity.{adopt, guard_join, rejoin}
use sbx_swarm_node.Membership.NodeState.{NodeState}
use sbx_swarm_node.Membership.Cluster.{
  Cluster, write, add_one, add_each, add_revoked, spread, store_revoked, track, adopted, adopt_from,
  merge_compatible, accepts, merge_remote_state, is_pending, protocol_version,
}

module _ (F : Float64) where
  add_one-faults : (id : Text) (c : Cluster F) → c.faults ≡ [] → (add_one F id c).0.faults ≡ []
  unfolding add_one store_revoked write
  add_one-faults id c h = ground arith

  add_each-faults :
      (ids : List Text) (c : Cluster F) → c.faults ≡ [] → (add_each F ids c).0.faults ≡ []
  unfolding add_each
  add_each-faults [] c h = h
  add_each-faults (id ∷ ids) c h = add_each-faults ids (add_one F id c).0 (add_one-faults id c h)

  add_revoked-faults :
      (ids : List Text) (c : Cluster F) → c.faults ≡ [] → (add_revoked F ids c).0.faults ≡ []
  unfolding add_revoked
  add_revoked-faults ids c h = elim (Bool-cases (add_each F ids c).1) [
    | inl e ↦ rw e (add_each-faults ids c h)
    | inr e ↦ rw e (add_each-faults ids c h)
  ]

  spread-faults : (p : Cluster F × Bool) → (spread F p).faults ≡ p.0.faults
  unfolding spread
  spread-faults (c, true) = refl
  spread-faults (c, false) = refl

  track-faults :
      (remote : NodeState F) (c : Cluster F) → c.faults ≡ [] → (track F remote c).faults ≡ []
  unfolding track
  track-faults remote c h =
      let known : Cluster F = record c { peer_states = put remote.node_id remote c.peer_states } in
      spread-faults (add_revoked F remote.revoked known) ∙ add_revoked-faults remote.revoked known h

  write-succeeds : (c : Cluster F) → c.faults ≡ [] → write F c ≡ (c, true)
  unfolding write
  write-succeeds c h = ground arith

  -- A node that waits to join without a swarm id, and whose writes to the disk succeed, has the
  -- swarm id and name of the first peer of its protocol version that has one as soon as it merges
  -- that peer's state: it advertises the id, and waits no longer.
  pub pending_joins :
      (remote : NodeState F) (c : Cluster F)
      → is_pending F c.si ≡ true
      → c.si.swarm_id ≡ []
      → c.faults ≡ []
      → remote.protocol_version ≡ protocol_version
      → (remote.swarm_id == []) ≡ false
      → ((merge_remote_state F (some remote) c).si
          ≡ record { swarm_id = remote.swarm_id; swarm_name = remote.swarm_name; mode = rejoin })
        × ((merge_remote_state F (some remote) c).local.swarm_id ≡ remote.swarm_id)
        × (is_pending F (merge_remote_state F (some remote) c).si ≡ false)
  unfolding merge_remote_state merge_compatible accepts guard_join adopt_from adopted adopt
      is_pending
  pending_joins remote c p e f v n =
      let accepted : accepts F remote c ≡ true = rw (e, v) refl in
      let named : Cluster F = record (track F remote c) {
        si = adopt remote.swarm_id remote.swarm_name (track F remote c).si;
      } in
      rw (accepted, p, n, write-succeeds named (track-faults remote c f)) (refl, refl, refl)
