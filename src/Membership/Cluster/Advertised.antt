-- ===== src/Membership/Cluster/Advertised.antt =====
-- internal/membership/cluster.go and revocation.go: what the local state of a node tells its peers.
use sbx_swarm_node.Prelude.{
  ◌≡◌, refl, ap, ◌∙◌, Bool, true, false, not, ◌&&◌, List, [], ◌∷◌, Option, none, some, arith, Text,
  text_eq, ◌==◌, Bool-cases, inl, inr, contains, contains-sort_texts, Float64, put,
}
use sbx_swarm_node.Routing.{Table}
use sbx_swarm_node.Membership.Identity.{SwarmIdentity, adopt}
use sbx_swarm_node.Membership.NodeState.{NodeState}
use sbx_swarm_node.Membership.Cluster.{
  Cluster, write, add_one, add_each, add_revoked, spread, is_revoked, next_version, readvertise,
  store_revoked, set_cordoned, update_local_sandbox_ids, update_local_load, update_local_templates,
  revoke, track, adopted, adopt_from, merge_compatible, accepts, merge_remote_state, notify_meta,
  notify_leave, shut_down, is_pending, new_cluster, seeded,
}
use sbx_swarm_node.Membership.Cluster.Revocation.{
  add_each-revoked, spread-revoked, spread-local, IsAdvertised,
}
use sbx_swarm_node.Membership.Cluster.Runs.{
  Step, Reach, cordon, own, load, offer, revoked, merged, folded, took_over, met, left, stopped,
  here, next, templates-same, shut_down-same, notify_meta-same,
}

module _ (F : Float64) where
  IsAdvertised-same :
      (c d : Cluster F)
      → d.revoked ≡ c.revoked
      → d.local.revoked ≡ c.local.revoked
      → IsAdvertised F c
      → IsAdvertised F d
  unfolding is_revoked
  IsAdvertised-same c d r l v = record {
    carries = λ j. rw (r, l) (v.carries j);
    no_empty = rw r v.no_empty;
  }

  write-local : (c : Cluster F) → (write F c).0.local ≡ c.local
  unfolding write
  write-local c = ground arith

  write-revoked : (c : Cluster F) → (write F c).0.revoked ≡ c.revoked
  unfolding write
  write-revoked c = ground arith

  store_revoked-local :
      (id : Text) (p : Cluster F × Bool) → (store_revoked F id p).local ≡ p.0.local
  unfolding store_revoked
  store_revoked-local id (c, true) = refl
  store_revoked-local id (c, false) = refl

  add_one-same : (id : Text) (c : Cluster F) → (add_one F id c).1 ≡ false → (add_one F id c).0 ≡ c
  unfolding add_one
  add_one-same id c h = ground arith

  add_each-same :
      (ids : List Text) (c : Cluster F) → (add_each F ids c).1 ≡ false → (add_each F ids c).0 ≡ c
  unfolding add_each
  add_each-same [] c h = refl
  add_each-same (id ∷ ids) c h =
      add_each-same ids (add_one F id c).0 (ground arith) ∙ add_one-same id c (ground arith)

  add_revoked-IsAdvertised :
      (ids : List Text) (c : Cluster F) → IsAdvertised F c → IsAdvertised F (add_revoked F ids c).0
  unfolding add_revoked is_revoked next_version
  add_revoked-IsAdvertised ids c v = elim (Bool-cases (add_each F ids c).1) [
    | inl e ↦ rw e (record {
      carries = λ j. contains-sort_texts j (add_each F ids c).0.revoked;
      no_empty = add_each-revoked F [] ids c ∙ rw v.no_empty refl;
    })
    | inr e ↦ rw (e, add_each-same ids c e) v
  ]

  spread-IsAdvertised : (p : Cluster F × Bool) → IsAdvertised F p.0 → IsAdvertised F (spread F p)
  spread-IsAdvertised p v =
      IsAdvertised-same p.0 (spread F p) (spread-revoked F p)
        (ap (λ n. n.revoked) (spread-local F p)) v

  track-IsAdvertised :
      (remote : NodeState F) (c : Cluster F) → IsAdvertised F c → IsAdvertised F (track F remote c)
  unfolding track
  track-IsAdvertised remote c v =
      let known : Cluster F = record c { peer_states = put remote.node_id remote c.peer_states } in
      let told : Cluster F = spread F (add_revoked F remote.revoked known) in
      IsAdvertised-same told (track F remote c) refl refl (
        spread-IsAdvertised (add_revoked F remote.revoked known)
          (add_revoked-IsAdvertised remote.revoked known (IsAdvertised-same c known refl refl v)))

  adopted-same :
      (remote : NodeState F) (p : Cluster F × Bool)
      → ((adopted F remote p).revoked ≡ p.0.revoked)
        × ((adopted F remote p).local.revoked ≡ p.0.local.revoked)
  unfolding adopted
  adopted-same remote (c, true) = (refl, refl)
  adopted-same remote (c, false) = (refl, refl)

  adopt_from-IsAdvertised :
      (remote : NodeState F) (c : Cluster F)
      → IsAdvertised F c
      → IsAdvertised F (adopt_from F remote c)
  unfolding adopt_from
  adopt_from-IsAdvertised remote c v =
      let named : Cluster F = record c { si = adopt remote.swarm_id remote.swarm_name c.si } in
      let same = adopted-same remote (write F named) in
      IsAdvertised-same c (adopt_from F remote c) (same.0 ∙ write-revoked named)
        (same.1 ∙ ap (λ n. n.revoked) (write-local named)) v

  merge_remote_state-IsAdvertised :
      (remote : Option (NodeState F)) (c : Cluster F)
      → IsAdvertised F c
      → IsAdvertised F (merge_remote_state F remote c)
  unfolding merge_remote_state merge_compatible
  merge_remote_state-IsAdvertised none c v = v
  merge_remote_state-IsAdvertised (some remote) c v = elim (Bool-cases (accepts F remote c)) [
    | inr e ↦ rw e v
    | inl e ↦ elim (Bool-cases (is_pending F c.si && not (remote.swarm_id == []))) [
      | inl p ↦
          rw (e, p)
            (adopt_from-IsAdvertised remote (track F remote c) (track-IsAdvertised remote c v))
      | inr p ↦ rw (e, p) (track-IsAdvertised remote c v)
    ]
  ]

  revoke-IsAdvertised :
      (id : Text) (c : Cluster F) → IsAdvertised F c → IsAdvertised F (revoke F id c).1
  unfolding revoke
  revoke-IsAdvertised id c v = elim (Bool-cases (id == [])) [
    | inl e ↦ rw e v
    | inr e ↦ elim (Bool-cases (id == c.local.node_id)) [
      | inl s ↦ rw (e, s) v
      | inr s ↦
          rw (e, s)
            (spread-IsAdvertised (add_revoked F (id ∷ []) c)
              (add_revoked-IsAdvertised (id ∷ []) c v))
    ]
  ]

  keeps_IsAdvertised : {c d : Cluster F} → Step F c d → IsAdvertised F c → IsAdvertised F d
  unfolding set_cordoned update_local_sandbox_ids update_local_load notify_leave readvertise
      next_version
  keeps_IsAdvertised (cordon b c) v = IsAdvertised-same c (set_cordoned F b c) refl refl v
  keeps_IsAdvertised (own ids c) v =
      IsAdvertised-same c (update_local_sandbox_ids F ids c) refl refl v
  keeps_IsAdvertised (load x y z s t c) v =
      IsAdvertised-same c (update_local_load F x y z s t c) refl refl v
  keeps_IsAdvertised (offer ts c) v =
      let same = templates-same F ts c in
      IsAdvertised-same c (update_local_templates F ts c) same.0 same.1 v
  keeps_IsAdvertised (revoked id c) v = revoke-IsAdvertised id c v
  keeps_IsAdvertised (merged r c) v = merge_remote_state-IsAdvertised r c v
  keeps_IsAdvertised (folded r c) v = track-IsAdvertised r c v
  keeps_IsAdvertised (took_over r c) v = adopt_from-IsAdvertised r c v
  keeps_IsAdvertised (met m c) v =
      let same = notify_meta-same F m c in IsAdvertised-same c (notify_meta F m c) same.0 same.1 v
  keeps_IsAdvertised (left id c) v = IsAdvertised-same c (notify_leave F id c) refl refl v
  keeps_IsAdvertised (stopped c) v =
      let same = shut_down-same F c in IsAdvertised-same c (shut_down F c).0 same.0 same.1 v

  new_cluster-IsAdvertised :
      (local : NodeState F) (tbl : Table) (si : SwarmIdentity) (stored : List Text)
      (faults : List Bool)
      → local.revoked ≡ []
      → contains [] stored ≡ false
      → IsAdvertised F (new_cluster F local tbl si stored faults)
  unfolding new_cluster seeded is_revoked
  new_cluster-IsAdvertised local tbl si [] faults h h' = record {
    carries = λ j. ap (contains j) h;
    no_empty = refl;
  }
  new_cluster-IsAdvertised local tbl si (id ∷ ids) faults h h' = record {
    carries = λ j. contains-sort_texts j (id ∷ ids);
    no_empty = h';
  }

  -- A node that starts with a fresh local state, and with the revocations stored on its disk,
  -- advertises at any later moment exactly what is on its list, whatever its own operations and the
  -- gossip library's calls were, merges that overlap included.
  pub runs_advertise :
      (local : NodeState F) (tbl : Table) (si : SwarmIdentity) (stored : List Text)
      (faults : List Bool) (d : Cluster F)
      → local.revoked ≡ []
      → contains [] stored ≡ false
      → Reach F (new_cluster F local tbl si stored faults) d
      → IsAdvertised F d
  runs_advertise local tbl si stored faults d h h' r = go r
    where
      go : {e : Cluster F} → Reach F (new_cluster F local tbl si stored faults) e → IsAdvertised F e
      go here = new_cluster-IsAdvertised local tbl si stored faults h h'
      go (next r s) = keeps_IsAdvertised s (go r)
