-- ===== src/Membership/Cluster/Cordons.antt =====
-- internal/membership/cluster.go: only SetCordoned changes whether a node says that it is cordoned.
use sbx_swarm_node.Prelude.{
  ◌≡◌, refl, ◌∙◌, Bool, true, false, ◌||◌, not, ◌&&◌, List, [], ◌∷◌, none, some, arith, Text,
  text_eq, ◌==◌, contains, Float64, if◌then◌else◌,
}
use mathlib.Core.Bool.{false≢true}
use sbx_swarm_node.Membership.NodeState.{NodeState}
use sbx_swarm_node.Membership.Cluster.{
  Cluster, write, store_revoked, next_version, readvertise, set_cordoned, update_local_sandbox_ids,
  update_local_load, update_local_templates, add_one, add_each, add_revoked, spread, revoke, track,
  adopted, adopt_from, merge_compatible, merge_remote_state, notify_meta, notify_leave, shut_down,
  is_pending, accepts,
}
use sbx_swarm_node.Membership.Cluster.Runs.{
  Step, cordon, own, load, offer, revoked, merged, folded, took_over, met, left, stopped,
}

module _ (F : Float64) where
  -- Every step but a call of SetCordoned.
  abbrev pub is_gossip : {c d : Cluster F} → Step F c d → Bool
  is_gossip (cordon _ _) = false
  is_gossip (own _ _) = true
  is_gossip (load _ _ _ _ _ _) = true
  is_gossip (offer _ _) = true
  is_gossip (revoked _ _) = true
  is_gossip (merged _ _) = true
  is_gossip (folded _ _) = true
  is_gossip (took_over _ _) = true
  is_gossip (met _ _) = true
  is_gossip (left _ _) = true
  is_gossip (stopped _) = true

  abbrev says : Cluster F → Bool
  says c = c.local.cordoned

  says-write : (c : Cluster F) → says (write F c).0 ≡ says c
  unfolding write
  says-write c = ground arith

  says-store : (id : Text) (p : Cluster F × Bool) → says (store_revoked F id p) ≡ says p.0
  unfolding store_revoked
  says-store id (c, true) = refl
  says-store id (c, false) = refl

  -- Both branches of a test say the same.
  says-either :
      (v b : Bool) (x y : Cluster F × Bool)
      → says x.0 ≡ v
      → says y.0 ≡ v
      → says (if b then x else y).0 ≡ v
  says-either v true x y h k = h
  says-either v false x y h k = k

  either : (v b : Bool) (x y : Cluster F) → says x ≡ v → says y ≡ v → says (if b then x else y) ≡ v
  either v true x y h k = h
  either v false x y h k = k

  says-add_one : (id : Text) (c : Cluster F) → says (add_one F id c).0 ≡ says c
  unfolding add_one
  says-add_one id c =
      let grown : Cluster F = record c { revoked = id ∷ c.revoked } in
      says-either (says c) (id == [] || contains id c.revoked) _ _ refl
        (says-store id (write F grown) ∙ says-write grown)

  says-add_each : (ids : List Text) (c : Cluster F) → says (add_each F ids c).0 ≡ says c
  unfolding add_each
  says-add_each [] c = refl
  says-add_each (id ∷ ids) c = says-add_each ids (add_one F id c).0 ∙ says-add_one id c

  says-add_revoked : (ids : List Text) (c : Cluster F) → says (add_revoked F ids c).0 ≡ says c
  unfolding add_revoked next_version
  says-add_revoked ids c =
      let kept = says-add_each ids c in says-either (says c) (add_each F ids c).1 _ _ kept kept

  says-spread : (p : Cluster F × Bool) → says (spread F p) ≡ says p.0
  unfolding spread
  says-spread (c, true) = refl
  says-spread (c, false) = refl

  says-track : (r : NodeState F) (c : Cluster F) → says (track F r c) ≡ says c
  unfolding track
  says-track r c = says-spread (add_revoked F r.revoked _) ∙ says-add_revoked r.revoked _

  says-adopted : (r : NodeState F) (p : Cluster F × Bool) → says (adopted F r p) ≡ says p.0
  unfolding adopted
  says-adopted r (c, true) = refl
  says-adopted r (c, false) = refl

  says-adopt_from : (r : NodeState F) (c : Cluster F) → says (adopt_from F r c) ≡ says c
  unfolding adopt_from
  says-adopt_from r c = says-adopted r _ ∙ says-write _

  says-merge_compatible : (r : NodeState F) (c : Cluster F) → says (merge_compatible F r c) ≡ says c
  unfolding merge_compatible
  says-merge_compatible r c =
      either (says c) (is_pending F c.si && not (r.swarm_id == [])) _ _
        (says-adopt_from r (track F r c) ∙ says-track r c) (says-track r c)

  either_last :
      {R : Type 0} (v b : Bool) (x y : R × Cluster F)
      → says x.1 ≡ v
      → says y.1 ≡ v
      → says (if b then x else y).1 ≡ v
  either_last v true x y h k = h
  either_last v false x y h k = k

  says-revoke : (id : Text) (c : Cluster F) → says (revoke F id c).1 ≡ says c
  unfolding revoke
  says-revoke id c = either_last (says c) (id == []) _ _ refl (
      either_last (says c) (id == c.local.node_id) _ _ refl
        (says-spread (add_revoked F (id ∷ []) c) ∙ says-add_revoked (id ∷ []) c))

  -- No call of the gossip library, no revocation and no change of what the node advertises changes
  -- whether it says that it is cordoned.
  pub gossip-cordoned :
      {c d : Cluster F} (s : Step F c d) → is_gossip s ≡ true → d.local.cordoned ≡ c.local.cordoned
  unfolding update_local_sandbox_ids update_local_load update_local_templates readvertise
      notify_leave notify_meta shut_down merge_remote_state
  gossip-cordoned (cordon b c) h = absurd (false≢true h)
  gossip-cordoned (own ids c) h = refl
  gossip-cordoned (load _ _ _ _ _ c) h = refl
  gossip-cordoned (offer ts c) h = either (says c) _ _ _ refl refl
  gossip-cordoned (revoked id c) h = says-revoke id c
  gossip-cordoned (merged none c) h = refl
  gossip-cordoned (merged (some r) c) h =
      either (says c) (accepts F r c) _ _ (says-merge_compatible r c) refl
  gossip-cordoned (folded r c) h = says-track r c
  gossip-cordoned (took_over r c) h = says-adopt_from r c
  gossip-cordoned (met none c) h = refl
  gossip-cordoned (met (some m) c) h = either (says c) _ _ _ refl refl
  gossip-cordoned (left id c) h = refl
  gossip-cordoned (stopped c) h = says-either (says c) c.shutdown _ _ refl refl

  pub set_cordoned-cordoned : (b : Bool) (c : Cluster F) → (set_cordoned F b c).local.cordoned ≡ b
  unfolding set_cordoned readvertise next_version
  set_cordoned-cordoned b c = refl
