-- ===== src/Membership/Cluster/Revocation.antt =====
-- internal/membership/revocation.go: what a cluster has revoked after each operation.
use sbx_swarm_node.Prelude.{
  ◌≡◌, refl, ap, ◌∙◌, Bool, true, false, not, ◌&&◌, ◌||◌, List, [], ◌∷◌, some, arith, Text, text_eq,
  ◌==◌, ==_iff, Bool-cases, inl, inr, contains, Float64, put,
}
use sbx_swarm_node.Membership.Identity.{adopt}
use sbx_swarm_node.Membership.NodeState.{NodeState}
use sbx_swarm_node.Membership.Cluster.{
  Cluster, write, store_revoked, add_one, add_each, add_revoked, spread, is_revoked, track, adopted,
  adopt_from, is_pending, revoke, merge_compatible, accepts, merge_remote_state,
}

module _ (F : Float64) where
  abbrev pub carried : Text → List Text → Bool
  carried j ids = not (j == []) && contains j ids

  store_revoked-revoked :
      (id : Text) (p : Cluster F × Bool) → (store_revoked F id p).revoked ≡ p.0.revoked
  unfolding store_revoked
  store_revoked-revoked id (c, true) = refl
  store_revoked-revoked id (c, false) = refl

  write-revoked : (c : Cluster F) → (write F c).0.revoked ≡ c.revoked
  unfolding write
  write-revoked c = ground arith

  add_one-revoked :
      (j id : Text) (c : Cluster F)
      → contains j (add_one F id c).0.revoked ≡ (contains j c.revoked || carried j (id ∷ []))
  unfolding add_one
  add_one-revoked j id c = elim (Bool-cases (id == [] || contains id c.revoked)) [
    | inl e ↦ rw e (ground (arith, e, ==_iff id j, ==_iff id [], ==_iff j []))
    | inr e ↦
        rw
          (
            e,
            store_revoked-revoked id (write F (record c { revoked = id ∷ c.revoked })),
            write-revoked (record c { revoked = id ∷ c.revoked }),
          )
          (ground (arith, e, ==_iff id j, ==_iff id [], ==_iff j []))
  ]

  pub add_each-revoked :
      (j : Text) (ids : List Text) (c : Cluster F)
      → contains j (add_each F ids c).0.revoked ≡ (contains j c.revoked || carried j ids)
  unfolding add_each
  add_each-revoked j [] c = ground arith
  add_each-revoked j (id ∷ ids) c =
      add_each-revoked j ids (add_one F id c).0 ∙ ground (arith, add_one-revoked j id c)

  -- A record of ids that was revoked before or is carried, and not the empty one.
  pub add_revoked-revoked :
      (j : Text) (ids : List Text) (c : Cluster F)
      → is_revoked F j (add_revoked F ids c).0 ≡ (is_revoked F j c || carried j ids)
  unfolding add_revoked is_revoked
  add_revoked-revoked j ids c = elim (Bool-cases (add_each F ids c).1) [
    | inl e ↦ rw e (add_each-revoked j ids c)
    | inr e ↦ rw e (add_each-revoked j ids c)
  ]

  pub spread-revoked : (p : Cluster F × Bool) → (spread F p).revoked ≡ p.0.revoked
  unfolding spread
  spread-revoked (c, true) = refl
  spread-revoked (c, false) = refl

  pub spread-local : (p : Cluster F × Bool) → (spread F p).local ≡ p.0.local
  unfolding spread
  spread-local (c, true) = refl
  spread-local (c, false) = refl

  pub track-revoked :
      (j : Text) (remote : NodeState F) (c : Cluster F)
      → is_revoked F j (track F remote c) ≡ (is_revoked F j c || carried j remote.revoked)
  unfolding track is_revoked
  track-revoked j remote c =
      let known = record c { peer_states = put remote.node_id remote c.peer_states } in
      ap (contains j) (spread-revoked (add_revoked F remote.revoked known))
      ∙ (unfold is_revoked in add_revoked-revoked j remote.revoked known)

  adopted-revoked :
      (remote : NodeState F) (p : Cluster F × Bool) → (adopted F remote p).revoked ≡ p.0.revoked
  unfolding adopted
  adopted-revoked remote (c, true) = refl
  adopted-revoked remote (c, false) = refl

  pub adopt_from-revoked :
      (remote : NodeState F) (c : Cluster F) → (adopt_from F remote c).revoked ≡ c.revoked
  unfolding adopt_from
  adopt_from-revoked remote c =
      let named = record c { si = adopt remote.swarm_id remote.swarm_name c.si } in
      adopted-revoked remote (write F named) ∙ write-revoked named

  merge_compatible-revoked :
      (j : Text) (remote : NodeState F) (c : Cluster F)
      → is_revoked F j (merge_compatible F remote c)
        ≡ (is_revoked F j c || carried j remote.revoked)
  unfolding merge_compatible is_revoked
  merge_compatible-revoked j remote c =
      elim (Bool-cases (is_pending F c.si && not (remote.swarm_id == []))) [
        | inl e ↦
            rw (e, adopt_from-revoked remote (track F remote c))
              (unfold is_revoked in track-revoked j remote c)
        | inr e ↦ rw e (unfold is_revoked in track-revoked j remote c)
      ]

  -- After a merge a node is revoked if it was before, or if the peer's state was accepted and
  -- carries it, and in no other case.
  pub merge_remote_state-revoked :
      (j : Text) (remote : NodeState F) (c : Cluster F)
      → is_revoked F j (merge_remote_state F (some remote) c)
        ≡ (is_revoked F j c || (accepts F remote c && carried j remote.revoked))
  unfolding merge_remote_state
  merge_remote_state-revoked j remote c = elim (Bool-cases (accepts F remote c)) [
    | inl e ↦ rw e (merge_compatible-revoked j remote c)
    | inr e ↦ rw e (ground arith)
  ]

  -- After Revoke exactly the named node is new on the list, unless it is the node itself.
  pub revoke-revoked :
      (j id : Text) (c : Cluster F)
      → is_revoked F j (revoke F id c).1
        ≡ (is_revoked F j c || (not (id == c.local.node_id) && carried j (id ∷ [])))
  unfolding revoke is_revoked
  revoke-revoked j id c = elim (Bool-cases (id == [])) [
    | inl e ↦ rw e (ground (arith, e, ==_iff id j, ==_iff id [], ==_iff j []))
    | inr e ↦ elim (Bool-cases (id == c.local.node_id)) [
      | inl s ↦ rw (e, s) (ground arith)
      | inr s ↦
          rw (e, s)
            (ap (contains j) (spread-revoked (add_revoked F (id ∷ []) c))
              ∙ (unfold is_revoked in add_revoked-revoked j (id ∷ []) c))
    ]
  ]

  -- The local state carries exactly the revoked ids, and the empty id is none of them.
  pub record IsAdvertised (c : Cluster F) : Type 0 where
    pub carries : (j : Text) → contains j c.local.revoked ≡ is_revoked F j c
    pub no_empty : is_revoked F [] c ≡ false

  -- Two nodes that accept each other's states know the same revocations once each has merged the
  -- state that the other advertised before: those that either of them knew.
  pub exchange_converges :
      (a b : Cluster F)
      → IsAdvertised a
      → IsAdvertised b
      → accepts F b.local a ≡ true
      → accepts F a.local b ≡ true
      → (j : Text)
      → (is_revoked F j (merge_remote_state F (some b.local) a)
          ≡ (is_revoked F j a || is_revoked F j b))
        × (is_revoked F j (merge_remote_state F (some a.local) b)
            ≡ (is_revoked F j a || is_revoked F j b))
  exchange_converges a b va vb ab ba j =
      let na : (j == []) ≡ true → is_revoked F j a ≡ false =
        λ e. rw ((==_iff j []).0 e) va.no_empty in
      let nb : (j == []) ≡ true → is_revoked F j b ≡ false =
        λ e. rw ((==_iff j []).0 e) vb.no_empty in
      (
        merge_remote_state-revoked j b.local a ∙ rw (ab, vb.carries j) (ground (arith, nb)),
        merge_remote_state-revoked j a.local b ∙ rw (ba, va.carries j) (ground (arith, na)),
      )
