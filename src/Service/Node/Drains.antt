-- ===== src/Service/Node/Drains.antt =====
-- internal/apiserver/nodeservice.go: the runs of a node's service, across restarts.
use sbx_swarm_node.Prelude.{
  ◌≡◌, refl, sym, ap, ◌∙◌, Bool, true, false, List, [], ◌∷◌, Option, none, some, Text, text_eq,
  arith, subst, length, Float64, if◌then◌else◌, not,
}
use sbx_swarm_node.Membership.Cluster.{Cluster, set_cordoned}
use sbx_swarm_node.Membership.Cluster.Runs as Gossip
use sbx_swarm_node.Membership.Cluster.Cordons.{is_gossip, gossip-cordoned, set_cordoned-cordoned}
use sbx_swarm_node.Service.Node.{
  NodeFlags, NodeService, Loaded, missing, found, load_node_flags, mirror, written, save_flags,
  cordon, uncordon, drain, actor_or_system, start_sweep, end_sweep, boot, restored_cluster,
}

module _ (F : Float64) where
  -- What the store has for the flags, when it can be read.
  abbrev pub loaded : Option NodeFlags → Loaded
  loaded none = missing
  loaded (some f) = found f

  -- A step of the service: a call, the end of a sweep, a change in the cluster that is none of the
  -- service, or a restart, with a cluster that does not know of the cordon.
  pub data Step : NodeService F → NodeService F → Type 0 where
    cordoned : (s : NodeService F) → Step s (cordon F s).1
    uncordoned : (s : NodeService F) → Step s (uncordon F s).1
    drained : (actor : Text) (s : NodeService F) → Step s (drain F actor s).1
    swept :
        (s : NodeService F) (actor : Text) (rest : List Text)
        → s.sweeps ≡ actor ∷ rest
        → Step s (end_sweep F rest s)
    gossiped :
        (s : NodeService F) (c d : Cluster F) (g : Gossip.Step F c d)
        → is_gossip F g ≡ true
        → s.cluster ≡ some c
        → Step s (record s { cluster = some d })
    restarted :
        (s : NodeService F) (cl : Option (Cluster F))
        → ((c : Cluster F) → cl ≡ some c → c.local.cordoned ≡ false)
        → Step s (boot F s.node_id s.node_name s.version (loaded s.stored) s.stored s.faults cl)

  pub data Reach (s : NodeService F) : NodeService F → Type 0 where
    here : Reach s s
    next : {t u : NodeService F} → Reach s t → Step t u → Reach s u

  -- A draining node is cordoned; the cluster says so exactly when the node is; one sweep runs if the
  -- service says so, and none otherwise.
  pub record IsConsistent (s : NodeService F) : Type 0 where
    pub drains : s.draining ≡ true → s.cordoned ≡ true
    pub mirrors : (c : Cluster F) → s.cluster ≡ some c → c.local.cordoned ≡ s.cordoned
    pub sweeps_one : length s.sweeps ≡ (if s.sweeping then 1 else 0)
    -- What is stored was once the state of the service.
    pub stores : (f : NodeFlags) → s.stored ≡ some f → f.draining ≡ true → f.cordoned ≡ true

  mirror-says :
      (v : Bool) (cl : Option (Cluster F)) (c : Cluster F)
      → mirror F v cl ≡ some c
      → c.local.cordoned ≡ v
  unfolding mirror
  mirror-says v none c e = cc
  mirror-says v (some d) c e =
      let same : c ≡ set_cordoned F v d = cc in
      ap (λ x. x.local.cordoned) same ∙ set_cordoned-cordoned F v d

  abbrev IsLegal : NodeFlags → Type 0
  IsLegal f = f.draining ≡ true → f.cordoned ≡ true

  written-IsLegal :
      (f : NodeFlags) (old : Option NodeFlags) (faults : List Bool)
      → IsLegal f
      → ((g : NodeFlags) → old ≡ some g → IsLegal g)
      → (g : NodeFlags) → (written F f old faults).0 ≡ some g
      → IsLegal g
  unfolding written
  written-IsLegal f old [] l h g e = let same : f ≡ g = cc in subst IsLegal same l
  written-IsLegal f old (true ∷ _) l h g e = h g e
  written-IsLegal f old (false ∷ _) l h g e = let same : f ≡ g = cc in subst IsLegal same l

  save_flags-IsConsistent : (s : NodeService F) → IsConsistent s → IsConsistent (save_flags F s)
  unfolding save_flags
  save_flags-IsConsistent s h = record {
    drains = h.drains;
    mirrors = h.mirrors;
    sweeps_one = h.sweeps_one;
    stores =
        written-IsLegal (record { cordoned = s.cordoned; draining = s.draining }) s.stored s.faults
          h.drains h.stores;
  }

  -- The flags are set, and the cluster is told.
  set-IsConsistent :
      (c d : Bool) (s : NodeService F)
      → IsConsistent s
      → (d ≡ true → c ≡ true)
      → IsConsistent (record s { cordoned = c; draining = d; cluster = mirror F c s.cluster })
  set-IsConsistent c d s h legal = record {
    drains = legal;
    mirrors = mirror-says c s.cluster;
    sweeps_one = h.sweeps_one;
    stores = h.stores;
  }

  sweep_unless :
      (actor : Text) (s : NodeService F) (b : Bool)
      → s.sweeping ≡ b
      → IsConsistent s
      → IsConsistent (if not b then record s { sweeping = true; sweeps = actor ∷ s.sweeps } else s)
  sweep_unless actor s true e h = h
  sweep_unless actor s false e h = record {
    drains = h.drains;
    mirrors = h.mirrors;
    sweeps_one =
        let none_runs : length s.sweeps ≡ 0 = h.sweeps_one ∙ ap (λ b. if b then 1 else 0) e in
        omega arith;
    stores = h.stores;
  }

  start_sweep-IsConsistent :
      (actor : Text) (s : NodeService F) → IsConsistent s → IsConsistent (start_sweep F actor s)
  unfolding start_sweep
  start_sweep-IsConsistent actor s h = sweep_unless (actor_or_system F actor) s s.sweeping refl h

  restored-mirrors :
      (v : Bool) (cl : Option (Cluster F))
      → ((c : Cluster F) → cl ≡ some c → c.local.cordoned ≡ false)
      → (c : Cluster F) → restored_cluster F v cl ≡ some c
      → c.local.cordoned ≡ v
  unfolding restored_cluster
  restored-mirrors true cl h c e = mirror-says true cl c e
  restored-mirrors false cl h c e = h c e

  loaded-IsLegal :
      (stored : Option NodeFlags)
      → ((f : NodeFlags) → stored ≡ some f → IsLegal f)
      → IsLegal (load_node_flags (loaded stored))
  unfolding load_node_flags
  loaded-IsLegal none h = λ d. d
  loaded-IsLegal (some f) h = h f refl

  end_sweep-IsConsistent :
      (s : NodeService F) (actor : Text) (rest : List Text)
      → s.sweeps ≡ actor ∷ rest
      → IsConsistent s
      → IsConsistent (end_sweep F rest s)
  unfolding end_sweep
  end_sweep-IsConsistent s actor rest e h = record {
    drains = h.drains;
    mirrors = h.mirrors;
    sweeps_one = ended s.sweeping (ap length (sym e) ∙ h.sweeps_one);
    stores = h.stores;
  }
    where
      ended : (b : Bool) → length (actor ∷ rest) ≡ (if b then 1 else 0) → length rest ≡ 0
      ended true e = omega arith
      ended false e = absurd (omega arith)

  boot-IsConsistent :
      (id name version : Text) (stored : Option NodeFlags) (faults : List Bool)
      (cl : Option (Cluster F))
      → ((f : NodeFlags) → stored ≡ some f → IsLegal f)
      → ((c : Cluster F) → cl ≡ some c → c.local.cordoned ≡ false)
      → IsConsistent (boot F id name version (loaded stored) stored faults cl)
  unfolding boot
  boot-IsConsistent id name version stored faults cl legal fresh = record {
    drains = loaded-IsLegal stored legal;
    mirrors = restored-mirrors _ cl fresh;
    sweeps_one = refl;
    stores = legal;
  }

  keeps_IsConsistent : {s t : NodeService F} → Step s t → IsConsistent s → IsConsistent t
  keeps_IsConsistent (cordoned s) h =
      unfold cordon in save_flags-IsConsistent _ (set-IsConsistent true s.draining s h (λ d. refl))
  keeps_IsConsistent (uncordoned s) h =
      unfold uncordon in save_flags-IsConsistent _ (set-IsConsistent false false s h (λ d. d))
  keeps_IsConsistent (drained actor s) h =
      unfold drain in
      start_sweep-IsConsistent actor _
        (save_flags-IsConsistent _ (set-IsConsistent true true s h (λ d. refl)))
  keeps_IsConsistent (swept s actor rest e) h = end_sweep-IsConsistent s actor rest e h
  keeps_IsConsistent (gossiped s c d g quiet e) h = record {
    drains = h.drains;
    mirrors = λ x same.
        let now : x ≡ d = cc in
        ap (λ y. y.local.cordoned) now ∙ gossip-cordoned F g quiet ∙ h.mirrors c e;
    sweeps_one = h.sweeps_one;
    stores = h.stores;
  }
  keeps_IsConsistent (restarted s cl fresh) h =
      boot-IsConsistent s.node_id s.node_name s.version s.stored s.faults cl h.stores fresh

  -- In every run of a node's service from a consistent state, across restarts and whatever the cluster
  -- does meanwhile, a draining node is cordoned, the cluster says of the node what the node knows of
  -- its cordon, and at most one sweep runs, exactly when the service says so.
  pub run-IsConsistent : (s t : NodeService F) → IsConsistent s → Reach s t → IsConsistent t
  run-IsConsistent s t h r = go r
    where
      go : {u : NodeService F} → Reach s u → IsConsistent u
      go here = h
      go (next r step) = keeps_IsConsistent step (go r)
