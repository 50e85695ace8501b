-- ===== src/Service/Publishing/Same.antt =====
-- internal/apiserver/sandboxservice.go: the steps of a publish return when the locks of the workspaces
-- are free, and leave the records, the database and the locks alone.
use sbx_swarm_node.Prelude.{
  Option, ◌≡◌, refl, ap, ◌∙◌, Bool, true, false, not, List, [], ◌∷◌, none, some, String, string_eq,
  Text, text_eq, get, contains, Result, ok, err, Option-cases, inl, inr, either_branch,
}
use sbx_swarm_node.Sandbox.Record.{Record}
use sbx_swarm_node.Sandbox.Record as Sandboxes
use sbx_swarm_node.Sandbox.Manager.{get_record}
use sbx_swarm_node.Sandbox.Manager.Healthy.{get_record_found, get_record_missing}
use sbx_swarm_node.Git.Workspace as Git
use sbx_swarm_node.Git.Workspace.Locks.{publish-Frees}
use sbx_swarm_node.Provision.Local.{Setting}
use sbx_swarm_node.Service.State.{
  Tools, ExecResult, Cause, ApiError, Service, ask, by_mgr, exec_in, emit, record_audit, git_call,
  after_git, set_lock,
}
use sbx_swarm_node.Service.Publishing.{
  Bundle, exited_well, git_target, found_target, agent_head_branch, clean_up, give_up, copied,
  bundled, staged, bundle_branches, note_publish, first_error, is_err, published_one, publish_each,
  lookup_error,
}

module _ (S : Setting) (T : Tools S) where
  abbrev pub Svc : Type 0
  Svc = Service S T

  -- Nothing has happened to the records, the database and the locks.
  abbrev pub Same : Svc → Svc → Type 0
  Same s t = (t.mgr.records ≡ s.mgr.records) × (t.mgr.faults ≡ s.mgr.faults) × (t.held ≡ s.held)

  pub Same-trans : (s t u : Svc) → Same s t → Same t u → Same s u
  Same-trans s t u h k = (k.0 ∙ h.0, k.1 ∙ h.1, k.2 ∙ h.2)

  pub clean_up-Same : (name : String) (b : Bundle S T) (s : Svc) → Same s (clean_up S T name b s)
  unfolding clean_up exec_in
  clean_up-Same name b s = (refl, refl, refl)

  copied-Same :
      (name : String) (b : Bundle S T) (s : Svc)
      (p : Result Sandboxes.Error (Unit {0}) × S.B.Daemon × S.H.World)
      → Same s (copied S T name b s p).1
  unfolding copied give_up
  copied-Same name b s (ok _, d, w) = (refl, refl, refl)
  copied-Same name b s (err e, d, w) =
      clean_up-Same name b (record s { mgr = record s.mgr { daemon = d }; world = w })

  bundled-Same :
      (name : String) (b : Bundle S T) (p : Result Sandboxes.Error ExecResult × Svc)
      → Same p.1 (bundled S T name b p).1
  unfolding bundled give_up
  bundled-Same name b (err e, s) = clean_up-Same name b s
  bundled-Same name b (ok r, s) =
      either_branch {A = Result Cause (Bundle S T) × Svc} (λ p. Same s p.1)
        (not (exited_well r.exit_code)) _ _ (clean_up-Same name b s)
        (copied-Same name b s
          (T.copy_from name b.container_path b.host_path (s.mgr.daemon, s.world)))

  staged-Same :
      (dir : Text) (name : String) (branches : List Text) (s : Svc) (p : Option Text × S.H.World)
      → Same s (staged S T dir name branches s p).1
  unfolding staged exec_in
  staged-Same dir name branches s (none, w) = (refl, refl, refl)
  staged-Same dir name branches s (some host_path, w) = bundled-Same name _ _

  -- The publish of one branch: it does not wait, and the lock is free again.
  pub git_publish-Same :
      (name : String) (g : Git.Spec) (branch path : Text) (s : Svc)
      → s.held ≡ []
      → (r : Result Git.Error (Unit {0})) × (t : Svc) × (git_call S T name
            (Git.publish S.H S.base64 g branch path)
            s
          ≡ some (r, t))
        × Same s t
  unfolding git_call set_lock
  git_publish-Same name g branch path s free =
      let (r, c, e, unlocked) =
        publish-Frees S.H S.base64 g branch path
          (record { locked = contains name s.held; world = s.world }) (ap (contains name) free) in
      (
        r,
        record s { held = set_lock S T name c.locked s.held; world = c.world },
        ap (after_git S T name s) e,
        (refl, refl, released c.locked unlocked),
      )
    where
      released : (b : Bool) → b ≡ false → set_lock S T name b s.held ≡ s.held
      released true e = cc
      released false e = rw free refl

  pub note_publish-Same :
      (id : String) (actor workspace branch : Text) (failed : Bool) (s : Svc)
      → Same s (note_publish S T id actor workspace branch failed s)
  unfolding note_publish emit record_audit
  note_publish-Same id actor workspace branch true s = (refl, refl, refl)
  note_publish-Same id actor workspace branch false s = (refl, refl, refl)

  -- The loop over the branches returns.
  pub publish_each-Same :
      (id : String) (actor : Text) (name : String) (g : Git.Spec) (path : Text) (bs : List Text)
      (failed : Option Git.Error) (s : Svc)
      → s.held ≡ []
      → (e : Option Git.Error) × (t : Svc) × (publish_each S T id actor name g path bs failed s
          ≡ some (e, t))
        × Same s t
  unfolding publish_each
  publish_each-Same id actor name g path [] failed s free = (failed, s, refl, (refl, refl, refl))
  publish_each-Same id actor name g path (b ∷ bs) failed s free =
      let (r, s1, e1, same1) = git_publish-Same name g b path s free in
      let s2 = note_publish S T id actor g.name b (is_err S T r) s1 in
      let same2 =
        Same-trans s s1 s2 same1 (note_publish-Same id actor g.name b (is_err S T r) s1) in
      let (e, t, e2, same3) =
        publish_each-Same id actor name g path bs (first_error S T failed r) s2 (same2.2 ∙ free) in
      (
        e,
        t,
        ap
              (λ o.
                published_one S T id actor g.name b failed o
                  (publish_each S T id actor name g path bs))
              e1
            ∙ (unfold published_one in e2),
        Same-trans s s2 t same2 same3,
      )

  -- A lookup of a record leaves the service as it is.
  pub ask-get :
      (id : String) (s : Svc)
      → s.mgr.faults ≡ []
      → (ask S T lookup_error (get_record S.B S.mint S.clock S.node_id id) s).1 ≡ s
  unfolding ask
  ask-get id s h = elim (Option-cases (get id s.mgr.records)) [
    | inl missing ↦
        ap (λ p. (by_mgr S T lookup_error s p).1)
          (get_record_missing S.B S.mint S.clock S.node_id id s.mgr h missing)
    | inr (r, found) ↦
        ap (λ p. (by_mgr S T lookup_error s p).1)
          (get_record_found S.B S.mint S.clock S.node_id id r s.mgr h found)
  ]

  found_target-same : (p : Result ApiError Record × Svc) → (found_target S T p).1 ≡ p.1
  unfolding found_target
  found_target-same (err e, s) = refl
  found_target-same (ok r, s) = refl

  pub git_target-same : (id : String) (s : Svc) → s.mgr.faults ≡ [] → (git_target S T id s).1 ≡ s
  unfolding git_target
  git_target-same id s h =
      found_target-same (ask S T lookup_error (get_record S.B S.mint S.clock S.node_id id) s)
      ∙ ask-get id s h

  pub bundle_branches-Same :
      (dir : Text) (name : String) (branches : List Text) (s : Svc)
      → Same s (bundle_branches S T dir name branches s).1
  unfolding bundle_branches
  bundle_branches-Same dir name branches s =
      staged-Same dir name branches s (T.create_temp dir s.world)

  pub agent_head_branch-Same : (name : String) (s : Svc) → Same s (agent_head_branch S T name s).1
  unfolding agent_head_branch exec_in
  agent_head_branch-Same name s = (refl, refl, refl)
