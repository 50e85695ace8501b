-- ===== src/Service/PublishWork/Guards.antt =====
-- internal/apiserver/publish_work.go: the lock of the workspace, and work that may not be pushed.
use sbx_swarm_node.Prelude.{
  ◌≡◌, refl, ap, ◌∙◌, Bool, true, false, not, List, [], ◌∷◌, Option, none, some, String, string_eq,
  Text, text_eq, ◌==◌, ==_refl, contains, keep, Result, ok, err, either_branch,
}
use sbx_swarm_node.Sandbox.Record.{Record}
use sbx_swarm_node.Git.Workspace as Git
use sbx_swarm_node.Git.Workspace.Locks.{ensure_base-Frees, fetch_from_bundle-Hands, succeeded}
use sbx_swarm_node.Provision.Local.{Setting}
use sbx_swarm_node.GitProvider.Provider.{Strings}
use sbx_swarm_node.GitProvider.Strategies.{PublishResult, Error}
use sbx_swarm_node.GitProvider.Rest.{Web}
use sbx_swarm_node.Service.State.{Tools, Cause, ApiError, Service, git_call, after_git, set_lock}
use sbx_swarm_node.Service.Publishing.{
  Bundle, Target, git_target, agent_head_branch, bundle_branches, is_err,
}
use sbx_swarm_node.Service.Publishing.Same.{
  Same, Same-trans, clean_up-Same, note_publish-Same, bundle_branches-Same, agent_head_branch-Same,
  git_target-same,
}
use sbx_swarm_node.Service.PublishWork.{
  WorkRequest, Answer, env_for, run_strategy, release, marked, implemented, noted, fetched,
  with_bundle, ensured, with_source, checked, targeted, publish_work,
}

module _ (S : Setting) (T : Tools S) (P : Strings) (sha1_hex : Text → Text) (X : Web S.H.World)
    (dir : Text) where
  abbrev Svc : Type 0
  Svc = Service S T

  abbrev Reply : Type 0
  Reply = Answer S T P sha1_hex X dir

  -- A call that returns, and leaves the records, the database and the locks as they were.
  abbrev Returns : Svc → Reply → Type 0
  Returns s a =
      (out : Result ApiError PublishResult) × (t : Svc) × (a ≡ some (out, t)) × Same S T s t

  Returns-after : (s t : Svc) (a : Reply) → Same S T s t → Returns t a → Returns s a
  Returns-after s t a h (out, u, e, k) = (out, u, e, Same-trans S T s t u h k)

  -- The lock that the fetch has taken, and no other.
  unlock-held :
      (name : String) (held : List String)
      → held ≡ []
      → set_lock S T name false (set_lock S T name true held) ≡ held
  unfolding set_lock
  unlock-held name held free = rw free (unlocked (name == name) (==_refl name))
    where
      unlocked : (b : Bool) → b ≡ true → keep (λ n. not b) (name ∷ []) ≡ []
      unlocked true e = refl
      unlocked false e = cc

  never-held :
      (name : String) (b : Bool) (held : List String)
      → held ≡ []
      → b ≡ false
      → set_lock S T name b held ≡ held
  unfolding set_lock
  never-held name true held free e = cc
  never-held name false held free e = rw free refl

  marked-Same :
      (r : WorkRequest) (actor workspace source : Text) (failed : Bool) (s : Svc)
      → Same S T s (marked S T P sha1_hex X dir r actor workspace source failed s)
  unfolding marked
  marked-Same r actor workspace source failed s =
      either_branch (Same S T s) (contains r.strategy implemented) _ _
        (note_publish-Same S T r.id actor workspace source failed s) (refl, refl, refl)

  noted-Same :
      (r : WorkRequest) (actor : Text) (vm name : String) (g : Git.Spec) (b : Bundle S T)
      (source : Text) (s t : Svc) (p : Result Error PublishResult × S.H.World)
      → s.held ≡ []
      → t.mgr ≡ s.mgr
      → t.held ≡ set_lock S T name true s.held
      → Same S T s (noted S T P sha1_hex X dir r actor vm name g b source t p).1
  unfolding noted release
  noted-Same r actor vm name g b source s t (out, w) free mgr held =
      let done =
        marked S T P sha1_hex X dir r actor g.name source (is_err S T out)
          (record t { world = w }) in
      let kept = marked-Same r actor g.name source (is_err S T out) (record t { world = w }) in
      let cleaned =
        clean_up-Same S T vm b (record done { held = set_lock S T name false done.held }) in
      (
        cleaned.0 ∙ kept.0 ∙ ap (λ m. m.records) mgr,
        cleaned.1 ∙ kept.1 ∙ ap (λ m. m.faults) mgr,
        cleaned.2 ∙ ap (set_lock S T name false) (kept.2 ∙ held) ∙ unlock-held name s.held free,
      )

  fetched-Returns :
      (r : WorkRequest) (actor : Text) (vm name : String) (g : Git.Spec) (b : Bundle S T)
      (source : Text) (s t : Svc) (res : Result Git.Error (Unit {0}))
      → s.held ≡ []
      → t.mgr ≡ s.mgr
      → t.held ≡ set_lock S T name (succeeded S.H res) s.held
      → Returns s (fetched S T P sha1_hex X dir r actor vm name g b source (some (res, t)))
  unfolding fetched
  fetched-Returns r actor vm name g b source s t (err e) free mgr held =
      let cleaned = clean_up-Same S T vm b t in
      (
        err _,
        _,
        refl,
        (
          cleaned.0 ∙ ap (λ m. m.records) mgr,
          cleaned.1 ∙ ap (λ m. m.faults) mgr,
          cleaned.2 ∙ held ∙ never-held name false s.held free refl,
        ),
      )
  fetched-Returns r actor vm name g b source s t (ok _) free mgr held =
      let p =
        run_strategy S T P sha1_hex X dir r (env_for S T P sha1_hex X dir g r actor) source
          t.world in
      (
        (noted S T P sha1_hex X dir r actor vm name g b source t p).0,
        (noted S T P sha1_hex X dir r actor vm name g b source t p).1,
        refl,
        noted-Same r actor vm name g b source s t p free mgr held,
      )

  fetch-Returns :
      (r : WorkRequest) (actor : Text) (vm name : String) (g : Git.Spec) (b : Bundle S T)
      (source : Text) (s : Svc)
      → s.held ≡ []
      → Returns s (
          fetched S T P sha1_hex X dir r actor vm name g b source
            (git_call S T name (Git.fetch_from_bundle S.H S.base64 g source b.host_path) s))
  unfolding git_call
  fetch-Returns r actor vm name g b source s free =
      let (res, c, e, locked) =
        fetch_from_bundle-Hands S.H S.base64 g source b.host_path
          (record { locked = contains name s.held; world = s.world }) (ap (contains name) free) in
      let t : Svc = record s { held = set_lock S T name c.locked s.held; world = c.world } in
      let (out, u, done, same) =
        fetched-Returns r actor vm name g b source s t res free refl
          (ap (λ l. set_lock S T name l s.held) locked) in
      (
        out,
        u,
        ap (λ o. fetched S T P sha1_hex X dir r actor vm name g b source (after_git S T name s o)) e
            ∙ done,
        same,
      )

  with_bundle-Returns :
      (r : WorkRequest) (actor : Text) (vm name : String) (g : Git.Spec) (source : Text)
      (p : Result Cause (Bundle S T) × Svc)
      → p.1.held ≡ []
      → Returns p.1 (with_bundle S T P sha1_hex X dir r actor vm name g source p)
  unfolding with_bundle
  with_bundle-Returns r actor vm name g source (err e, s) free =
      (err _, s, refl, (refl, refl, refl))
  with_bundle-Returns r actor vm name g source (ok b, s) free =
      fetch-Returns r actor vm name g b source s free

  ensure-Returns :
      (r : WorkRequest) (actor : Text) (vm name : String) (g : Git.Spec) (source : Text) (s : Svc)
      → s.held ≡ []
      → Returns s (
          ensured S T P sha1_hex X dir r actor vm name g source
            (git_call S T name (Git.ensure_base S.H S.base64 g) s))
  unfolding git_call
  ensure-Returns r actor vm name g source s free =
      let (res, c, e, unlocked) =
        ensure_base-Frees S.H S.base64 g (record { locked = contains name s.held; world = s.world })
          (ap (contains name) free) in
      let t : Svc = record s { held = set_lock S T name c.locked s.held; world = c.world } in
      let same : Same S T s t = (refl, refl, never-held name c.locked s.held free unlocked) in
      let (out, u, done, k) = after res t same in
      (
        out,
        u,
        ap (λ o. ensured S T P sha1_hex X dir r actor vm name g source (after_git S T name s o)) e
            ∙ done,
        k,
      )
    where
      after :
          (res : Result Git.Error (Unit {0})) (t : Svc)
          → Same S T s t
          → Returns s (ensured S T P sha1_hex X dir r actor vm name g source (some (res, t)))
      after (err e) t same = unfold ensured in (err _, t, refl, same)
      after (ok _) t same =
          unfold ensured in
          (let p = bundle_branches S T dir vm (source ∷ []) t in
            let kept = bundle_branches-Same S T dir vm (source ∷ []) t in
            let to = Same-trans S T s t p.1 same kept in
            Returns-after s p.1 _ to (with_bundle-Returns r actor vm name g source p (to.2 ∙ free)))

  with_source-Returns :
      (r : WorkRequest) (actor : Text) (vm name : String) (g : Git.Spec) (c : Result ApiError Text)
      (s : Svc)
      → s.held ≡ []
      → Returns s (with_source S T P sha1_hex X dir r actor vm name g c s)
  unfolding with_source
  with_source-Returns r actor vm name g (err e) s free = (err e, s, refl, (refl, refl, refl))
  with_source-Returns r actor vm name g (ok source) s free =
      ensure-Returns r actor vm name g source s free

  checked-Returns :
      (r : WorkRequest) (actor : Text) (rec : Record) (name : String) (g : Git.Spec)
      (c : Option ApiError) (s : Svc)
      → s.held ≡ []
      → Returns s (checked S T P sha1_hex X dir r actor rec name g c s)
  unfolding checked
  checked-Returns r actor rec name g (some e) s free = (err e, s, refl, (refl, refl, refl))
  checked-Returns r actor rec name g none s free =
      let at = agent_head_branch S T rec.backend_name s in
      let same = agent_head_branch-Same S T rec.backend_name s in
      Returns-after s at.1 _ same
        (with_source-Returns r actor rec.backend_name name g _ at.1 (same.2 ∙ free))

  targeted-Returns :
      (r : WorkRequest) (actor : Text) (p : Result ApiError (Target S T) × Svc)
      → p.1.held ≡ []
      → Returns p.1 (targeted S T P sha1_hex X dir r actor p)
  unfolding targeted
  targeted-Returns r actor (err e, s) free = (err e, s, refl, (refl, refl, refl))
  targeted-Returns r actor (ok (rec, name, g), s) free = checked-Returns r actor rec name g _ s free

  -- PublishWork, called when no workspace is locked and the database works, returns for every request
  -- and whatever git, the forge and the sandbox do, and it leaves no workspace locked and every record
  -- as it was: the lock that the fetch takes is given back on each path behind it.
  pub publish_work_releases :
      (r : WorkRequest) (role : Text) (s : Svc)
      → s.mgr.faults ≡ []
      → s.held ≡ []
      → (out : Result ApiError PublishResult) × (t : Svc) × (publish_work S T P sha1_hex X dir r
            role s
          ≡ some (out, t))
        × (t.held ≡ [])
        × (t.mgr.records ≡ s.mgr.records)
  unfolding publish_work
  publish_work_releases r role s healthy free =
      let found = git_target S T r.id s in
      let same : found.1 ≡ s = git_target-same S T r.id s healthy in
      let (out, t, e, k) = targeted-Returns r _ found (ap (λ u. u.held) same ∙ free) in
      (out, t, e, k.2 ∙ ap (λ u. u.held) same ∙ free, k.0 ∙ ap (λ u. u.mgr.records) same)
