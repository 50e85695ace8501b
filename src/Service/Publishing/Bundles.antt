-- ===== src/Service/Publishing/Bundles.antt =====
-- internal/apiserver/sandboxservice.go: the workspace of a sandbox, and the bundle of its branches. The
-- time limit of a publish is not modelled.
use sbx_swarm_node.Prelude.{
  Bool, false, not, ◌||◌, List, [], ◌∷◌, ◌++◌, Option, none, some, String, Text, codes, get,
  string_eq, text_eq, nat_eq, ◌==◌, if◌then◌else◌, length, eqb, Result, ok, err, ℤ, pos, negsuc,
}
use sbx_swarm_node.Sandbox.Record.{Record, not_found, WorkspaceMount}
use sbx_swarm_node.Sandbox.Record as Sandboxes
use sbx_swarm_node.Sandbox.Manager.{get_record}
use sbx_swarm_node.Git.Workspace as Git
use sbx_swarm_node.Provision.Local.{Setting}
use sbx_swarm_node.GitProvider.Strategies as Provider
use sbx_swarm_node.GitProvider.Strategies.{Code}
use sbx_swarm_node.Service.State.{
  Tools, ExecResult, Cause, by_manager, by_text, ApiError, refused, caused, Service, Call, ask,
  exec_in,
}

unfoldable pub exited_well : ℤ → Bool
exited_well (pos n) = eqb n 0
exited_well (negsuc n) = false

unfoldable pub lookup_error : Sandboxes.Error → ApiError
lookup_error not_found = refused Provider.not_found (codes "sandbox not found")
lookup_error e = caused Provider.internal (by_manager e)

module _ (S : Setting) (T : Tools S) where
  -- The one workspace of a sandbox, if it is git-backed.
  unfoldable pub single_git : List WorkspaceMount → Option (String × Git.Spec)
  single_git [] = none
  single_git (w ∷ []) = elim (get w.name S.git_ws) [ none ↦ none | some g ↦ some (w.name, g) ]
  single_git (_ ∷ _ ∷ _) = none

  abbrev pub Target : Type 0
  Target = Record × String × Git.Spec

  unfoldable pub target_of : Record → Result ApiError Target
  target_of rec =
      if not (eqb (length rec.spec.workspaces) 1)
      then err (refused Provider.failed_precondition (codes "sandbox is not clone-mode"))
      else elim (single_git rec.spec.workspaces) [
        | none ↦ err (refused Provider.failed_precondition (codes "workspace is not git-backed"))
        | some (name, g) ↦ ok (rec, name, g)
      ]

  unfoldable pub found_target :
      Result ApiError Record × Service S T → Result ApiError Target × Service S T
  unfolding target_of
  found_target (err e, s) = (err e, s)
  found_target (ok rec, s) = (target_of rec, s)

  unfoldable pub git_target : String → Call S T Target
  unfolding found_target
  git_target id s =
      found_target (ask S T lookup_error (get_record S.B S.mint S.clock S.node_id id) s)

  unfoldable pub head_branch : Result Sandboxes.Error ExecResult → Result Cause Text
  head_branch (err e) = err (by_manager e)
  head_branch (ok r) =
      let b = T.trim_space r.stdout in
      if not (exited_well r.exit_code)
      then err (by_text (codes "git rev-parse: " ++ T.trim_space r.stderr))
      else if b == [] || b == codes "HEAD"
      then err (by_text (codes "sandbox is in detached HEAD; specify a branch to publish"))
      else ok b

  unfoldable pub agent_head_branch : String → Service S T → Result Cause Text × Service S T
  unfolding head_branch
  agent_head_branch name s =
      let (r, s') =
        exec_in S T name
          (codes "git" ∷ codes "rev-parse" ∷ codes "--abbrev-ref" ∷ codes "HEAD" ∷ []) s in
      (head_branch r, s')

  -- The paths of a bundle: on the host and in the sandbox.
  pub record Bundle : Type 0 where
    pub host_path : Text
    pub container_path : Text

  unfoldable pub clean_up : String → Bundle → Service S T → Service S T
  clean_up name b s =
      let s' = record s { world = T.remove_file b.host_path s.world } in
      (exec_in S T name (codes "rm" ∷ codes "-f" ∷ b.container_path ∷ []) s').1

  -- What a failed step of bundleBranches leaves.
  unfoldable pub give_up : String → Bundle → Cause → Service S T → Result Cause Bundle × Service S T
  give_up name b e s = (err e, clean_up name b s)

  unfoldable pub copied :
      String
      → Bundle
      → Service S T
      → Result Sandboxes.Error (Unit {0}) × S.B.Daemon × S.H.World
      → Result Cause Bundle × Service S T
  unfolding give_up
  copied name b s (ok _, d, w) = (ok b, record s { mgr = record s.mgr { daemon = d }; world = w })
  copied name b s (err e, d, w) =
      give_up name b (by_manager e) (record s { mgr = record s.mgr { daemon = d }; world = w })

  unfoldable pub bundled :
      String
      → Bundle
      → Result Sandboxes.Error ExecResult × Service S T
      → Result Cause Bundle × Service S T
  unfolding give_up copied
  bundled name b (err e, s) = give_up name b (by_manager e) s
  bundled name b (ok r, s) =
      if not (exited_well r.exit_code)
      then give_up name b (by_text (codes "git exit: " ++ T.trim_space r.stderr)) s
      else copied name b s (T.copy_from name b.container_path b.host_path (s.mgr.daemon, s.world))

  unfoldable pub staged :
      Text
      → String
      → List Text
      → Service S T
      → Option Text × S.H.World
      → Result Cause Bundle × Service S T
  unfolding bundled
  staged dir name branches s (none, w) =
      (err (by_text (codes "bundle: stage file")), record s { world = w })
  staged dir name branches s (some host_path, w) =
      let b : Bundle = record {
        host_path = host_path;
        container_path = S.H.join dir (codes "in-" ++ T.base_name host_path);
      } in
      bundled name b (
        exec_in S T name
          (codes "git" ∷ codes "bundle" ∷ codes "create" ∷ b.container_path ∷ branches)
          (record s { world = w }))

  -- `dir` is bundleDir, "/tmp" if it is not set.
  unfoldable pub bundle_branches :
      Text → String → List Text → Service S T → Result Cause Bundle × Service S T
  unfolding staged
  bundle_branches dir name branches s = staged dir name branches s (T.create_temp dir s.world)
