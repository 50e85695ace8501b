-- ===== src/Service/Publishing.antt =====
-- internal/apiserver/sandboxservice.go: the branches of a sandbox are published from the base of its
-- workspace, behind their bundle.
pub mod Bundles
pub mod Same
pub mod Quiet
use sbx_swarm_node.Prelude.{
  ℕ, Bool, true, false, not, ◌&&◌, ◌||◌, List, [], ◌∷◌, ◌++◌, Option, none, some, String, Text,
  codes, Map, get, string_eq, text_eq, nat_eq, ◌==◌, if◌then◌else◌, length, eqb, Result, ok, err, ℤ,
  pos, negsuc, ◌>>=◌, ◌>>◌,
}
use sbx_swarm_node.Sandbox.Record.{Record, not_found, WorkspaceMount}
use sbx_swarm_node.Sandbox.Record as Sandboxes
use sbx_swarm_node.Sandbox.Manager.{get_record, read_clock}
use sbx_swarm_node.Sandbox.Cleanup.{set_last_publish}
use sbx_swarm_node.Git.Workspace as Git
use sbx_swarm_node.Provision.Local.{Setting, Mgr}
use sbx_swarm_node.GitProvider.Strategies as Provider
use sbx_swarm_node.GitProvider.Strategies.{Code}
use sbx_swarm_node.Service.Templates.{AuditEntry}
use sbx_swarm_node.Service.State.{
  Tools, ExecResult, Cause, by_manager, by_git, by_text, ApiError, refused, caused, Service, Call,
  Blocking, ask, exec_in, emit, record_audit, git_call,
}
pub use sbx_swarm_node.Service.Publishing.Bundles.{Target, Bundle}
unfoldable pub use sbx_swarm_node.Service.Publishing.Bundles.{
  exited_well, lookup_error, single_git, target_of, found_target, git_target, head_branch,
  agent_head_branch, clean_up, give_up, copied, bundled, staged, bundle_branches,
}

unfoldable pub publish_entry : Text → Text → Text → Text → AuditEntry
publish_entry actor workspace branch outcome = record {
  actor = actor;
  action = codes "git.publish";
  target = workspace ++ codes "@" ++ branch;
  outcome = outcome;
}

module _ (S : Setting) (T : Tools S) where
  -- The audit and the event of one branch.
  unfoldable pub note_publish : String → Text → Text → Text → Bool → Service S T → Service S T
  note_publish id actor workspace branch failed s =
      if failed
      then emit S T "sandbox.publish_failed" id
          (record_audit S T (publish_entry actor workspace branch (codes "error")) s)
      else emit S T "sandbox.published" id
          (record_audit S T (publish_entry actor workspace branch (codes "ok")) s)

  first_error : Option Git.Error → Result Git.Error (Unit {0}) → Option Git.Error
  first_error (some e) _ = some e
  first_error none (ok _) = none
  first_error none (err e) = some e

  abbrev pub is_err : {E A : Type 0} → Result E A → Bool
  is_err (ok _) = false
  is_err (err _) = true

  -- What the loop does behind the publish of one branch.
  published_one :
      String
      → Text
      → Text
      → Text
      → Option Git.Error
      → Option (Result Git.Error (Unit {0}) × Service S T)
      → (Option Git.Error → Service S T → Option (Option Git.Error × Service S T))
      → Option (Option Git.Error × Service S T)
  unfolding first_error
  published_one id actor workspace branch failed none next = none
  published_one id actor workspace branch failed (some (r, s)) next =
      next (first_error failed r) (note_publish id actor workspace branch (is_err r) s)

  -- The pipeline of the configuration, once for each branch, with the first error.
  unfoldable pub publish_each :
      String
      → Text
      → String
      → Git.Spec
      → Text
      → List Text
      → Option Git.Error
      → Service S T
      → Option (Option Git.Error × Service S T)
  unfolding published_one
  publish_each id actor name g path [] failed s = some (failed, s)
  publish_each id actor name g path (b ∷ bs) failed s =
      published_one id actor g.name b failed
        (git_call S T name (Git.publish S.H S.base64 g b path) s)
        (publish_each id actor name g path bs)

  stamp : String → Service S T → Service S T
  stamp id s =
      let (_, m) =
        (do
          now ← read_clock S.B S.mint S.clock S.node_id
          set_last_publish S.B S.mint S.clock S.node_id id now)
          s.mgr in
      record s { mgr = m }

  finished :
      String
      → String
      → Bundle S T
      → Option (Option Git.Error × Service S T)
      → Option (Result ApiError (Unit {0}) × Service S T)
  unfolding stamp
  finished id vm b none = none
  finished id vm b (some (some e, s)) =
      some (err (caused Provider.internal (by_git e)), clean_up S T vm b s)
  finished id vm b (some (none, s)) = some (ok tt, clean_up S T vm b (stamp id s))

  abbrev pub Done : Type 0
  Done = Option (Result ApiError (Unit {0}) × Service S T)

  first_of : List Text → Text
  first_of [] = []
  first_of (b ∷ _) = b

  -- The publish of the branches behind their bundle.
  with_bundle :
      String → Text → Target S T → List Text → Result Cause (Bundle S T) × Service S T → Done
  unfolding finished first_of
  with_bundle id actor (rec, name, g) branches (err e, s) =
      some
        (err (caused Provider.internal e), note_publish id actor g.name (first_of branches) true s)
  with_bundle id actor (rec, name, g) branches (ok b, s) =
      finished id rec.backend_name b (publish_each id actor name g b.host_path branches none s)

  publish_branches : Text → String → Text → Target S T → List Text → Service S T → Done
  unfolding with_bundle
  publish_branches dir id actor (rec, name, g) branches s =
      with_bundle id actor (rec, name, g) branches
        (bundle_branches S T dir rec.backend_name branches s)

  publish_head : Text → String → Text → Target S T → Result Cause Text × Service S T → Done
  unfolding publish_branches
  publish_head dir id actor t (err e, s) = some (err (caused Provider.failed_precondition e), s)
  publish_head dir id actor t (ok b, s) = publish_branches dir id actor t (b ∷ []) s

  -- The branches of the request, or else the one that the sandbox stands at.
  publish_chosen : Text → String → Text → Target S T → List Text → Service S T → Done
  unfolding publish_head publish_branches
  publish_chosen dir id actor (rec, name, g) [] s =
      publish_head dir id actor (rec, name, g) (agent_head_branch S T rec.backend_name s)
  publish_chosen dir id actor t (b ∷ bs) s = publish_branches dir id actor t (b ∷ bs) s

  publish_target :
      Text → String → Text → List Text → Result ApiError (Target S T) × Service S T → Done
  unfolding publish_chosen
  publish_target dir id actor branches (err e, s) = some (err e, s)
  publish_target dir id actor branches (ok (rec, name, g), s) =
      if not g.allow_push
      then some
          (err (refused Provider.failed_precondition (codes "workspace does not allow push")), s)
      else publish_chosen dir id actor (rec, name, g) branches s

  unfoldable pub do_publish : Text → String → List Text → Text → Service S T → Done
  unfolding publish_target
  do_publish dir id branches actor s = publish_target dir id actor branches (git_target S T id s)

  -- maybeAutoPublish: whether the sandbox is one of those that are published on their own.
  unfoldable pub auto_published : Record → Bool
  auto_published rec = elim (single_git S T rec.spec.workspaces) [
    | none ↦ false
    | some (name, g) ↦ rec.spec.clone && not (rec.spec.branch == "") && g.allow_push
  ]

  -- The error of the publish is dropped.
  dropped : Done → Option (Service S T)
  dropped none = none
  dropped (some (_, s)) = some s

  auto_publish_found :
      Text → String → Text → Result ApiError Record × Service S T → Option (Service S T)
  unfolding dropped
  auto_publish_found dir id actor (err _, s) = some s
  auto_publish_found dir id actor (ok rec, s) =
      if auto_published rec
      then dropped (do_publish dir id [] (if actor == [] then codes "system" else actor) s)
      else some s

  -- `none` while it waits for the lock of the workspace. A service with no git-backed workspace reads
  -- no record.
  unfoldable pub maybe_auto_publish : Text → String → Text → Service S T → Option (Service S T)
  unfolding auto_publish_found
  maybe_auto_publish dir id actor s =
      if eqb (length S.git_ws) 0
      then some s
      else auto_publish_found dir id actor
          (ask S T lookup_error (get_record S.B S.mint S.clock S.node_id id) s)
