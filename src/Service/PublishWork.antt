-- ===== src/Service/PublishWork.antt =====
-- internal/apiserver/publish_work.go: a strategy is run for the branch of a sandbox, with the lock of
-- the workspace held from the fetch to the end. The time limit is not modelled.
pub mod Guards
use sbx_swarm_node.Prelude.{
  ℕ, Bool, true, false, not, ◌&&◌, ◌||◌, List, [], ◌∷◌, ◌++◌, Option, none, some, String, Text,
  codes, string_eq, text_eq, ◌==◌, contains, if◌then◌else◌, is_some, Result, ok, err,
}
use sbx_swarm_node.Sandbox.Record.{Record}
use sbx_swarm_node.Git.Credential as Credential
use sbx_swarm_node.Git.Workspace as Git
use sbx_swarm_node.Provision.Local.{Setting}
use sbx_swarm_node.GitProvider.Provider.{Provider, derive, supports, parse_repo, api_base, Strings}
use sbx_swarm_node.GitProvider.Strategies.{Env, PublishResult, Error, status, branch, patch_work}
use sbx_swarm_node.GitProvider.Strategies as Strategies
use sbx_swarm_node.GitProvider.Gerrit.{gerrit_change}
use sbx_swarm_node.GitProvider.Rest.{Web}
use sbx_swarm_node.GitProvider.Requests.{pull_request, merge_request}
use sbx_swarm_node.Service.State.{
  Tools, Cause, by_text, by_git, ApiError, refused, caused, Service, emit, record_audit, git_call,
  set_lock,
}
use sbx_swarm_node.Service.Publishing.{
  Bundle, Target, git_target, agent_head_branch, bundle_branches, clean_up, note_publish, is_err,
}

pub record WorkRequest : Type 0 where
  pub id : String
  pub strategy : Text
  pub target : Text
  pub title : Text
  pub body : Text

-- An error of a strategy: its status is passed on, any other is internal.
unfoldable pub strategy_error : Error → ApiError
strategy_error (status code message) = refused code message
strategy_error _ = caused Strategies.internal (by_text (codes "publish-work"))

-- The strategies that PublishWork has a case for.
abbrev pub implemented : List Text
implemented =
    codes "branch"
    ∷ codes "patch"
    ∷ codes "pull_request"
    ∷ codes "merge_request"
    ∷ codes "gerrit_change"
    ∷ []

abbrev pub is_rest : Text → Bool
is_rest strategy = strategy == codes "pull_request" || strategy == codes "merge_request"

module _ (S : Setting) (T : Tools S) (P : Strings) (sha1_hex : Text → Text) (X : Web S.H.World)
    (dir : Text) where
  abbrev pub Answer : Type 0
  Answer = Option (Result ApiError PublishResult × Service S T)

  -- The checks before anything is touched.
  unfoldable pub check_request : Git.Spec → WorkRequest → Option ApiError
  check_request g r =
      let prov = derive P g.remote_url g.provider in
      if not (supports prov r.strategy)
      then some (refused Strategies.invalid_argument (codes "unsupported"))
      else if not (r.strategy == codes "patch") && not g.allow_push
      then some (refused Strategies.failed_precondition (codes "workspace does not allow push"))
      else if is_rest r.strategy && g.cred.token == []
      then some (
          refused Strategies.failed_precondition
            (codes "REST strategy requires an HTTPS token credential"))
      else if is_rest r.strategy && not (is_some (parse_repo P prov g.remote_url))
      then some
          (refused Strategies.invalid_argument (codes "cannot parse owner/repo from remote_url"))
      else none

  unfoldable pub env_for : Git.Spec → WorkRequest → Text → Env
  env_for g r actor = record {
    dir = g.base;
    run_env = Credential.env S.base64 g.cred g.remote_url;
    remote = Git.remote_name g;
    remote_url = g.remote_url;
    cred = g.cred;
    api_base = api_base P (derive P g.remote_url g.provider) g.remote_url g.api_base_url;
    title = r.title;
    body = r.body;
    actor = actor;
  }

  unfoldable pub run_strategy :
      WorkRequest → Env → Text → S.H.World → Result Error PublishResult × S.H.World
  run_strategy r e source =
      if r.strategy == codes "branch"
      then branch S.H e source r.target
      else if r.strategy == codes "patch"
      then patch_work S.H e source r.target
      else if r.strategy == codes "pull_request"
      then pull_request P S.H X e source r.target
      else if r.strategy == codes "merge_request"
      then merge_request P S.H X e source r.target
      else if r.strategy == codes "gerrit_change"
      then gerrit_change P sha1_hex S.H e source r.target
      else λ w. (err (status Strategies.unimplemented (codes "strategy not yet implemented")), w)

  -- The deferred calls: the lock is given back, and then the bundle removed.
  release : String → String → Bundle S T → Service S T → Service S T
  release name vm b s = clean_up S T vm b (record s { held = set_lock S T name false s.held })

  answer_of : Result Error PublishResult → Result ApiError PublishResult
  answer_of (ok p) = ok p
  answer_of (err e) = err (strategy_error e)

  -- The audit and the event, which the default case does not reach.
  marked : WorkRequest → Text → Text → Text → Bool → Service S T → Service S T
  marked r actor workspace source failed s =
      if contains r.strategy implemented
      then note_publish S T r.id actor workspace source failed s
      else s

  noted :
      WorkRequest
      → Text
      → String
      → String
      → Git.Spec
      → Bundle S T
      → Text
      → Service S T
      → Result Error PublishResult × S.H.World
      → Result ApiError PublishResult × Service S T
  unfolding answer_of release marked
  noted r actor vm name g b source s (out, w) = (
    answer_of out,
    release name vm b (marked r actor g.name source (is_err S T out) (record s { world = w })),
  )

  -- Behind FetchFromBundle: on an error the bundle is removed, else the strategy runs.
  fetched :
      WorkRequest
      → Text
      → String
      → String
      → Git.Spec
      → Bundle S T
      → Text
      → Option (Result Git.Error (Unit {0}) × Service S T)
      → Answer
  unfolding noted
  fetched r actor vm name g b source none = none
  fetched r actor vm name g b source (some (err e, s)) =
      some (err (caused Strategies.internal (by_git e)), clean_up S T vm b s)
  fetched r actor vm name g b source (some (ok _, s)) =
      some (noted r actor vm name g b source s (run_strategy r (env_for g r actor) source s.world))

  with_bundle :
      WorkRequest
      → Text
      → String
      → String
      → Git.Spec
      → Text
      → Result Cause (Bundle S T) × Service S T
      → Answer
  unfolding fetched
  with_bundle r actor vm name g source (err e, s) = some (err (caused Strategies.internal e), s)
  with_bundle r actor vm name g source (ok b, s) =
      fetched r actor vm name g b source
        (git_call S T name (Git.fetch_from_bundle S.H S.base64 g source b.host_path) s)

  ensured :
      WorkRequest
      → Text
      → String
      → String
      → Git.Spec
      → Text
      → Option (Result Git.Error (Unit {0}) × Service S T)
      → Answer
  unfolding with_bundle
  ensured r actor vm name g source none = none
  ensured r actor vm name g source (some (err e, s)) =
      some (err (caused Strategies.internal (by_git e)), s)
  ensured r actor vm name g source (some (ok _, s)) =
      with_bundle r actor vm name g source (bundle_branches S T dir vm (source ∷ []) s)

  no_source : ApiError
  no_source =
      refused Strategies.failed_precondition
        (codes "no source branch: detached HEAD and no recorded branch")

  -- The branch at HEAD, if it could be read.
  live_branch : Result Cause Text → Text
  live_branch (ok b) = b
  live_branch (err _) = []

  chosen_source : String → Result Cause Text → Result ApiError Text
  unfolding no_source live_branch
  chosen_source recorded head =
      if not (live_branch head == [])
      then ok (live_branch head)
      else if not (recorded == "")
      then ok (codes recorded)
      else err no_source

  with_source :
      WorkRequest → Text → String → String → Git.Spec → Result ApiError Text → Service S T → Answer
  unfolding ensured
  with_source r actor vm name g (err e) s = some (err e, s)
  with_source r actor vm name g (ok source) s =
      ensured r actor vm name g source (git_call S T name (Git.ensure_base S.H S.base64 g) s)

  checked : WorkRequest → Text → Record → String → Git.Spec → Option ApiError → Service S T → Answer
  unfolding with_source chosen_source
  checked r actor rec name g (some e) s = some (err e, s)
  checked r actor rec name g none s =
      let (head, s') = agent_head_branch S T rec.backend_name s in
      with_source r actor rec.backend_name name g (chosen_source rec.spec.branch head) s'

  targeted : WorkRequest → Text → Result ApiError (Target S T) × Service S T → Answer
  unfolding checked
  targeted r actor (err e, s) = some (err e, s)
  targeted r actor (ok (rec, name, g), s) = checked r actor rec name g (check_request g r) s

  -- PublishWork for a caller with the given role. `none` while it waits for a lock.
  unfoldable pub publish_work : WorkRequest → Text → Service S T → Answer
  unfolding targeted
  publish_work r role s =
      targeted r (if role == [] then codes "system" else role) (git_target S T r.id s)
