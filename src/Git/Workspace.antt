-- ===== src/Git/Workspace.antt =====
-- internal/git/workspace.go: the operations on the base repository of one workspace, under its lock.
-- The state is the lock and the world of the child processes; an operation that finds the lock taken
-- waits, which is `none` here. The unlock function that an operation returns is `unlock`.
pub mod Locks
use sbx_swarm_node.Prelude.{
  ℕ, Bool, true, false, not, ◌&&◌, ◌||◌, List, [], ◌∷◌, ◌++◌, Option, none, some, Text, codes,
  text_eq, nat_eq, ◌==◌, if◌then◌else◌, Result, ok, err,
}
use sbx_swarm_node.Git.Builder.{Vars, BuildError, build}
use sbx_swarm_node.Git.Credential.{Credential, env}
use sbx_swarm_node.Git.Runner.{Host, StepResult, RunError, Ran, run}

pub record Spec : Type 0 where
  pub name : Text
  pub base : Text
  pub remote : Text
  pub remote_url : Text
  pub provider : Text
  pub cred : Credential
  pub default_branch : Text
  pub allow_push : Bool
  pub api_base_url : Text
  pub pre_steps : List (List Text)
  pub publish_steps : List (List Text)
  pub allowlist : List Text

pub data Error : Type 0 where
  build_failed : BuildError → Error
  run_failed : RunError → Error
  mkdir_failed : Error

unfoldable pub remote_name : Spec → Text
remote_name spec = if not (spec.remote == []) then spec.remote else codes "origin"

module _ (H : Host) where
  pub record Workspace : Type 0 where
    pub locked : Bool
    pub world : H.World

  -- An operation of the workspace: what it returns and leaves, or `none` while it waits.
  abbrev pub Op : Type 0 → Type 0
  Op A = Workspace → Option (Result Error A × Workspace)

  unfoldable pub unlock : Workspace → Workspace
  unlock c = record c { locked = false }

module _ (H : Host) (base64 : Text → Text) (spec : Spec) where
  -- The credential environment has no errors, so runEnv has no fallback.
  unfoldable pub run_env : List Text
  run_env = env base64 spec.cred spec.remote_url

  -- The error of a run alone; its results are dropped.
  error_of : Ran H spec.allowlist → Result Error (Unit {0}) × H.World
  error_of ((_, none), w) = (ok tt, w)
  error_of ((_, some e), w) = (err (run_failed e), w)

  run_in : Text → List (List Text) → H.World → Result Error (Unit {0}) × H.World
  unfolding error_of
  run_in dir steps w = error_of (run H spec.allowlist dir run_env steps w)

  -- The lock is taken before the rest of an operation.
  locking : (Workspace H → Result Error (Unit {0}) × Workspace H) → Op H (Unit {0})
  locking rest c = if c.locked then none else some (rest (record c { locked = true }))

  -- Child processes change the world alone.
  on_world :
      (H.World → Result Error (Unit {0}) × H.World)
      → Workspace H
      → Result Error (Unit {0}) × Workspace H
  on_world f c = let (r, w) = f c.world in (r, record c { world = w })

  -- The deferred Unlock.
  deferred : Result Error (Unit {0}) × Workspace H → Result Error (Unit {0}) × Workspace H
  deferred (r, c) = (r, unlock H c)

  under_lock : (H.World → Result Error (Unit {0}) × H.World) → Op H (Unit {0})
  unfolding locking deferred on_world
  under_lock f = locking (λ c. deferred (on_world f c))

  git : List Text → List (List Text)
  git args = (codes "git" ∷ args) ∷ []

  -- Detach HEAD, if the clone has one.
  detach : Result Error (Unit {0}) × H.World → Result Error (Unit {0}) × H.World
  unfolding run_in git
  detach (err _, w) = (ok tt, w)
  detach (ok _, w) =
      run_in [] (git (codes "-C" ∷ spec.base ∷ codes "checkout" ∷ codes "--detach" ∷ [])) w

  verify_head : Result Error (Unit {0}) × H.World → Result Error (Unit {0}) × H.World
  unfolding run_in git detach
  verify_head (err e, w) = (err e, w)
  verify_head (ok _, w) = detach (
      run_in []
        (git (
          codes "-C"
          ∷ spec.base
          ∷ codes "rev-parse"
          ∷ codes "--verify"
          ∷ codes "-q"
          ∷ codes "HEAD"
          ∷ []))
        w)

  clone : Bool × H.World → Result Error (Unit {0}) × H.World
  unfolding run_in git verify_head
  clone (false, w) = (err mkdir_failed, w)
  clone (true, w) =
      verify_head (run_in [] (git (codes "clone" ∷ spec.remote_url ∷ spec.base ∷ [])) w)

  create_base : H.World → Result Error (Unit {0}) × H.World
  unfolding clone
  create_base w =
      if H.exists (H.join spec.base (codes ".git")) w
      then (ok tt, w)
      else if H.exists (H.join spec.base (codes "HEAD")) w
      then (ok tt, w)
      else clone (H.mkdir_all (H.parent spec.base) w)

  unfoldable pub ensure_base : Op H (Unit {0})
  unfolding under_lock create_base
  ensure_base c = if spec.remote_url == [] then some (ok tt, c) else under_lock create_base c

  -- A pipeline of the configuration, once its values are bound.
  run_built : Result BuildError (List (List Text)) → H.World → Result Error (Unit {0}) × H.World
  unfolding run_in
  run_built (err e) w = (err (build_failed e), w)
  run_built (ok steps) w = run_in spec.base steps w

  abbrev pub vars : Text → Text → Vars
  vars branch sandbox_remote = record {
    branch = branch;
    base_ref = spec.default_branch;
    remote = spec.remote;
    sandbox_remote = sandbox_remote;
  }

  -- PreLock behind its run: it unlocks on an error, and hands the lock on to its caller otherwise.
  pre_ran : Result Error (Unit {0}) × Workspace H → Result Error (Unit {0}) × Workspace H
  pre_ran (err e, c) = (err e, unlock H c)
  pre_ran (ok _, c) = (ok tt, c)

  -- PreLock behind its Build: it unlocks on an error.
  pre_built :
      Result BuildError (List (List Text)) → Workspace H → Result Error (Unit {0}) × Workspace H
  unfolding pre_ran on_world run_in
  pre_built (err e) c = (err (build_failed e), unlock H c)
  pre_built (ok steps) c = pre_ran (on_world (run_in spec.base steps) c)

  unfoldable pub pre_lock : Text → Op H (Unit {0})
  unfolding locking pre_built
  pre_lock branch = locking (pre_built (build spec.pre_steps (vars branch [])))

  unfoldable pub fetch_ref : Text → Text → Op H (Unit {0})
  unfolding under_lock run_in git
  fetch_ref ref local_branch = under_lock (
      run_in spec.base (
        git (
          codes "fetch"
          ∷ remote_name spec
          ∷ (codes "+" ++ ref ++ codes ":refs/heads/" ++ local_branch)
          ∷ [])))

  unfoldable pub publish : Text → Text → Op H (Unit {0})
  unfolding under_lock run_built
  publish branch sandbox_remote =
      under_lock (run_built (build spec.publish_steps (vars branch sandbox_remote)))

  -- FetchFromBundle behind its fetch: it unlocks on an error, and hands the lock on otherwise.
  bundle_fetched : Result Error (Unit {0}) × Workspace H → Result Error (Unit {0}) × Workspace H
  bundle_fetched (err e, c) = (err e, unlock H c)
  bundle_fetched (ok _, c) = (ok tt, c)

  unfoldable pub fetch_from_bundle : Text → Text → Op H (Unit {0})
  unfolding locking on_world bundle_fetched run_in git
  fetch_from_bundle branch bundle_path = locking λ c. bundle_fetched (
      on_world
        (run_in spec.base (
          git (
            codes "fetch"
            ∷ bundle_path
            ∷ (codes "+refs/heads/" ++ branch ++ codes ":refs/heads/" ++ branch)
            ∷ [])))
        c)
