-- ===== src/GitProvider/Strategies.antt =====
-- internal/gitprovider/publish.go: the strategies that only run git.
use sbx_swarm_node.Prelude.{
  Bool, false, not, ◌&&◌, ◌||◌, List, [], ◌∷◌, ◌++◌, none, some, Text, codes, nat_eq, text_eq, ◌==◌,
  if◌then◌else◌, is_some, strip_prefix, split, Result, ok, err, Exec,
}
use sbx_swarm_node.Git.Credential.{Credential}
use sbx_swarm_node.Git.Runner.{Host, StepResult, RunError, Ran, run}
use sbx_swarm_node.GitProvider.Provider.{Strings}

pub data Code : Type 0 where
  invalid_argument failed_precondition permission_denied not_found unavailable internal
        unimplemented :
      Code

-- An error with a gRPC status, an error of a git run, or another one.
pub data Error : Type 0 where
  status : Code → Text → Error
  git_failed : RunError → Error
  other : Text → Error

pub record PublishResult : Type 0 where
  pub ref : Text
  pub delivery_url : Text
  pub change_id : Text
  pub patch : Text
  pub no_change : Bool

abbrev pub no_result : PublishResult
no_result = record { ref = []; delivery_url = []; change_id = []; patch = []; no_change = false }

pub record Env : Type 0 where
  pub dir : Text
  pub run_env : List Text
  pub remote : Text
  pub remote_url : Text
  pub cred : Credential
  pub api_base : Text
  pub title : Text
  pub body : Text
  pub actor : Text

unfoldable pub actor_of : Env → Text
actor_of e = if not (e.actor == []) then e.actor else codes "system"

unfoldable pub remote_of : Env → Text
remote_of e = if not (e.remote == []) then e.remote else codes "origin"

-- The output of the last step; a run of one step that did not fail has it.
unfoldable pub last_output : List StepResult → Text
last_output [] = []
last_output (r ∷ []) = r.output
last_output (_ ∷ r ∷ rs) = last_output (r ∷ rs)

-- The lines of a porcelain push; `saw` is sawRef.
up_to_date_from : Bool → List Text → Bool
up_to_date_from saw [] = saw
up_to_date_from saw (line ∷ lines) =
    let skipped = line == [] || is_some (strip_prefix (codes "To ") line) || line == codes "Done" in
    let current = is_some (strip_prefix (codes "=") line) in
    (skipped || current) && up_to_date_from (saw || (not skipped && current)) lines

unfoldable pub push_up_to_date : Text → Bool
unfolding up_to_date_from
push_up_to_date out = up_to_date_from false (split b'\n' out)

module _ (H : Host) where
  abbrev pub Call : Type 0 → Type 0
  Call A = Exec Error H.World A

  abbrev pub git_only : List Text
  git_only = codes "git" ∷ []

  output_of : Ran H git_only → Result Error Text × H.World
  output_of ((results, none), w) = (ok (last_output results), w)
  output_of ((_, some e), w) = (err (git_failed e), w)

  -- One git command, and its output.
  unfoldable pub run_git : Text → List Text → List Text → Call Text
  unfolding output_of
  run_git dir env args w = output_of (run H git_only dir env ((codes "git" ∷ args) ∷ []) w)

  pushed : Text → Result Error Text × H.World → Result Error PublishResult × H.World
  pushed dest (ok out, w) = (
    ok (record {
      ref = codes "refs/heads/" ++ dest;
      delivery_url = [];
      change_id = [];
      patch = [];
      no_change = push_up_to_date out;
    }),
    w,
  )
  pushed dest (err e, w) = (err e, w)

  unfoldable pub branch : Env → Text → Text → Call PublishResult
  unfolding pushed
  branch e source target w =
      let dest = if target == [] then source else target in
      if source == []
      then (err (other (codes "empty source branch")), w)
      else pushed dest (
          run_git e.dir e.run_env
            (codes "push" ∷ codes "--porcelain" ∷ remote_of e ∷ (source ++ codes ":" ++ dest) ∷ [])
            w)

  patched : Result Error Text × H.World → Result Error PublishResult × H.World
  patched (ok out, w) = (
    ok (record { ref = []; delivery_url = []; change_id = []; patch = out; no_change = false }),
    w,
  )
  patched (err e, w) = (err e, w)

  unfoldable pub patch_work : Env → Text → Text → Call PublishResult
  unfolding patched
  patch_work e source target w =
      let rng =
        if not (target == [])
        then target ++ codes ".." ++ source
        else source ++ codes "~1.." ++ source in
      patched (run_git e.dir e.run_env (codes "format-patch" ∷ rng ∷ codes "--stdout" ∷ []) w)

  subject_of : Strings → Text → Result Error Text × H.World → Text × H.World
  subject_of S ref (err _, w) = (ref, w)
  subject_of S ref (ok out, w) = let s = S.trim_space out in (if not (s == []) then s else ref, w)

  unfoldable pub tip_subject : Strings → Text → Text → H.World → Text × H.World
  unfolding subject_of
  tip_subject S dir ref w =
      subject_of S ref
        (run_git dir [] (codes "log" ∷ codes "-1" ∷ codes "--format=%s" ∷ ref ∷ []) w)
