-- ===== src/Provision/Local.antt =====
-- internal/apiserver/provision_git.go: a sandbox is created on this node, with the base of its
-- workspace locked and fresh if it is to be cloned. `head` is ResolveReviewHead of the review
-- providers: the ref to fetch, if any, and the local branch.
pub mod Cloning
pub mod Refusals
use sbx_swarm_node.Prelude.{
  ℕ, Bool, true, false, not, ◌&&◌, ◌||◌, List, [], ◌∷◌, Option, none, some, String, Text, codes,
  Map, get, contains, keep, length, eqb, string_eq, text_eq, ◌==◌, if◌then◌else◌, Result, ok, err,
  Exec, Wait, then_do, at_once, fail,
}
use sbx_swarm_node.Sandbox.Record.{Backend, CreateSpec, ReviewRef, WorkspaceMount, Record}
use sbx_swarm_node.Sandbox.Record as Sandboxes
use sbx_swarm_node.Sandbox.Manager.{Manager, admit_and_create}
use sbx_swarm_node.Git.Runner.{Host}
use sbx_swarm_node.Git.Workspace as Git

pub data Error (R : Type 0) : Type 0 where
  clone_needs_git git_needs_clone : Error R
  ensure_base_failed pre_failed fetch_head_failed : Git.Error → Error R
  review_failed : R → Error R
  from_manager : Sandboxes.Error → Error R

-- The review head: the ref to fetch, empty if none, and the local branch.
pub record ReviewHead : Type 0 where
  pub fetch_ref : Text
  pub local_branch : String

-- What the provisioning of a node uses: its manager's surroundings, its host, and its git-backed
-- workspaces by name.
pub record Setting : Type 1 where
  pub B : Backend
  pub mint : ℕ → String
  pub clock : ℕ → ℕ
  pub node_id : String
  pub H : Host
  pub base64 : Text → Text
  pub Refusal : Type 0
  pub head : Git.Spec → String → H.World → Result Refusal ReviewHead × H.World
  pub git_ws : Map String Git.Spec

module _ (S : Setting) where
  abbrev pub Mgr : Type 0
  Mgr = Manager S.B S.mint S.clock S.node_id

  -- `held` is the names of the workspaces whose lock is taken.
  pub record State : Type 0 where
    pub mgr : Mgr
    pub held : List String
    pub world : S.H.World

  abbrev pub E : Type 0
  E = Error S.Refusal

  -- The last of the mounts that is git-backed, with its name.
  unfoldable pub last_git : List WorkspaceMount → Option (String × Git.Spec)
  last_git [] = none
  last_git (w ∷ ws) = or_else (last_git ws) (named (get w.name S.git_ws))
    where
      named : Option Git.Spec → Option (String × Git.Spec)
      named none = none
      named (some g) = some (w.name, g)

      or_else : Option (String × Git.Spec) → Option (String × Git.Spec) → Option (String × Git.Spec)
      or_else (some g) _ = some g
      or_else none g = g

  -- The lock of the workspace, as the state holds it.
  set_lock : String → Bool → List String → List String
  set_lock name true held = if contains name held then held else name ∷ held
  set_lock name false held = keep (λ n. not (n == name)) held

  git_result :
      String
      → (Git.Error → E)
      → State
      → Option (Result Git.Error (Unit {0}) × Git.Workspace S.H)
      → Option (Result E (Unit {0}) × State)
  unfolding set_lock
  git_result name wrap s none = none
  git_result name wrap s (some (r, c)) =
      some (wrapped r, record s { held = set_lock name c.locked s.held; world = c.world })
    where
      wrapped : Result Git.Error (Unit {0}) → Result E (Unit {0})
      wrapped (ok _) = ok tt
      wrapped (err e) = err (wrap e)

  -- A call of the workspace's git operations; `wrap` is the error that is made of theirs.
  git_call : String → (Git.Error → E) → Git.Op S.H (Unit {0}) → Wait E State (Unit {0})
  unfolding git_result
  git_call name wrap op s =
      git_result name wrap s (op (record { locked = contains name s.held; world = s.world }))

  resolved : Result S.Refusal ReviewHead × S.H.World → State → Option (Result E ReviewHead × State)
  resolved (ok h, w) s = some (ok h, record s { world = w })
  resolved (err e, w) s = some (err (review_failed e), record s { world = w })

  fetch_head : String → Git.Spec → ReviewHead → Wait E State (Unit {0})
  unfolding git_call
  fetch_head name g h s =
      if h.fetch_ref == []
      then some (ok tt, s)
      else git_call name fetch_head_failed
          (Git.fetch_ref S.H S.base64 g h.fetch_ref (codes h.local_branch)) s

  -- resolveReviewHead
  review_branch : String → Git.Spec → String → Wait E State String
  unfolding resolved fetch_head
  review_branch name g id =
      then_do (λ s. resolved (S.head g id s.world) s)
        λ h. then_do (fetch_head name g h) λ _. λ s. some (ok h.local_branch, s)

  -- The specification with the branch of its review, if it is for one.
  with_review : String → Git.Spec → CreateSpec → Option ReviewRef → Wait E State CreateSpec
  unfolding review_branch
  with_review name g spec none s = some (ok spec, s)
  with_review name g spec (some r) s =
      then_do (review_branch name g r.id)
        (λ branch s'. some (ok (record spec { branch = branch }), s')) s

  admitted : State → Result Sandboxes.Error Record × Mgr → Result E Record × State
  admitted s (ok r, m) = (ok r, record s { mgr = m })
  admitted s (err e, m) = (err (from_manager e), record s { mgr = m })

  admit : CreateSpec → Wait E State Record
  unfolding admitted
  admit spec s = some (admitted s (admit_and_create S.B S.mint S.clock S.node_id spec s.mgr))

  -- The deferred unlock, on every outcome.
  unlocking : String → Option (Result E Record × State) → Option (Result E Record × State)
  unfolding set_lock
  unlocking name none = none
  unlocking name (some (r, s)) = some (r, record s { held = set_lock name false s.held })

  create_locked : String → CreateSpec → Wait E State Record
  unfolding admit unlocking
  create_locked name spec s = unlocking name (admit spec s)

  clone_into : String → Git.Spec → CreateSpec → Wait E State Record
  unfolding git_call with_review create_locked
  clone_into name g spec =
      then_do (git_call name ensure_base_failed (Git.ensure_base S.H S.base64 g)) λ _.
        then_do (with_review name g spec spec.review_ref) λ spec'.
          then_do (git_call name pre_failed (Git.pre_lock S.H S.base64 g (codes spec'.branch)))
            λ _. create_locked name spec'

  clone_last : CreateSpec → Option (String × Git.Spec) → Wait E State Record
  unfolding clone_into
  clone_last spec none = fail clone_needs_git
  clone_last spec (some (name, g)) =
      if not (eqb (length spec.workspaces) 1) then fail clone_needs_git else clone_into name g spec

  plain_last : CreateSpec → Option (String × Git.Spec) → Wait E State Record
  unfolding admit
  plain_last spec none = admit spec
  plain_last spec (some _) = fail git_needs_clone

  unfoldable pub provision_local : CreateSpec → Wait E State Record
  unfolding clone_last plain_last
  provision_local spec =
      let gw = last_git spec.workspaces in
      if spec.clone then clone_last spec gw else plain_last spec gw
