-- ===== src/Service/State.antt =====
-- internal/apiserver/sandboxservice.go: the state of the sandbox service, and the calls that it makes.
-- The audit log and the publisher of events are wired; the payload of an event is left out.
use sbx_swarm_node.Prelude.{
  Bool, true, false, not, List, [], ◌∷◌, ◌++◌, Option, none, some, String, Text, contains, keep,
  string_eq, ◌==◌, if◌then◌else◌, Result, ok, err, Exec, Wait, ℤ,
}
use sbx_swarm_node.Sandbox.Record.{Record}
use sbx_swarm_node.Sandbox.Record as Sandboxes
use sbx_swarm_node.Sandbox.Manager.{Notice}
use sbx_swarm_node.Git.Workspace as Git
use sbx_swarm_node.Provision.Local.{Setting, Mgr}
use sbx_swarm_node.GitProvider.Strategies.{Code}
use sbx_swarm_node.Service.Templates.{AuditEntry}

pub record ExecResult : Type 0 where
  pub exit_code : ℤ
  pub stdout : Text
  pub stderr : Text

-- The text of an error that is passed on.
pub data Cause : Type 0 where
  by_manager : Sandboxes.Error → Cause
  by_git : Git.Error → Cause
  by_text : Text → Cause

pub data ApiError : Type 0 where
  refused : Code → Text → ApiError
  caused : Code → Cause → ApiError

-- The calls of a backend that run in a sandbox or copy from it, the temporary files of the host, and
-- strings.TrimSpace.
pub record Tools (S : Setting) : Type 0 where
  pub exec : String → List Text → S.B.Daemon → Result Sandboxes.Error ExecResult × S.B.Daemon
  pub copy_from :
      String
      → Text
      → Text
      → S.B.Daemon × S.H.World
      → Result Sandboxes.Error (Unit {0}) × S.B.Daemon × S.H.World
  pub create_temp : Text → S.H.World → Option Text × S.H.World
  pub remove_file : Text → S.H.World → S.H.World
  pub base_name : Text → Text
  pub trim_space : Text → Text

module _ (S : Setting) (T : Tools S) where
  -- `held` is the names of the workspaces whose lock is taken, and `audit_faults` says of the writes to
  -- the audit log to come which of them fail.
  pub record Service : Type 0 where
    pub mgr : Mgr S
    pub held : List String
    pub world : S.H.World
    pub audit : List AuditEntry
    pub audit_faults : List Bool

  abbrev pub Call : Type 0 → Type 0
  Call A = Exec ApiError Service A

  abbrev pub Blocking : Type 0 → Type 0
  Blocking A = Wait ApiError Service A

  unfoldable pub by_mgr :
      {A : Type 0}
      → (Sandboxes.Error → ApiError)
      → Service
      → Result Sandboxes.Error A × Mgr S
      → Result ApiError A × Service
  by_mgr wrap s (ok a, m) = (ok a, record s { mgr = m })
  by_mgr wrap s (err e, m) = (err (wrap e), record s { mgr = m })

  -- A call of the manager; `wrap` is the error that is made of its.
  unfoldable pub ask :
      {A : Type 0} → (Sandboxes.Error → ApiError) → Exec Sandboxes.Error (Mgr S) A → Call A
  unfolding by_mgr
  ask wrap call s = by_mgr wrap s (call s.mgr)

  -- A command in a sandbox.
  unfoldable pub exec_in :
      String → List Text → Service → Result Sandboxes.Error ExecResult × Service
  exec_in name cmd s =
      let (r, d) = T.exec name cmd s.mgr.daemon in
      (r, record s { mgr = record s.mgr { daemon = d } })

  -- Both logs have their newest entry last.
  unfoldable pub emit : String → String → Service → Service
  emit event_type id s =
      let note : Notice = record { event_type = event_type; sandbox_id = id } in
      record s { mgr = record s.mgr { published = s.mgr.published ++ note ∷ [] } }

  next_fails : List Bool → Bool
  next_fails [] = false
  next_fails (b ∷ _) = b

  next_faults : List Bool → List Bool
  next_faults [] = []
  next_faults (_ ∷ bs) = bs

  -- The error of a write that fails is dropped, and with it the entry.
  unfoldable pub record_audit : AuditEntry → Service → Service
  unfolding next_fails next_faults
  record_audit e s = record s {
    audit = if next_fails s.audit_faults then s.audit else s.audit ++ e ∷ [];
    audit_faults = next_faults s.audit_faults;
  }

  unfoldable pub set_lock : String → Bool → List String → List String
  set_lock name true held = if contains name held then held else name ∷ held
  set_lock name false held = keep (λ n. not (n == name)) held

  unfoldable pub after_git :
      String
      → Service
      → Option (Result Git.Error (Unit {0}) × Git.Workspace S.H)
      → Option (Result Git.Error (Unit {0}) × Service)
  unfolding set_lock
  after_git name s none = none
  after_git name s (some (r, c)) =
      some (r, record s { held = set_lock name c.locked s.held; world = c.world })

  -- An operation of a workspace; it may have to wait for its lock.
  unfoldable pub git_call :
      String → Git.Op S.H (Unit {0}) → Service → Option (Result Git.Error (Unit {0}) × Service)
  unfolding after_git
  git_call name op s =
      after_git name s (op (record { locked = contains name s.held; world = s.world }))
