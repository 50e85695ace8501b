-- ===== src/Git.antt =====
-- internal/git: the pipelines that a node runs in the base repository of a git-backed workspace.
pub mod Builder
pub mod Credential
pub mod Runner
pub mod Workspace
pub mod Examples
