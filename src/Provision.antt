-- ===== src/Provision.antt =====
-- internal/apiserver/sandboxservice.go, provision.go and provision_git.go, with the attempts of
-- internal/node/node.go: from a request for a sandbox to its creation on one node.
pub mod Sizing
pub mod Dedup
pub mod Local
pub mod Target
pub mod Entry
pub mod Examples
