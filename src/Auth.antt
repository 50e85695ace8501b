-- ===== src/Auth.antt =====
-- Who may call what: session tokens, node tokens, the authenticators of calls and of HTTP requests,
-- and the authorization policy (internal/auth, internal/nodekey, internal/apiserver/authn.go and
-- authz.go).
pub mod Session
pub mod NodeKey
pub mod Policy
pub mod Principal
pub mod Middleware
pub mod Examples
