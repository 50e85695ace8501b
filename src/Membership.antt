-- ===== src/Membership.antt =====
-- internal/membership: which swarm a node belongs to, what it knows of the other nodes, and the
-- nodes whose membership is revoked.
pub mod Identity
pub mod NodeState
pub mod Cluster
pub mod Examples
