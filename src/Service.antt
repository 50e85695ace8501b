-- ===== src/Service.antt =====
-- internal/apiserver: the services that a node answers calls by.
pub mod Node
pub mod Templates
pub mod State
pub mod Paths
pub mod Publishing
pub mod Transfer
pub mod Files
pub mod Sweeps
pub mod PublishWork
pub mod Examples
