-- ===== src/GitProvider.antt =====
-- internal/gitprovider: work is published to the forge of a workspace, and reviews are read from it.
pub mod Provider
pub mod Strategies
pub mod Gerrit
pub mod Rest
pub mod Requests
pub mod Threads
pub mod Chains
pub mod Reviews
pub mod GithubReview
pub mod GerritReview
pub mod GerritReplies
pub mod Dispatch
pub mod Examples
