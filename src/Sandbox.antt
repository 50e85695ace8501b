-- ===== src/Sandbox.antt =====
-- internal/sandbox: the records of a node's sandboxes, their admission within the node's limit and
-- the kits it offers.
pub mod Amounts
pub mod Capacity
pub mod Record
pub mod Manager
pub mod Cleanup
pub mod Kits
pub mod Fake
pub mod Examples
