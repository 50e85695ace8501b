-- ===== src/Ops.antt =====
-- internal/ops: asynchronous operations and provision idempotency.
pub mod Manager
pub mod Examples
