-- ===== src/Events.antt =====
-- internal/events: the bounded, best-effort bus of domain events.
pub mod Event
pub mod Bus
pub mod Examples
