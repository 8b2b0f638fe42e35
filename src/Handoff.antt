-- ===== src/Handoff.antt =====
-- The handoff of a session to another device (internal/handoff and internal/daemon/handoff_outbox.go).
pub mod Manifest
pub mod Record
pub mod Files
pub mod Store
pub mod Source
pub mod Action
pub mod Outbox
pub mod Target
mod Tests
