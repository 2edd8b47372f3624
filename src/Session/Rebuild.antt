-- ===== src/Session/Rebuild.antt =====
-- The journal that binds a stopped session to a candidate system:
-- internal/session/rebuild_journal.go.
pub mod Journal
pub mod Marshal
pub mod Registry
pub mod Reserved
pub mod Load
pub mod Advance
pub mod Create
pub mod Lands
pub mod Retry
pub mod Driver
