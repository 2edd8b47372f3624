-- ===== src/Session.antt =====
-- internal/session: records, their store, and the lifecycle.
pub mod Types
pub mod Decode
pub mod Store
pub mod Rebuild
pub mod Outside
pub mod Stop
pub mod Delete
pub mod Supervised
pub mod Start
pub mod Create
