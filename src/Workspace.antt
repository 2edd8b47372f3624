-- ===== src/Workspace.antt =====
-- internal/workspacex: records of volumes, their registry, and the transitions of attachment and
-- use.
pub mod Types
pub mod Decode
pub mod Valid
pub mod Bindings
pub mod Attached
pub mod Transition
pub mod Batch
