-- ===== src/Services.antt =====
-- What the transitions take from outside: the observer of the backend (internal/backend), the locks
-- (internal/lock, internal/workspacex/locks.go), the export journals, the admission of a formatted
-- disk (internal/workspaceformat), and encoding/json's coercion of texts. They are parameters. A
-- service may change the world: while it runs, others act. The releases of locks, whose errors the
-- transitions of one volume ignore, are left out there; those of a batch are `release_locks`.
use boxwarden.Prelude.{Bytes, Outcome, ℕ}
use boxwarden.Backend.{Observation}
use boxwarden.Workspace.Bindings.{ExportJournal}
use boxwarden.Workspace.Types.{DiskIdentity}
use boxwarden.World.{M, World}

pub record Request : Type 0 where
  pub domain : Bytes
  pub volume_id : Bytes
  pub filesystem_uuid : Bytes
  pub size_bytes : ℕ

pub record Qualification : Type 0 where
  pub domain : Bytes
  pub volume_id : Bytes
  pub filesystem_uuid : Bytes
  pub size_bytes : ℕ
  pub identity : DiskIdentity

pub record Services : Type 0 where
  pub observe : Bytes → M Observation
  pub acquire_session : Bytes → Bytes → M (Unit {0})
  pub acquire_storage : Bytes → M (Unit {0})
  pub acquire_volume : Bytes → Bytes → M (Unit {0})
  -- All the locks of one batch, released when it is over.
  pub release_locks : M (Unit {0})
  -- workspaceformat.Admit, and the close of the file that it opens.
  pub admit : Request → World → Outcome Qualification
  pub exports : Bytes → Outcome ExportJournal
  pub coerce : Bytes → Bytes
