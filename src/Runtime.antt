-- ===== src/Runtime.antt =====
-- How deletion is put together: internal/sessionruntime/delete.go hands the workspace operations to
-- the session lifecycle.
pub mod Deletion
-- The lifecycle's outside with the gate and the finalizer in their places.
use boxwarden.Prelude.{Bytes}
use boxwarden.Services.{Services}
use boxwarden.Session.Outside.{Outside}
use boxwarden.Workspace.Batch.Finalize.{finalize_deleted_session}
use boxwarden.Workspace.Batch.Gate.{with_stopped_delete_gate}

abbrev pub wired : Services → Bytes → Outside → Outside
wired s d o = record o {
  observe = s.observe;
  acquire_session = s.acquire_session;
  delete_gate = with_stopped_delete_gate s d;
  finalize = finalize_deleted_session s d;
  coerce = s.coerce;
}
