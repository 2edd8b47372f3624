-- ===== src/Workspace/Batch/Finalize.antt =====
-- The end of a deletion: FinalizeDeletedSession of internal/workspacex/delete.go.
use boxwarden.Prelude.{
  Bool, Bytes, List, Option, Outcome, [], eqb, err, false, guard, if◌then◌else◌, is_empty, none,
  not, some, true, ◌&&◌, ◌==◌, ◌∷◌,
}
use boxwarden.Backend.{shows_absent}
use boxwarden.Ident.{valid_backend_object_id, valid_session_name, valid_uuid}
use boxwarden.Services.{Services}
use boxwarden.Session.Rebuild.Registry.{require_no_rebuild}
use boxwarden.Session.Store.{is_deleting, remove_deleting_record_locked}
use boxwarden.Session.Types.{SessionRecord, tart}
use boxwarden.Workspace.Batch.{
  admit_retained_volume, attached_volumes, each_ok, enter_batch, is_retained, reload_attachments,
  reload_session, write_volumes,
}
use boxwarden.Workspace.Bindings.{Mutation}
use boxwarden.Workspace.Types.{WorkspaceRecord}
use boxwarden.World.{M, World, asks, lift, sync_directory, ◌>>=◌, ◌>>◌}

module _ (s : Services) (domain_id : Bytes) where
  unfoldable pub is_deleted_binding : SessionRecord → Bool
  is_deleted_binding e =
      eqb e.domain domain_id
      && e.version == 2
      && is_deleting e.intended_state
      && eqb e.backend.kind tart
      && valid_uuid e.id
      && valid_session_name e.name
      && valid_backend_object_id e.backend.object_id
      && is_empty e.start_generation

  unfoldable pub check_idle : SessionRecord → World → WorkspaceRecord → Outcome (Unit {0})
  check_idle expected w r =
      if not (is_retained s domain_id expected r)
      then err
      else admit_retained_volume s domain_id r w

  abbrev pub detached : WorkspaceRecord → Option WorkspaceRecord
  detached r = some (record r { attachment = none })

  abbrev pub is_nil : List WorkspaceRecord → Bool
  is_nil [] = true
  is_nil (_ ∷ _) = false

  unfoldable pub finalize_locked : SessionRecord → List WorkspaceRecord → M (Unit {0})
  unfolding shows_absent check_idle
  finalize_locked expected initial = do
    reload_session s domain_id expected
    asks (require_no_rebuild domain_id expected.name)
    attached ← reload_attachments s domain_id expected initial
    o ← s.observe expected.backend.object_id
    lift (guard (shows_absent expected.backend.object_id o))
    asks (λ w. each_ok (check_idle expected w) attached)
    write_volumes s domain_id Mutation.detach detached attached
    remaining ← asks (attached_volumes s domain_id expected)
    lift (guard (is_nil remaining))
    sync_directory
    remove_deleting_record_locked expected

  unfoldable pub finalize_deleted_session : SessionRecord → M (Unit {0})
  unfolding is_deleted_binding finalize_locked
  finalize_deleted_session expected = do
    lift (guard (is_deleted_binding expected))
    initial ← enter_batch s domain_id expected
    finalize_locked expected initial
    s.release_locks
