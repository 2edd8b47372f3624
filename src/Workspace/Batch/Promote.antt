-- ===== src/Workspace/Batch/Promote.antt =====
-- The promotion of a formatted volume: internal/workspacex/promotion.go.
use boxwarden.Prelude.{
  Bool, Bytes, eqb, guard, if◌then◌else◌, is_some, not, same, some, ◌&&◌, ◌==◌, ◌||◌,
}
use boxwarden.Ident.{valid_uuid}
use boxwarden.Services.{Qualification, Services}
use boxwarden.Workspace.Batch.{request_of}
use boxwarden.Workspace.Bindings.{Mutation, load_record}
use boxwarden.Workspace.Transition.{write_record}
use boxwarden.Workspace.Types.{
  Disk-discrete, DiskIdentity, State, WorkspaceRecord, complete_disk, is_available, is_creating,
}
use boxwarden.World.{M, asks, lift, pure, sync_directory, ◌>>=◌, ◌>>◌}

module _ (s : Services) (domain_id : Bytes) where
  unfoldable pub is_promotable : WorkspaceRecord → Bool
  is_promotable r =
      (is_creating r.state || is_available r.state)
      && not (is_some r.attachment)
      && not (is_some r.in_use)
      && not (is_some r.pending)

  unfoldable pub qualifies : Bytes → WorkspaceRecord → Qualification → Bool
  qualifies volume_id r q =
      eqb q.domain r.domain
      && eqb q.volume_id volume_id
      && eqb q.filesystem_uuid r.filesystem_uuid
      && q.size_bytes == r.size_bytes
      && complete_disk q.identity

  -- A volume that an earlier attempt has promoted: its record is synced again.
  unfoldable pub confirm_promoted : WorkspaceRecord → DiskIdentity → M WorkspaceRecord
  confirm_promoted r disk = do
    lift (guard (same Disk-discrete r.disk (some disk)))
    sync_directory
    pure r

  abbrev pub as_available : WorkspaceRecord → DiskIdentity → WorkspaceRecord
  as_available r disk = record r { state = State.available; disk = some disk }

  unfoldable pub publish_promoted : WorkspaceRecord → DiskIdentity → M WorkspaceRecord
  publish_promoted r disk = do
    lift (guard (not (is_some r.disk)))
    write_record s domain_id Mutation.promote_verified (as_available r disk)

  unfoldable pub promote_locked : Bytes → M WorkspaceRecord
  unfolding is_promotable qualifies confirm_promoted publish_promoted
  promote_locked volume_id = do
    r ← asks (load_record domain_id volume_id)
    lift (guard (is_promotable r))
    q ← asks (s.admit (record (request_of s domain_id r) { volume_id = volume_id }))
    lift (guard (qualifies volume_id r q))
    if is_available r.state then confirm_promoted r q.identity else publish_promoted r q.identity

  unfoldable pub promote_verified : Bytes → M WorkspaceRecord
  unfolding promote_locked
  promote_verified volume_id = do
    lift (guard (valid_uuid volume_id))
    s.acquire_storage domain_id
    promote_locked volume_id
