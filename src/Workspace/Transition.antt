-- ===== src/Workspace/Transition.antt =====
-- The transitions of one volume: internal/workspacex/transition.go. What happens under the locks is
-- an operation of its own.
pub mod Stopped
pub mod Granted
pub mod Released
use boxwarden.Prelude.{
  Bool, Bytes, List, Option, Outcome, [], eqb, err, false, guard, is_some, length, ltb, none, not,
  ok, same, some, ◌&&◌, ◌||◌, ◌∷◌,
}
use boxwarden.Backend.{shows_stopped}
use boxwarden.Ident.{valid_backend_object_id, valid_mount_path, valid_session_name, valid_uuid}
use boxwarden.Services.{Services}
use boxwarden.Session.Decode.{is_stopped, is_stopping}
use boxwarden.Session.Rebuild.Registry.{require_no_rebuild}
use boxwarden.Session.Store.{load_session}
use boxwarden.Session.Types.{SessionRecord, tart}
use boxwarden.Workspace.Attached.{list_session_attachments, max_session_attachments}
use boxwarden.Workspace.Bindings.{Mutation, load_record, save_record_transition}
use boxwarden.Workspace.Types.{
  Attachment, Attachment-discrete, Use, Use-discrete, WorkspaceRecord, is_available,
}
use boxwarden.World.{M, asks, lift, pure, ◌>>=◌, ◌>>◌}

-- Available, and no use or pending operation stands in the way.
unfoldable pub is_idle : WorkspaceRecord → Bool
is_idle r = is_available r.state && not (is_some r.in_use) && not (is_some r.pending)

abbrev pub attached_to : Option Attachment → Bytes → Bool
attached_to none session_name = false
attached_to (some a) session_name = eqb a.session_name session_name

abbrev pub attached_id : Option Attachment → Bytes → Bool
attached_id none session_id = false
attached_id (some a) session_id = eqb a.session_id session_id

-- The attachment of a record that must have one.
abbrev pub attachment_of : WorkspaceRecord → Outcome Attachment
attachment_of r = elim r.attachment [ none ↦ err | some a ↦ ok a ]

-- Another volume of the session has this filesystem.
unfoldable pub has_filesystem : Bytes → List WorkspaceRecord → Bool
has_filesystem u [] = false
has_filesystem u (r ∷ rs) = eqb r.filesystem_uuid u || has_filesystem u rs

module _ (s : Services) (domain_id : Bytes) where
  unfoldable pub observed_stopped : Bytes → M (Unit {0})
  unfolding shows_stopped
  observed_stopped object_id = do o ← s.observe object_id; lift (guard (shows_stopped object_id o))

  unfoldable pub stopped_session : Bytes → M SessionRecord
  unfolding observed_stopped
  stopped_session name = do
    r ← asks (load_session domain_id name)
    lift (guard (is_stopped r.intended_state && eqb r.backend.kind tart))
    asks (require_no_rebuild domain_id name)
    observed_stopped r.backend.object_id
    pure r

  -- saveRecordTransition, and the record that was written.
  abbrev pub write_record : Mutation → WorkspaceRecord → M WorkspaceRecord
  write_record m next = do save_record_transition s.exports domain_id next m [] s.coerce; pure next

  unfoldable pub attach_locked : Bytes → Bytes → Bytes → M WorkspaceRecord
  unfolding stopped_session is_idle has_filesystem list_session_attachments
  attach_locked volume_id session_name mount_path = do
    r ← asks (load_record domain_id volume_id)
    lift (guard (is_idle r && not (is_some r.attachment)))
    target ← stopped_session session_name
    attached ← asks (list_session_attachments domain_id target.id session_name)
    lift (guard (ltb (length attached) max_session_attachments))
    lift (guard (not (has_filesystem r.filesystem_uuid attached)))
    write_record Mutation.attach (record r {
      attachment =
          some (record {
            session_id = target.id;
            session_name = session_name;
            mount_path = mount_path;
          });
    })

  unfoldable pub attach : Bytes → Bytes → Bytes → M WorkspaceRecord
  unfolding attach_locked
  attach volume_id session_name mount_path = do
    lift (
        guard
          (valid_uuid volume_id && valid_session_name session_name && valid_mount_path mount_path))
    s.acquire_session domain_id session_name
    s.acquire_storage domain_id
    attach_locked volume_id session_name mount_path

  unfoldable pub detach_locked : Bytes → Bytes → M WorkspaceRecord
  unfolding stopped_session is_idle
  detach_locked volume_id session_name = do
    r ← asks (load_record domain_id volume_id)
    lift (guard (is_idle r && attached_to r.attachment session_name))
    target ← stopped_session session_name
    lift (guard (attached_id r.attachment target.id))
    write_record Mutation.detach (record r { attachment = none })

  unfoldable pub detach : Bytes → Bytes → M WorkspaceRecord
  unfolding detach_locked
  detach volume_id session_name = do
    lift (guard (valid_uuid volume_id && valid_session_name session_name))
    s.acquire_session domain_id session_name
    s.acquire_storage domain_id
    detach_locked volume_id session_name

  unfoldable pub reserve_use_locked : Bytes → Use → Attachment → M WorkspaceRecord
  unfolding stopped_session is_idle
  reserve_use_locked volume_id requested initial = do
    r ← asks (load_record domain_id volume_id)
    lift (guard (is_idle r && same Attachment-discrete r.attachment (some initial)))
    target ← stopped_session initial.session_name
    lift (
        guard (
          eqb target.id initial.session_id
          && eqb target.backend.object_id requested.backend_object))
    write_record Mutation.reserve_use (record r { in_use = some requested })

  unfoldable pub reserve_use : Bytes → Use → M WorkspaceRecord
  unfolding reserve_use_locked
  reserve_use volume_id requested = do
    lift (
        guard (
          valid_uuid volume_id
          && eqb requested.backend_kind tart
          && valid_backend_object_id requested.backend_object
          && valid_uuid requested.generation))
    r ← asks (load_record domain_id volume_id)
    initial ← lift (attachment_of r)
    s.acquire_session domain_id initial.session_name
    s.acquire_storage domain_id
    reserve_use_locked volume_id requested initial

  -- The session is stopped, or is stopping exactly the generation of the use.
  unfoldable pub ends_use : SessionRecord → Attachment → Use → Bool
  ends_use r a expected =
      eqb r.id a.session_id
      && eqb r.backend.kind expected.backend_kind
      && eqb r.backend.object_id expected.backend_object
      && (is_stopped r.intended_state || is_stopping r.intended_state)
      && not (is_stopping r.intended_state && not (eqb r.start_generation expected.generation))

  unfoldable pub release_use_locked : Bytes → Use → Attachment → M WorkspaceRecord
  unfolding observed_stopped ends_use
  release_use_locked volume_id expected initial = do
    r ← asks (load_record domain_id volume_id)
    lift (
        guard (
          attached_to r.attachment initial.session_name
          && attached_id r.attachment initial.session_id
          && same Use-discrete r.in_use (some expected)
          && not (is_some r.pending)))
    lift (guard (eqb expected.backend_kind tart))
    owner ← asks (load_session domain_id initial.session_name)
    lift (guard (ends_use owner initial expected))
    observed_stopped expected.backend_object
    write_record Mutation.release_use (record r { in_use = none })

  unfoldable pub release_use_after_observed_stop : Bytes → Use → M WorkspaceRecord
  unfolding release_use_locked
  release_use_after_observed_stop volume_id expected = do
    lift (guard (valid_uuid volume_id))
    r ← asks (load_record domain_id volume_id)
    initial ← lift (attachment_of r)
    s.acquire_volume domain_id volume_id
    s.acquire_session domain_id initial.session_name
    s.acquire_storage domain_id
    release_use_locked volume_id expected initial
