-- ===== src/Workspace/Batch/Release.antt =====
-- The release of all uses of one session: internal/workspacex/release_uses.go.
use boxwarden.Prelude.{
  Bool, Bytes, List, Option, Outcome, eqb, err, guard, if◌then◌else◌, is_empty, is_some, none, not,
  some, true, ◌&&◌, ◌||◌,
}
use boxwarden.Ident.{valid_backend_object_id, valid_session_name, valid_uuid}
use boxwarden.Services.{Services}
use boxwarden.Session.Decode.{is_stopped, is_stopping}
use boxwarden.Session.Types.{SessionRecord, tart}
use boxwarden.Workspace.Batch.{
  each_ok, enter_batch, reload_attachments, reload_session, write_volumes,
}
use boxwarden.Workspace.Bindings.{Mutation}
use boxwarden.Workspace.Transition.{observed_stopped}
use boxwarden.Workspace.Types.{Use, WorkspaceRecord, is_available}
use boxwarden.World.{M, lift, ◌>>=◌, ◌>>◌}

module _ (s : Services) (domain_id : Bytes) where
  unfoldable pub is_release_binding : SessionRecord → Bool
  is_release_binding e =
      eqb e.domain domain_id
      && (is_stopping e.intended_state || is_stopped e.intended_state)
      && eqb e.backend.kind tart
      && valid_backend_object_id e.backend.object_id
      && valid_uuid e.id
      && valid_session_name e.name
      && not (is_stopping e.intended_state && not (valid_uuid e.start_generation))
      && not (is_stopped e.intended_state && not (is_empty e.start_generation))

  -- The use is one of the session's object and, while it is stopping, of its generation.
  abbrev pub is_own_use : SessionRecord → Option Use → Bool
  is_own_use e none = true
  is_own_use e (some u) =
      eqb u.backend_kind e.backend.kind
      && eqb u.backend_object e.backend.object_id
      && not (is_stopping e.intended_state && not (eqb u.generation e.start_generation))

  unfoldable pub check_releasable : SessionRecord → WorkspaceRecord → Outcome (Unit {0})
  check_releasable e r =
      if not (is_available r.state) || is_some r.pending || not (is_some r.disk)
      then err
      else guard (is_own_use e r.in_use)

  -- A volume without a use is passed over.
  unfoldable pub without_use : WorkspaceRecord → Option WorkspaceRecord
  without_use r = elim r.in_use [ none ↦ none | some _ ↦ some (record r { in_use = none }) ]

  unfoldable pub release_uses_locked : SessionRecord → List WorkspaceRecord → M (Unit {0})
  unfolding check_releasable without_use
  release_uses_locked expected initial = do
    reload_session s domain_id expected
    attached ← reload_attachments s domain_id expected initial
    observed_stopped s domain_id expected.backend.object_id
    lift (each_ok (check_releasable expected) attached)
    write_volumes s domain_id Mutation.release_use without_use attached

  unfoldable pub release_session_uses : SessionRecord → M (Unit {0})
  unfolding is_release_binding release_uses_locked
  release_session_uses expected = do
    lift (guard (is_release_binding expected))
    initial ← enter_batch s domain_id expected
    release_uses_locked expected initial
    s.release_locks
