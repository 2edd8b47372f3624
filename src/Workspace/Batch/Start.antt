-- ===== src/Workspace/Batch/Start.antt =====
-- The reservation of all volumes of a session before it starts, and its later verification:
-- internal/workspacex/prepare_start.go.
use boxwarden.Prelude.{
  Bool, Bytes, List, Option, Outcome, [], bind, eqb, err, false, guard, if◌then◌else◌, is_some,
  none, not, same, some, true, ◌&&◌, ◌==◌, ◌||◌,
}
use boxwarden.Backend.{is_running_intent}
use boxwarden.Ident.{valid_backend_object_id, valid_session_name, valid_uuid}
use boxwarden.Services.{Services}
use boxwarden.Session.Decode.{is_starting, is_stopped}
use boxwarden.Session.Rebuild.Journal.{Journal-discrete, RebuildJournal, RebuildPhase}
use boxwarden.Session.Rebuild.Registry.{load_present, require_no_rebuild}
use boxwarden.Session.Store.{save_record}
use boxwarden.Session.Types.{IntendedState, ReadinessStatus, SessionRecord, tart}
use boxwarden.Workspace.Batch.{
  attached_volumes, each_ok, enter_batch, is_disk, reload_attachments, reload_session, request_of,
  write_volumes,
}
use boxwarden.Workspace.Bindings.{Mutation}
use boxwarden.Workspace.Transition.{observed_stopped}
use boxwarden.Workspace.Types.{Use, Use-discrete, WorkspaceRecord, is_available}
use boxwarden.World.{M, World, asks, lift, pure, ◌>>=◌, ◌>>◌}

module _ (s : Services) (domain_id : Bytes) where
  unfoldable pub is_start_binding : SessionRecord → Bytes → Bool
  is_start_binding e generation =
      eqb e.domain domain_id
      && e.version == 2
      && is_stopped e.intended_state
      && eqb e.backend.kind tart
      && valid_uuid e.id
      && valid_session_name e.name
      && valid_backend_object_id e.backend.object_id
      && valid_uuid generation

  abbrev pub may_start : RebuildPhase → Bool
  may_start RebuildPhase.cutover = true
  may_start RebuildPhase.ready = true
  may_start RebuildPhase.retiring = true
  may_start _ = false

  -- No rebuild is pending, or exactly the given one whose candidate this session is.
  unfoldable pub rebuild_admits : SessionRecord → Option RebuildJournal → World → Outcome (Unit {0})
  rebuild_admits e none w = require_no_rebuild domain_id e.name w
  rebuild_admits e (some j) w = bind (load_present domain_id e.name w) (λ current. guard (
      same Journal-discrete current j
      && may_start current.phase
      && eqb current.session_id e.id
      && eqb current.candidate_backend e.backend.object_id
      && eqb current.candidate_revision e.golden_revision))

  unfoldable pub check_startable : World → WorkspaceRecord → Outcome (Unit {0})
  check_startable w r =
      if not (
        is_available r.state && is_some r.disk && not (is_some r.pending) && not (is_some r.in_use))
      then err
      else bind (s.admit (request_of s domain_id r) w)
          (λ q. guard (is_disk s domain_id r.disk q.identity))

  unfoldable pub use_of : SessionRecord → Bytes → Use
  use_of e generation = record {
    backend_kind = e.backend.kind;
    backend_object = e.backend.object_id;
    generation = generation;
  }

  abbrev pub with_use : Use → WorkspaceRecord → Option WorkspaceRecord
  with_use u r = some (record r { in_use = some u })

  abbrev pub as_starting : SessionRecord → Bytes → SessionRecord
  as_starting e generation = record e {
    intended_state = IntendedState.starting;
    start_generation = generation;
    readiness = record { status = ReadinessStatus.starting; diagnostic = [] };
  }

  -- The uses are written before the session is published as starting.
  unfoldable pub commit_start : SessionRecord → Bytes → List WorkspaceRecord → M SessionRecord
  unfolding use_of
  commit_start expected generation attached = do
    write_volumes s domain_id Mutation.reserve_use (with_use (use_of expected generation)) attached
    save_record s.coerce domain_id (as_starting expected generation)
    pure (as_starting expected generation)

  unfoldable pub prepare_locked :
      SessionRecord → Bytes → Option RebuildJournal → List WorkspaceRecord → M SessionRecord
  unfolding rebuild_admits check_startable commit_start
  prepare_locked expected generation rebuild initial = do
    reload_session s domain_id expected
    asks (rebuild_admits expected rebuild)
    attached ← reload_attachments s domain_id expected initial
    observed_stopped s domain_id expected.backend.object_id
    asks (λ w. each_ok (check_startable w) attached)
    commit_start expected generation attached

  unfoldable pub prepare_session_start :
      SessionRecord → Bytes → Option RebuildJournal → M SessionRecord
  unfolding is_start_binding prepare_locked
  prepare_session_start expected generation rebuild = do
    lift (guard (is_start_binding expected generation))
    initial ← enter_batch s domain_id expected
    started ← prepare_locked expected generation rebuild initial
    s.release_locks
    pure started

  unfoldable pub carries_use : Use → WorkspaceRecord → Outcome (Unit {0})
  carries_use want r = guard (
      is_available r.state
      && is_some r.disk
      && not (is_some r.pending)
      && same Use-discrete r.in_use (some want))

  unfoldable pub verify_uses_locked : SessionRecord → M (Unit {0})
  unfolding use_of carries_use
  verify_uses_locked expected = do
    reload_session s domain_id expected
    attached ← asks (attached_volumes s domain_id expected)
    lift (each_ok (carries_use (use_of expected expected.start_generation)) attached)

  unfoldable pub verify_session_uses : SessionRecord → M (Unit {0})
  unfolding verify_uses_locked
  verify_session_uses expected = do
    lift (
        guard (
          eqb expected.domain domain_id
          && (is_starting expected.intended_state || is_running_intent expected.intended_state)
          && valid_uuid expected.id
          && valid_uuid expected.start_generation
          && valid_session_name expected.name))
    s.acquire_storage domain_id
    verify_uses_locked expected
