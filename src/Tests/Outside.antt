-- ===== src/Tests/Outside.antt =====
-- Services that the tests use: every backend object is seen stopped, and nobody else acts.
use boxwarden.Prelude.{[], codes, ok, some, true, ◌∷◌}
use boxwarden.Backend.{ObjectState, Observation, shows_absent}
use boxwarden.Services.{Services}
use boxwarden.Session.Decode.Marshal.{marshal_record}
use boxwarden.Session.Types.{tart}
use boxwarden.Tests.Sample.{dev, plain, stopped_dev, uuid_b}
use boxwarden.Tests.Volumes.{attached_volume, no_exports, volumes}
use boxwarden.Workspace.Attached.{list_session_attachments}
use boxwarden.Workspace.Batch.{
  Records-discrete, acquire_volumes, admit_retained_volume, each_ok, enter_batch, is_retained,
  list_attachments, reload_attachments, reload_session, request_of, write_volumes,
}
use boxwarden.Workspace.Batch.Finalize.{check_idle, finalize_deleted_session, finalize_locked}
use boxwarden.Workspace.Batch.Gate.{admit_then, rebuild_gate_locked, with_stopped_delete_gate}
use boxwarden.Workspace.Batch.Promote.{promote_locked}
use boxwarden.Workspace.Batch.Release.{check_releasable, release_uses_locked, without_use}
use boxwarden.Workspace.Batch.Start.{
  carries_use, check_startable, commit_start, prepare_locked, rebuild_admits, use_of,
  verify_uses_locked,
}
use boxwarden.Workspace.Bindings.{mounts_overlap}
use boxwarden.Workspace.Transition.{
  attach_locked, detach_locked, release_use_locked, reserve_use_locked,
}
use boxwarden.Workspace.Types.{Use, WorkspaceRecord}
use boxwarden.World.{World, json_name, sync_directory}

abbrev pub seen_stopped : Observation
seen_stopped = record {
  object_id = codes "boxwarden-work-1";
  exists = true;
  state = ObjectState.stopped;
  diagnostic = [];
}

abbrev pub quiet : Services
quiet = record {
  observe = λ id w. (ok (record seen_stopped { object_id = id }), w);
  acquire_session = λ d n w. (ok tt, w);
  acquire_storage = λ d w. (ok tt, w);
  acquire_volume = λ d v w. (ok tt, w);
  release_locks = λ w. (ok tt, w);
  admit = λ q w. ok (record {
    domain = q.domain;
    volume_id = q.volume_id;
    filesystem_uuid = q.filesystem_uuid;
    size_bytes = q.size_bytes;
    identity = record { device = 1; inode = 2 };
  });
  exports = no_exports;
  coerce = plain;
}

-- One stopped session beside one volume.
abbrev pub with_session : WorkspaceRecord → World
with_session r = record (volumes r) {
  sessions = (json_name dev, marshal_record plain stopped_dev) ∷ [];
}

abbrev pub dev_use : Use
dev_use = record {
  backend_kind = tart;
  backend_object = codes "boxwarden-work-1";
  generation = uuid_b;
}

abbrev pub used_volume : WorkspaceRecord
used_volume = record attached_volume { in_use = some dev_use }

-- What a run of a transition computes with.
unfoldable pub transition_code : Unit {0}
unfolding attach_locked detach_locked reserve_use_locked release_use_locked list_session_attachments
    mounts_overlap
transition_code = tt

-- What a run of a batch computes with.
unfoldable pub batch_code : Unit {0}
unfolding release_uses_locked without_use check_releasable rebuild_gate_locked admit_then
    with_stopped_delete_gate finalize_deleted_session finalize_locked prepare_locked commit_start
    promote_locked verify_uses_locked Records-discrete each_ok list_attachments acquire_volumes
    enter_batch reload_session reload_attachments write_volumes request_of admit_retained_volume
    is_retained sync_directory check_startable rebuild_admits use_of carries_use check_idle
    shows_absent
batch_code = tt
