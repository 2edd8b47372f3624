-- ===== src/Tests/Volumes.antt =====
-- Volumes and rebuild journals that the tests share.
use boxwarden.Prelude.{Bytes, Outcome, [], codes, eqb, err, false, none, some, ℕ_discrete, ◌∷◌}
use boxwarden.Ident.{
  lower_sha256, object_id_for, parse_domain, parse_name, strip_dashes, valid_backend_object_id,
  valid_mount_path, valid_session_name, valid_uuid,
}
use boxwarden.Session.Rebuild.Journal.{
  Journal-discrete, RebuildJournal, RebuildPhase, decode_rebuild_journal, phase_of, phase_text,
}
use boxwarden.Session.Rebuild.Marshal.{marshal_journal}
use boxwarden.Session.Rebuild.Registry.{
  advance_rebuild_journal, create_rebuild_journal, load_rebuild_journal, remove_rebuild_journal,
  require_no_rebuild,
}
use boxwarden.Tests.Sample.{dev, empty_world, plain, uuid_a, uuid_b, work}
use boxwarden.Workspace.Bindings.{
  ExportJournal, collides, keeps_identity, load_record, mounts_overlap, mutation_ok,
  save_record_transition,
}
use boxwarden.Workspace.Decode.{
  decode_attachment, decode_disk, decode_pending, decode_record, decode_text_field, decode_use,
  state_of, state_text,
}
use boxwarden.Workspace.Decode.Marshal.{marshal_record}
use boxwarden.Workspace.Types.{
  Attachment-discrete, Disk-discrete, Pending-discrete, State, Use-discrete, WorkspaceRecord,
  WorkspaceRecord-discrete, validate_record,
}
use boxwarden.World.{
  World, create_file, drop_file, find_file, json_name, key_of, put_file, remove_file, replace_file,
}

abbrev pub creating_volume : WorkspaceRecord
creating_volume = record {
  version = 1;
  domain = work;
  volume_id = uuid_a;
  size_bytes = 1048576;
  format = codes "raw-ext4";
  filesystem_uuid = uuid_b;
  state = State.creating;
  disk = none;
  attachment = none;
  in_use = none;
  pending = none;
}

abbrev pub free_volume : WorkspaceRecord
free_volume = record creating_volume {
  state = State.available;
  disk = some (record { device = 1; inode = 2 });
}

abbrev pub attached_volume : WorkspaceRecord
attached_volume = record free_volume {
  attachment = some (record {
    session_id = uuid_a;
    session_name = dev;
    mount_path = codes "/home/boxwarden/workspaces/src";
  });
}

-- No export journal is there.
abbrev pub no_exports : Bytes → Outcome ExportJournal
no_exports id = err

abbrev pub volumes : WorkspaceRecord → World
volumes r = record empty_world { workspaces = (json_name r.volume_id, marshal_record plain r) ∷ [] }

abbrev pub reserved_rebuild : RebuildJournal
reserved_rebuild = record {
  version = 1;
  domain = work;
  session_name = dev;
  session_id = uuid_a;
  operation_id = uuid_b;
  phase = RebuildPhase.reserved;
  old_backend = codes "boxwarden-work-1";
  old_revision = codes "golden-1";
  old_intent_digest = [];
  candidate_backend = object_id_for work uuid_b;
  candidate_revision = codes "golden-2";
  candidate_intent_digest = [];
  old_pin_present = false;
  old_pin_digest = [];
}

abbrev pub cloned_rebuild : RebuildJournal
cloned_rebuild = record reserved_rebuild { phase = RebuildPhase.cloned }

abbrev pub rebuilding : RebuildJournal → World
rebuilding j = record empty_world {
  rebuilds = (json_name j.session_name, marshal_journal plain j) ∷ [];
}

-- What a run over volumes and journals computes with.
unfoldable pub volume_code : Unit {0}
unfolding save_record_transition decode_record marshal_record eqb state_of state_text load_record
    validate_record decode_disk decode_attachment decode_use decode_pending decode_text_field key_of
    keeps_identity mutation_ok collides mounts_overlap parse_domain parse_name valid_uuid
    valid_backend_object_id valid_session_name valid_mount_path replace_file remove_file create_file
    Disk-discrete Attachment-discrete Use-discrete Pending-discrete WorkspaceRecord-discrete
    ℕ_discrete create_rebuild_journal advance_rebuild_journal remove_rebuild_journal
    decode_rebuild_journal marshal_journal phase_of phase_text object_id_for strip_dashes
    lower_sha256 Journal-discrete load_rebuild_journal require_no_rebuild find_file put_file
    drop_file
volume_code = tt
