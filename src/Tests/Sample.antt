-- ===== src/Tests/Sample.antt =====
-- Records and worlds that the tests share.
use boxwarden.Prelude.{Bytes, [], codes, eqb, ℕ_discrete}
use boxwarden.Ident.{parse_domain, parse_name, valid_backend_object_id, valid_uuid}
use boxwarden.Session.Decode.{
  decode_backend, decode_backend_field, decode_readiness, decode_readiness_field, decode_record,
  no_readiness, valid_state, validate_readiness, validate_start_generation,
}
use boxwarden.Session.Decode.Marshal.{marshal_backend, marshal_readiness, marshal_record}
use boxwarden.Session.Store.{load_record, remove_deleting_record_locked, save_record}
use boxwarden.Session.Types.{
  IntendedState, Mode, ReadinessStatus, SessionRecord, SessionRecord-discrete, mode_of, mode_text,
  state_of, state_text, status_of, status_text, tart,
}
use boxwarden.World.{World, remove_file, replace_file}

abbrev pub uuid_a : Bytes
uuid_a = codes "0123abcd-4567-4abc-8def-0123456789ab"

abbrev pub uuid_b : Bytes
uuid_b = codes "fedcba98-7654-4321-9abc-ba9876543210"

abbrev pub work : Bytes
work = codes "work"

abbrev pub dev : Bytes
dev = codes "dev"

abbrev pub plain : Bytes → Bytes
plain s = s

abbrev pub stopped_dev : SessionRecord
stopped_dev = record {
  version = 2;
  domain = work;
  name = dev;
  id = uuid_a;
  mode = Mode.clean;
  intended_state = IntendedState.stopped;
  backend = record { kind = tart; object_id = codes "boxwarden-work-1" };
  golden_revision = codes "golden-1";
  recipe_intent_digest = [];
  start_generation = [];
  readiness = record { status = ReadinessStatus.not_ready; diagnostic = [] };
}

abbrev pub legacy_dev : SessionRecord
legacy_dev = record stopped_dev { version = 1; readiness = no_readiness }

abbrev pub empty_world : World
empty_world = record { sessions = []; workspaces = []; rebuilds = []; fates = [] }

-- What a run over session records computes with, to be named on one line.
unfoldable pub session_code : Unit {0}
unfolding save_record decode_record marshal_record eqb mode_of mode_text state_of state_text
    status_of status_text decode_backend decode_readiness marshal_backend marshal_readiness
    decode_backend_field decode_readiness_field validate_start_generation validate_readiness
    valid_state valid_uuid valid_backend_object_id parse_domain parse_name replace_file remove_file
    SessionRecord-discrete ℕ_discrete load_record remove_deleting_record_locked
session_code = tt
