-- ===== src/Session/Store.antt =====
-- LoadRecord of internal/session/record.go, SaveRecord of internal/session/store.go and
-- RemoveDeletingRecordLocked of internal/session/delete_store.go. A record file is the document
-- that its bytes are. Modes and owners of the files, and the bound of 1 MiB on the bytes, are
-- left out.
pub mod Saved
pub mod Atomic
use boxwarden.Prelude.{
  Bool, Bytes, Option, Outcome, [], bind, eqb, err, false, guard, if◌then◌else◌, is_empty, none,
  not, ok, same, some, true, ◌&&◌, ◌==◌, ◌||◌,
}
use boxwarden.Ident.{parse_domain, parse_name, valid_backend_object_id}
use boxwarden.Json.{Json}
use boxwarden.Session.Decode.{decode_record, is_stopped}
use boxwarden.Session.Decode.Marshal.{marshal_record}
use boxwarden.Session.Types.{
  IntendedState, ReadinessRecord, ReadinessStatus, SessionRecord, SessionRecord-discrete,
}
use boxwarden.World.{
  Dir, M, Registry, World, asks, find_file, json_name, lift, remove_file, replace_file, ◌>>=◌, ◌>>◌,
}

-- loadRecordFromRoot; a file that is missing or unreadable is an error.
unfoldable pub load_file : Option Json → Bytes → Bytes → Outcome SessionRecord
load_file none domain_id name = err
load_file (some doc) domain_id name =
    bind (decode_record doc) (λ r.
      if not (eqb r.domain domain_id) then err else if not (eqb r.name name) then err else ok r)

unfoldable pub load_from : Dir → Bytes → Bytes → Outcome SessionRecord
unfolding load_file
load_from dir domain_id name = load_file (find_file (json_name name) dir) domain_id name

unfoldable pub load_record : Bytes → Bytes → World → Outcome SessionRecord
unfolding load_from
load_record expected_domain raw_name w =
    bind (parse_domain expected_domain)
      (λ domain_id. bind (parse_name raw_name) (λ name. load_from w.sessions domain_id name))

-- session.LoadRecord, as internal/workspacex calls it.
abbrev pub load_session : Bytes → Bytes → World → Outcome SessionRecord
load_session d name w = load_record d name w

unfoldable pub validate_record_for_store :
    (Bytes → Bytes) → Bytes → SessionRecord → Outcome (Unit {0})
validate_record_for_store coerce expected_domain r = bind (parse_domain expected_domain) (λ parsed.
    if not (eqb r.domain parsed)
    then err
    else bind (decode_record (marshal_record coerce r)) (λ decoded.
      if not (same SessionRecord-discrete decoded r)
      then err
      else if not (is_empty r.golden_revision) && not (valid_backend_object_id r.golden_revision)
      then err
      else ok tt))

abbrev pub is_creating : IntendedState → Bool
is_creating IntendedState.creating = true
is_creating _ = false

abbrev pub not_ready_yet : ReadinessRecord
not_ready_yet = record { status = ReadinessStatus.not_ready; diagnostic = [] }

unfoldable pub upgrade_record_for_store : SessionRecord → SessionRecord
upgrade_record_for_store r =
    if not (r.version == 1)
      || is_empty r.golden_revision
      || (not (is_stopped r.intended_state) && not (is_creating r.intended_state))
    then r
    else record r { version = 2; start_generation = []; readiness = not_ready_yet }

unfoldable pub save_record : (Bytes → Bytes) → Bytes → SessionRecord → M (Unit {0})
unfolding validate_record_for_store upgrade_record_for_store
save_record coerce expected_domain r = do
  lift (validate_record_for_store coerce expected_domain r)
  let upgraded = upgrade_record_for_store r
  lift (validate_record_for_store coerce expected_domain upgraded)
  replace_file Registry.sessions (json_name upgraded.name) (marshal_record coerce upgraded)

abbrev pub is_deleting : IntendedState → Bool
is_deleting IntendedState.deleting = true
is_deleting _ = false

-- The test that the file was not replaced between two looks at it is left out.
unfoldable pub remove_deleting_record_locked : SessionRecord → M (Unit {0})
unfolding load_from
remove_deleting_record_locked expected = do
  lift (
      guard (
        expected.version == 2
        && is_deleting expected.intended_state
        && is_empty expected.start_generation))
  current ← asks (λ w. load_from w.sessions expected.domain expected.name)
  lift (guard (same SessionRecord-discrete current expected))
  remove_file Registry.sessions (json_name expected.name)
