-- ===== src/Session/Rebuild/Driver/Execute.antt =====
-- execute, ExecutePrepared and settlePrepared of internal/session/rebuild.go.
use boxwarden.Prelude.{
  Bool, Bytes, Option, eqb, guard, if◌then◌else◌, is_empty, none, some, ◌&&◌, ◌||◌,
}
use boxwarden.Backend.{is_running_intent}
use boxwarden.Ident.{lower_sha256, parse_name, valid_backend_object_id}
use boxwarden.Session.Create.{check_intent}
use boxwarden.Session.Decode.{is_starting, is_stopped}
use boxwarden.Session.Rebuild.Driver.{
  Rebuilding, confirm_ready, cutover, has_candidate, is_of_session, is_phase_cloned,
  is_phase_cutover, is_phase_ready, is_prepared, is_ready_status, outside, retire_old,
}
use boxwarden.Session.Rebuild.Driver.Prepare.{is_unstarted, prepare_candidate}
use boxwarden.Session.Rebuild.Journal.{RebuildJournal, validate_rebuild_journal}
use boxwarden.Session.Rebuild.Registry.{
  is_retiring, load_present, load_rebuild_journal, require_no_rebuild,
}
use boxwarden.Session.Start.{reconcile_ready, seen_at_rest, start_session}
use boxwarden.Session.Store.{load_record}
use boxwarden.Session.Types.{SessionRecord}
use boxwarden.World.{M, asks, fail, lift, pure, sync_directory, ◌>>=◌, ◌>>◌}

module _ (s : Rebuilding) (domain_id : Bytes) where
  abbrev pub is_ready_record : SessionRecord → Bool
  is_ready_record r = is_running_intent r.intended_state && is_ready_status r.readiness.status

  -- A completed replacement is settled: its candidate is the system, stopped or ready.
  unfoldable pub settle_found : RebuildJournal → SessionRecord → M SessionRecord
  unfolding has_candidate seen_at_rest reconcile_ready
  settle_found expected r = do
    lift (guard (is_of_session r expected && has_candidate r expected))
    if is_stopped r.intended_state
        then (seen_at_rest s.supervised domain_id r.backend.object_id >> pure r)
        else if is_running_intent r.intended_state
        then (s.supervised.verify_uses r >> reconcile_ready s.supervised domain_id r)
        else fail

  unfoldable pub settle_prepared : Bytes → RebuildJournal → M SessionRecord
  unfolding settle_found
  settle_prepared name expected = do
    (outside s domain_id).acquire_transition domain_id name
    (outside s domain_id).acquire_session domain_id name
    asks (require_no_rebuild domain_id name)
    sync_directory
    r ← asks (load_record domain_id name)
    q ← settle_found expected r
    (outside s domain_id).release_session
    (outside s domain_id).release_transition
    pure q

  -- The base is the session's already: nothing is replaced.
  unfoldable pub same_base : Bytes → SessionRecord → Bytes → M SessionRecord
  unfolding seen_at_rest start_session
  same_base name current digest = do
    lift (guard (is_empty digest || eqb current.recipe_intent_digest digest))
    sync_directory
    lift (guard (is_stopped current.intended_state || is_ready_record current))
    if is_running_intent current.intended_state
        then start_session s.supervised domain_id name none
        else (seen_at_rest s.supervised domain_id current.backend.object_id >> pure current)

  unfoldable pub start_candidate : Bytes → RebuildJournal → M (Unit {0})
  unfolding start_session
  start_candidate name j = do
    r ← start_session s.supervised domain_id name (some j)
    lift (guard (is_ready_record r))

  -- Through cutover and a ready candidate; the journal that is loaded behind the cutover goes on.
  unfoldable pub drive_cutover : Bytes → RebuildJournal → Option RebuildJournal → M RebuildJournal
  unfolding cutover confirm_ready start_candidate
  drive_cutover name j prepared =
      if is_phase_cloned j.phase || is_phase_cutover j.phase
      then (do
        r ← cutover s domain_id name prepared
        cut ← asks (load_present domain_id name)
        lift (guard (is_prepared prepared cut))
        start_candidate name cut
        q ← confirm_ready s domain_id name prepared
        pure cut)
      else pure j

  -- A ready candidate that is not running is started again before the old system goes.
  unfoldable pub drive_ready :
      Bytes → RebuildJournal → SessionRecord → Option RebuildJournal → M (Unit {0})
  unfolding start_candidate
  drive_ready name j current prepared =
      if (is_phase_ready j.phase || is_retiring j.phase)
        && (is_stopped current.intended_state || is_starting current.intended_state)
      then (lift (guard (is_prepared prepared j)) >> start_candidate name j)
      else pure tt

  unfoldable pub prepare_or_keep :
      Bytes → Bytes → Bytes → Option RebuildJournal → Option RebuildJournal → M RebuildJournal
  unfolding prepare_candidate
  prepare_or_keep name revision digest prepared none =
      prepare_candidate s domain_id name revision digest prepared
  prepare_or_keep name revision digest prepared (some j) =
      if is_unstarted s domain_id j.phase
      then prepare_candidate s domain_id name revision digest prepared
      else pure j

  unfoldable pub drive :
      Bytes
      → SessionRecord
      → Bytes
      → Bytes
      → Option RebuildJournal
      → Option RebuildJournal
      → M SessionRecord
  unfolding prepare_or_keep drive_cutover drive_ready retire_old
  drive name current revision digest prepared found = do
    check_intent s.creating domain_id digest
    lift (guard (valid_backend_object_id revision))
    j ← prepare_or_keep name revision digest prepared found
    k ← drive_cutover name j prepared
    drive_ready name k current prepared
    retire_old s domain_id name prepared

  unfoldable pub execute_found :
      Bytes
      → SessionRecord
      → Bytes
      → Bytes
      → Option RebuildJournal
      → Option RebuildJournal
      → M SessionRecord
  unfolding settle_prepared same_base drive
  execute_found name current revision digest (some expected) none = settle_prepared name expected
  execute_found name current revision digest none none =
      if is_empty revision
      then fail
      else if eqb current.golden_revision revision
      then same_base name current digest
      else drive name current revision digest none none
  execute_found name current revision digest prepared (some j) = do
    lift (guard (is_prepared prepared j))
    lift (
        guard (
          is_empty revision
          || eqb revision j.candidate_revision && eqb digest j.candidate_intent_digest))
    drive name current j.candidate_revision j.candidate_intent_digest prepared (some j)

  unfoldable pub execute : Bytes → Bytes → Bytes → Option RebuildJournal → M SessionRecord
  unfolding execute_found
  execute raw_name revision digest prepared = do
    name ← lift (parse_name raw_name)
    current ← asks (load_record domain_id name)
    found ← asks (load_rebuild_journal domain_id name)
    execute_found name current revision digest prepared found

  unfoldable pub execute_with_intent : Bytes → Bytes → Bytes → M SessionRecord
  unfolding execute
  execute_with_intent raw_name revision digest = do
    lift (guard (lower_sha256 digest))
    asks (s.creating.load_recipe_intent digest)
    execute raw_name revision digest none

  unfoldable pub execute_prepared : Bytes → RebuildJournal → M SessionRecord
  unfolding execute
  execute_prepared raw_name expected = do
    lift (validate_rebuild_journal expected)
    lift (
        guard (
          eqb expected.domain domain_id
          && eqb expected.session_name raw_name
          && is_phase_cloned expected.phase))
    execute raw_name expected.candidate_revision expected.candidate_intent_digest (some expected)
