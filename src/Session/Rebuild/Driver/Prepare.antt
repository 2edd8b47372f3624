-- ===== src/Session/Rebuild/Driver/Prepare.antt =====
-- prepareCandidate and reserveCandidate of internal/session/rebuild.go.
use boxwarden.Prelude.{
  Bool, Bytes, Option, [], eqb, false, guard, if◌then◌else◌, none, not, same, some, true, ◌&&◌,
  ◌||◌,
}
use boxwarden.Backend.{Observation, is_stopped_object, is_unknown_object}
use boxwarden.Ident.{
  lower_sha256, object_id_for, parse_domain, parse_name, valid_backend_object_id, valid_uuid,
}
use boxwarden.Ident.Hex.{new_id}
use boxwarden.Session.Create.{Golden, check_intent, load_stopped_revision, require_stopped_golden}
use boxwarden.Session.Decode.{is_stopped}
use boxwarden.Session.Rebuild.Driver.{
  Rebuilding, coerce, has_old_system, in_phase, is_phase_cloned, is_prepared, outside,
  verify_old_pin,
}
use boxwarden.Session.Rebuild.Journal.{RebuildJournal, RebuildPhase}
use boxwarden.Session.Rebuild.Registry.{
  advance_rebuild_journal, create_rebuild_journal, load_rebuild_journal,
}
use boxwarden.Session.Start.{seen_at_rest}
use boxwarden.Session.Stop.{observe_exact}
use boxwarden.Session.Store.{load_record}
use boxwarden.Session.Types.{SessionRecord, SessionRecord-discrete, tart}
use boxwarden.World.{M, asks, fail, lift, pure, ◌>>=◌, ◌>>◌}

module _ (s : Rebuilding) (domain_id : Bytes) where
  abbrev pub reserved_journal : SessionRecord → Bytes → Bytes → Bytes → RebuildJournal
  reserved_journal old operation_id revision digest = record {
    version = 1;
    domain = old.domain;
    session_name = old.name;
    session_id = old.id;
    operation_id = operation_id;
    phase = RebuildPhase.reserved;
    old_backend = old.backend.object_id;
    old_revision = old.golden_revision;
    old_intent_digest = old.recipe_intent_digest;
    candidate_backend = object_id_for old.domain operation_id;
    candidate_revision = revision;
    candidate_intent_digest = digest;
    old_pin_present = false;
    old_pin_digest = [];
  }

  -- The digest of the old pin is recorded, where there is one.
  abbrev pub with_pin : RebuildJournal → Option Bytes → RebuildJournal
  with_pin j none = j
  with_pin j (some digest) = record j { old_pin_present = true; old_pin_digest = digest }

  unfoldable pub reserve_candidate : SessionRecord → Bytes → Bytes → M RebuildJournal
  unfolding require_stopped_golden observe_exact create_rebuild_journal
  reserve_candidate old revision digest = do
    s.creating.acquire_golden
    selected ← asks (s.creating.load_revision revision)
    require_stopped_golden s.creating domain_id selected
    source ← s.creating.random
    operation_id ← lift (new_id source)
    lift (guard (valid_uuid operation_id))
    let j = reserved_journal old operation_id selected.revision digest
    lift (guard (valid_backend_object_id j.candidate_backend))
    o ← observe_exact (outside s domain_id) domain_id j.candidate_backend
    lift (guard (not (o.exists || not (is_unknown_object o.state))))
    pin ← s.pin_digest j
    create_rebuild_journal (coerce s domain_id) (with_pin j pin)
    s.creating.release_golden
    pure (with_pin j pin)

  -- No new candidate where one is frozen.
  unfoldable pub find_or_reserve :
      SessionRecord
      → Bytes
      → Bytes
      → Option RebuildJournal
      → Option RebuildJournal
      → M RebuildJournal
  unfolding reserve_candidate
  find_or_reserve r revision digest prepared (some j) = pure j
  find_or_reserve r revision digest none none = s.gate r (reserve_candidate r revision digest)
  find_or_reserve r revision digest (some _) none = fail

  abbrev pub is_unstarted : RebuildPhase → Bool
  is_unstarted RebuildPhase.reserved = true
  is_unstarted RebuildPhase.cloned = true
  is_unstarted _ = false

  unfoldable pub is_candidate_for : RebuildJournal → SessionRecord → Bytes → Bytes → Bool
  unfolding has_old_system
  is_candidate_for j r revision digest =
      eqb j.session_id r.id
      && has_old_system r j
      && eqb j.candidate_intent_digest digest
      && eqb j.candidate_revision revision
      && is_unstarted j.phase

  unfoldable pub clone_candidate : RebuildJournal → Golden → Observation → M Observation
  unfolding observe_exact
  clone_candidate j selected o =
      if not o.exists && is_unknown_object o.state
      then (do
        s.creating.clone selected.backend.object_id j.candidate_backend
        observe_exact (outside s domain_id) domain_id j.candidate_backend)
      else pure o

  unfoldable pub finish_clone : Bytes → SessionRecord → RebuildJournal → M RebuildJournal
  finish_clone name r j = do
    (outside s domain_id).acquire_session domain_id name
    current ← asks (load_record domain_id name)
    lift (guard (same SessionRecord-discrete current r))
    advance_rebuild_journal (coerce s domain_id) j (in_phase j RebuildPhase.cloned)
    (outside s domain_id).release_session
    pure (in_phase j RebuildPhase.cloned)

  unfoldable pub prepare_reserved :
      Bytes → SessionRecord → RebuildJournal → Golden → Observation → M RebuildJournal
  unfolding clone_candidate finish_clone seen_at_rest
  prepare_reserved name r j selected o = do
    there ← clone_candidate j selected o
    lift (guard (there.exists && is_stopped_object there.state))
    s.creating.randomize_mac j.candidate_backend
    seen_at_rest s.supervised domain_id j.candidate_backend
    finish_clone name r j

  unfoldable pub prepare_found :
      Bytes
      → SessionRecord
      → RebuildJournal
      → Bytes
      → Bytes
      → Option RebuildJournal
      → M RebuildJournal
  unfolding is_prepared is_candidate_for verify_old_pin load_stopped_revision prepare_reserved
  prepare_found name r j revision digest prepared = do
    lift (guard (is_prepared prepared j))
    lift (guard (is_candidate_for j r revision digest))
    lift (guard (is_stopped r.intended_state && eqb r.backend.kind tart))
    verify_old_pin s domain_id j
    seen_at_rest s.supervised domain_id j.old_backend
    selected ← load_stopped_revision s.creating domain_id revision
    o ← observe_exact (outside s domain_id) domain_id j.candidate_backend
    if is_phase_cloned j.phase
        then (lift (guard (o.exists && is_stopped_object o.state)) >> pure j)
        else prepare_reserved name r j selected o

  unfoldable pub prepare_candidate :
      Bytes → Bytes → Bytes → Option RebuildJournal → M RebuildJournal
  unfolding find_or_reserve prepare_found
  prepare_candidate raw_name revision digest prepared = do
    parsed ← lift (parse_domain domain_id)
    lift (guard (eqb parsed domain_id))
    name ← lift (parse_name raw_name)
    lift (guard (valid_backend_object_id revision))
    check_intent s.creating domain_id digest
    (outside s domain_id).acquire_transition domain_id name
    r ← asks (load_record domain_id name)
    check_intent s.creating domain_id r.recipe_intent_digest
    found ← asks (load_rebuild_journal domain_id name)
    j ← find_or_reserve r revision digest prepared found
    done ← prepare_found name r j revision digest prepared
    (outside s domain_id).release_transition
    pure done

  unfoldable pub prepare_candidate_with_intent :
      Bytes → Bytes → Bytes → Option RebuildJournal → M RebuildJournal
  unfolding prepare_candidate
  prepare_candidate_with_intent raw_name revision digest prepared = do
    lift (guard (lower_sha256 digest))
    prepare_candidate raw_name revision digest prepared
