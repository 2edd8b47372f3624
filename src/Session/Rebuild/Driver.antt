-- ===== src/Session/Rebuild/Driver.antt =====
-- The driver of a rebuild: internal/session/rebuild.go. The tests that no dependency is missing, and
-- the hooks of the tests, are left out. The base, the gate of the workspaces and the old host-key pin
-- are parameters; `pin_digest` is the digest of the pin, none where there is no pin, and an error
-- where it is not bound to the old object.
pub mod Prepare
pub mod Execute
pub mod Ordered
pub mod Retired
pub mod Complete
pub mod Frozen
use boxwarden.Prelude.{
  Bool, Bytes, Option, eqb, false, guard, if◌then◌else◌, is_empty, none, not, same, some, true,
  ◌&&◌, ◌||◌,
}
use boxwarden.Backend.{Observation, is_running_intent, is_stopped_object, is_unknown_object}
use boxwarden.Ident.{parse_domain, parse_name}
use boxwarden.Session.Create.{Creating, check_intent}
use boxwarden.Session.Decode.{is_stopped}
use boxwarden.Session.Outside.{Outside}
use boxwarden.Session.Rebuild.Journal.{RebuildJournal, RebuildPhase}
use boxwarden.Session.Rebuild.Registry.{
  advance_rebuild_journal, is_retiring, load_present, remove_rebuild_journal,
}
use boxwarden.Session.Start.{reconcile_ready, seen_at_rest}
use boxwarden.Session.Stop.{observe_exact}
use boxwarden.Session.Store.{load_record, save_record}
use boxwarden.Session.Supervised.{Supervised}
use boxwarden.Session.Types.{ReadinessStatus, SessionRecord, SessionRecord-discrete, tart}
use boxwarden.World.{M, asks, lift, pure, ◌>>=◌, ◌>>◌}

pub record Rebuilding : Type 0 where
  pub supervised : Supervised
  pub creating : Creating
  pub gate : SessionRecord → M RebuildJournal → M RebuildJournal
  pub pin_digest : RebuildJournal → M (Option Bytes)

abbrev pub is_phase_cloned : RebuildPhase → Bool
is_phase_cloned RebuildPhase.cloned = true
is_phase_cloned _ = false

abbrev pub is_phase_cutover : RebuildPhase → Bool
is_phase_cutover RebuildPhase.cutover = true
is_phase_cutover _ = false

abbrev pub is_phase_ready : RebuildPhase → Bool
is_phase_ready RebuildPhase.ready = true
is_phase_ready _ = false

abbrev pub is_ready_status : ReadinessStatus → Bool
is_ready_status ReadinessStatus.ready = true
is_ready_status _ = false

abbrev pub in_phase : RebuildJournal → RebuildPhase → RebuildJournal
in_phase j phase = record j { phase = phase }

-- The journal is the one of the frozen candidate, if one is frozen.
unfoldable pub is_prepared : Option RebuildJournal → RebuildJournal → Bool
is_prepared none j = true
is_prepared (some e) j =
    eqb j.domain e.domain
    && eqb j.session_name e.session_name
    && eqb j.session_id e.session_id
    && eqb j.operation_id e.operation_id
    && eqb j.old_backend e.old_backend
    && eqb j.old_revision e.old_revision
    && eqb j.candidate_backend e.candidate_backend
    && eqb j.candidate_revision e.candidate_revision
    && eqb j.old_intent_digest e.old_intent_digest
    && eqb j.candidate_intent_digest e.candidate_intent_digest

-- The session's system is the old one of the journal, or its candidate.
unfoldable pub has_old_system : SessionRecord → RebuildJournal → Bool
has_old_system r j =
    eqb r.backend.object_id j.old_backend
    && eqb r.golden_revision j.old_revision
    && eqb r.recipe_intent_digest j.old_intent_digest

unfoldable pub has_candidate : SessionRecord → RebuildJournal → Bool
has_candidate r j =
    eqb r.backend.object_id j.candidate_backend
    && eqb r.golden_revision j.candidate_revision
    && eqb r.recipe_intent_digest j.candidate_intent_digest

abbrev pub is_of_session : SessionRecord → RebuildJournal → Bool
is_of_session r j = eqb r.id j.session_id && eqb r.backend.kind tart

unfoldable pub is_ready_candidate : SessionRecord → RebuildJournal → Bool
unfolding has_candidate
is_ready_candidate r j =
    is_of_session r j
    && has_candidate r j
    && is_running_intent r.intended_state
    && is_ready_status r.readiness.status

abbrev pub as_candidate : SessionRecord → RebuildJournal → SessionRecord
as_candidate r j = record r {
  backend = record { kind = r.backend.kind; object_id = j.candidate_backend };
  golden_revision = j.candidate_revision;
  recipe_intent_digest = j.candidate_intent_digest;
}

module _ (s : Rebuilding) (domain_id : Bytes) where
  abbrev pub outside : Outside
  outside = s.supervised.outside

  abbrev pub coerce : Bytes → Bytes
  coerce = outside.coerce

  unfoldable pub pin_matches : RebuildJournal → Option Bytes → Bool
  pin_matches j none = not j.old_pin_present
  pin_matches j (some digest) = j.old_pin_present && eqb digest j.old_pin_digest

  unfoldable pub verify_old_pin : RebuildJournal → M (Unit {0})
  unfolding pin_matches
  verify_old_pin j = do pin ← s.pin_digest j; lift (guard (pin_matches j pin))

  -- Cutover: the journal advances first, and then the session's record is switched.
  unfoldable pub switch_record : SessionRecord → RebuildJournal → M SessionRecord
  switch_record r j = do save_record coerce domain_id (as_candidate r j); pure (as_candidate r j)

  unfoldable pub commit_cutover : SessionRecord → RebuildJournal → M SessionRecord
  unfolding switch_record
  commit_cutover r j = do
    (if is_phase_cloned j.phase
        then advance_rebuild_journal coerce j (in_phase j RebuildPhase.cutover)
        else pure tt)
    switch_record r j

  unfoldable pub cutover_old : SessionRecord → RebuildJournal → M SessionRecord
  unfolding has_old_system verify_old_pin commit_cutover
  cutover_old r j = do
    lift (guard (is_stopped r.intended_state && has_old_system r j && is_empty r.start_generation))
    verify_old_pin j
    seen_at_rest s.supervised domain_id j.old_backend
    seen_at_rest s.supervised domain_id j.candidate_backend
    commit_cutover r j

  unfoldable pub cutover_locked : Bytes → Option RebuildJournal → M SessionRecord
  unfolding is_prepared cutover_old has_candidate
  cutover_locked name prepared = do
    j ← asks (load_present domain_id name)
    lift (guard (is_phase_cloned j.phase || is_phase_cutover j.phase))
    lift (guard (is_prepared prepared j))
    r ← asks (load_record domain_id name)
    lift (guard (is_of_session r j))
    check_intent s.creating domain_id j.candidate_intent_digest
    if is_phase_cutover j.phase && has_candidate r j then pure r else cutover_old r j

  -- The candidate is ready by a fresh word of its owner before the journal says so.
  unfoldable pub confirm_ready_locked : Bytes → Option RebuildJournal → M SessionRecord
  unfolding is_prepared is_ready_candidate
  confirm_ready_locked name prepared = do
    j ← asks (load_present domain_id name)
    lift (guard (is_phase_cutover j.phase || is_phase_ready j.phase))
    lift (guard (is_prepared prepared j))
    r ← asks (load_record domain_id name)
    lift (guard (is_ready_candidate r j))
    s.supervised.verify_uses r
    q ← reconcile_ready s.supervised domain_id r
    (if is_phase_ready j.phase
        then pure tt
        else advance_rebuild_journal coerce j (in_phase j RebuildPhase.ready))
    pure q

  -- The intent to delete the old object is on record before it is deleted.
  unfoldable pub mark_retiring : RebuildJournal → Observation → M RebuildJournal
  mark_retiring j old =
      if is_phase_ready j.phase
      then (do
        lift (guard old.exists)
        advance_rebuild_journal coerce j (in_phase j RebuildPhase.retiring)
        pure (in_phase j RebuildPhase.retiring))
      else pure j

  unfoldable pub delete_old : RebuildJournal → Observation → M (Unit {0})
  unfolding observe_exact
  delete_old j old = do
    outside.release_session
    (if old.exists then outside.delete_object j.old_backend else pure tt)
    again ← observe_exact outside domain_id j.old_backend
    lift (guard (not (again.exists || not (is_unknown_object again.state))))

  unfoldable pub finish_retiring : Bytes → SessionRecord → RebuildJournal → M SessionRecord
  finish_retiring name q j = do
    outside.acquire_session domain_id name
    current ← asks (load_record domain_id name)
    lift (guard (same SessionRecord-discrete current q))
    remove_rebuild_journal j
    pure q

  unfoldable pub retire_old_locked : Bytes → Option RebuildJournal → M SessionRecord
  unfolding is_prepared is_ready_candidate mark_retiring delete_old finish_retiring
  retire_old_locked name prepared = do
    j ← asks (load_present domain_id name)
    lift (guard (is_phase_ready j.phase || is_retiring j.phase))
    lift (guard (is_prepared prepared j))
    r ← asks (load_record domain_id name)
    lift (guard (is_ready_candidate r j))
    s.supervised.verify_uses r
    q ← reconcile_ready s.supervised domain_id r
    old ← observe_exact outside domain_id j.old_backend
    lift (guard (not (old.exists && not (is_stopped_object old.state))))
    retiring ← mark_retiring j old
    delete_old retiring old
    finish_retiring name q retiring

  -- The locks of a phase, and their deferred releases.
  abbrev pub with_locks : {A : Type 0} → Bytes → (Bytes → M A) → M A
  with_locks raw_name m = do
    parsed ← lift (parse_domain domain_id)
    lift (guard (eqb parsed domain_id))
    name ← lift (parse_name raw_name)
    outside.acquire_transition domain_id name
    outside.acquire_session domain_id name
    a ← m name
    outside.release_session
    outside.release_transition
    pure a

  unfoldable pub cutover : Bytes → Option RebuildJournal → M SessionRecord
  unfolding cutover_locked
  cutover raw_name prepared = with_locks raw_name (λ name. cutover_locked name prepared)

  unfoldable pub confirm_ready : Bytes → Option RebuildJournal → M SessionRecord
  unfolding confirm_ready_locked
  confirm_ready raw_name prepared = with_locks raw_name (λ name. confirm_ready_locked name prepared)

  unfoldable pub retire_old : Bytes → Option RebuildJournal → M SessionRecord
  unfolding retire_old_locked
  retire_old raw_name prepared = with_locks raw_name (λ name. retire_old_locked name prepared)
