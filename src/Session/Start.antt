-- ===== src/Session/Start.antt =====
-- startSession of internal/session/start.go, with acceptStarted, reconcileReady and persistReady. The
-- tests that no dependency is missing are left out.
-- A running session, or one that goes on to be launched.
pub mod Accepted
pub mod Sound
use boxwarden.Prelude.{
  Bool, Bytes, Option, Outcome, [], bind, eqb, err, false, guard, if◌then◌else◌, is_empty, ltb,
  none, not, ok, same, some, true, ℕ, ◌&&◌, ◌-◌, ◌==◌, ◌||◌,
}
use boxwarden.Backend.{Observation, is_running_intent, is_running_object, is_stopped_object}
use boxwarden.Ident.{parse_domain, parse_name, valid_uuid}
use boxwarden.Session.Decode.{is_starting, is_stopped}
use boxwarden.Session.Rebuild.Journal.{Journal-discrete, RebuildJournal, RebuildPhase}
use boxwarden.Session.Rebuild.Registry.{load_present, require_no_rebuild}
use boxwarden.Session.Stop.{observe_exact}
use boxwarden.Session.Store.{load_record, save_record}
use boxwarden.Session.Supervised.{Binding, Binding-discrete, Snapshot, Supervised}
use boxwarden.Session.Types.{
  BackendRef-discrete, IntendedState, Mode-discrete, ReadinessStatus, SessionRecord,
  SessionRecord-discrete, tart,
}
use boxwarden.World.{M, World, asks, fail, lift, pure, ◌>>=◌, ◌>>◌}

pub data Step : Type 0 where
  accepted : SessionRecord → Step
  launches : SessionRecord → Step

-- An error of a step that the caller looks at.
abbrev pub attempt : {A : Type 0} → M A → M (Outcome A)
attempt m w = (ok (m w).0, (m w).1)

-- 90 seconds, in nanoseconds.
abbrev pub max_ready_snapshot_age : ℕ
max_ready_snapshot_age = 90000000000

unfoldable pub start_binding : SessionRecord → Binding
start_binding r = record {
  domain = r.domain;
  session_id = r.id;
  backend_kind = r.backend.kind;
  backend_object = r.backend.object_id;
  generation = r.start_generation;
}

-- The binding is the exact one, and the snapshot was taken, not in the future, and not long ago.
unfoldable pub is_fresh : ℕ → SessionRecord → Snapshot → Bool
unfolding start_binding
is_fresh now r x = not (
    not (same Binding-discrete x.binding (start_binding r))
    || x.observed_at == 0
    || ltb now x.observed_at
    || ltb max_ready_snapshot_age (now - x.observed_at))

unfoldable pub is_bootstrapped : Snapshot → Bool
is_bootstrapped x = x.backend_running && x.serial_healthy && x.pin_present

unfoldable pub is_converged : Snapshot → Bool
is_converged x = x.certificate_current && x.probe_ok && x.zone_matches

unfoldable pub same_launch_identity : SessionRecord → SessionRecord → Bool
same_launch_identity before after =
    eqb before.domain after.domain
    && eqb before.name after.name
    && eqb before.id after.id
    && same Mode-discrete before.mode after.mode
    && same BackendRef-discrete before.backend after.backend
    && eqb before.golden_revision after.golden_revision
    && eqb before.start_generation after.start_generation

unfoldable pub same_stopped_identity : SessionRecord → SessionRecord → Bool
same_stopped_identity before after =
    eqb before.domain after.domain
    && eqb before.name after.name
    && eqb before.id after.id
    && same Mode-discrete before.mode after.mode
    && same BackendRef-discrete before.backend after.backend
    && eqb before.golden_revision after.golden_revision

module _ (s : Supervised) (domain_id : Bytes) where
  abbrev pub as_ready : SessionRecord → SessionRecord
  as_ready r = record r {
    intended_state = IntendedState.running;
    readiness = record { status = ReadinessStatus.ready; diagnostic = [] };
  }

  unfoldable pub persist_ready : SessionRecord → Snapshot → M SessionRecord
  unfolding is_fresh is_bootstrapped is_converged
  persist_ready r x = do
    now ← s.now
    lift (guard (is_fresh now r x && is_bootstrapped x && is_converged x))
    save_record s.outside.coerce r.domain (as_ready r)
    pure (as_ready r)

  unfoldable pub accept_started : SessionRecord → Snapshot → M SessionRecord
  unfolding persist_ready
  accept_started r x = do
    now ← s.now
    lift (guard (is_fresh now r x && is_bootstrapped x))
    if is_converged x then persist_ready r x else pure r

  unfoldable pub reconcile_ready : SessionRecord → M SessionRecord
  unfolding persist_ready
  reconcile_ready r = s.snapshot (start_binding r) >>= persist_ready r

  abbrev pub admits_candidate : RebuildPhase → Bool
  admits_candidate RebuildPhase.cutover = true
  admits_candidate RebuildPhase.ready = true
  admits_candidate RebuildPhase.retiring = true
  admits_candidate _ = false

  unfoldable pub admits_rebuild :
      Bytes → SessionRecord → Option RebuildJournal → World → Outcome (Unit {0})
  admits_rebuild name r none w = require_no_rebuild domain_id name w
  admits_rebuild name r (some j) w = bind (load_present domain_id name w) (λ current. guard (
      same Journal-discrete current j
      && admits_candidate current.phase
      && eqb current.session_id r.id
      && eqb current.candidate_backend r.backend.object_id
      && eqb current.candidate_revision r.golden_revision
      && eqb current.candidate_intent_digest r.recipe_intent_digest))

  unfoldable pub seen_at_rest : Bytes → M (Unit {0})
  unfolding observe_exact
  seen_at_rest object_id = do
    o ← observe_exact s.outside domain_id object_id
    lift (guard (o.exists && is_stopped_object o.state))

  unfoldable pub upgrade_stopped : Bytes → SessionRecord → M SessionRecord
  unfolding same_stopped_identity
  upgrade_stopped name legacy = do
    save_record s.outside.coerce domain_id legacy
    r ← asks (load_record domain_id name)
    lift (guard (r.version == 2 && is_stopped r.intended_state && same_stopped_identity legacy r))
    pure r

  -- A stopped session: old uses are released, and the volumes are reserved for a new generation.
  unfoldable pub start_stopped : Bytes → SessionRecord → Option RebuildJournal → M Step
  unfolding seen_at_rest upgrade_stopped
  start_stopped name stopped rebuild = do
    seen_at_rest stopped.backend.object_id
    r ← (if stopped.version == 1 then upgrade_stopped name stopped else pure stopped)
    s.outside.release_session
    s.outside.release_uses r
    s.outside.acquire_session domain_id name
    current ← asks (load_record domain_id name)
    lift (guard (same SessionRecord-discrete current r))
    generation ← s.new_generation
    lift (guard (valid_uuid generation))
    s.outside.release_session
    started ← s.prepare_start r generation rebuild
    s.outside.acquire_session domain_id name
    loaded ← asks (load_record domain_id name)
    lift (guard (same SessionRecord-discrete loaded started && is_starting loaded.intended_state))
    pure (Step.launches loaded)

  -- An owner whose serial line is broken is stopped, and relaunches under the same generation.
  unfoldable pub relaunch_poisoned : Bytes → SessionRecord → M Step
  unfolding same_launch_identity seen_at_rest
  relaunch_poisoned name r = do
    s.outside.release_session
    s.stop_exact (start_binding r)
    s.outside.acquire_session domain_id name
    current ← asks (load_record domain_id name)
    lift (guard (same_launch_identity r current && is_starting current.intended_state))
    seen_at_rest current.backend.object_id
    pure (Step.launches current)

  abbrev pub accept_step : M SessionRecord → M Step
  accept_step m = m >>= λ r. pure (Step.accepted r)

  unfoldable pub resume_owner : Bytes → SessionRecord → Observation → Snapshot → M Step
  unfolding relaunch_poisoned accept_started
  resume_owner name r o x =
      if not x.backend_running
      then (if is_running_object o.state then fail else pure (Step.launches r))
      else if x.serial_healthy && x.pin_present
      then (if is_converged x
          then accept_step (persist_ready r x)
          else accept_step (s.ready (start_binding r) >>= accept_started r))
      else if not x.serial_healthy
      then relaunch_poisoned name r
      else pure (Step.launches r)

  unfoldable pub resume_seen : Bytes → SessionRecord → Observation → Outcome Snapshot → M Step
  unfolding resume_owner
  resume_seen name r o err = if is_running_object o.state then fail else pure (Step.launches r)
  resume_seen name r o (ok x) = do
    now ← s.now
    lift (guard (is_fresh now r x))
    resume_owner name r o x

  unfoldable pub start_starting : Bytes → SessionRecord → M Step
  unfolding resume_seen observe_exact
  start_starting name r = do
    o ← observe_exact s.outside domain_id r.backend.object_id
    lift (guard (o.exists && (is_running_object o.state || is_stopped_object o.state)))
    snapshot ← attempt (s.snapshot (start_binding r))
    resume_seen name r o snapshot

  unfoldable pub accept_launched : SessionRecord → Snapshot → M SessionRecord
  unfolding accept_started reconcile_ready
  accept_launched current x =
      if is_starting current.intended_state
      then accept_started current x
      else if is_running_intent current.intended_state
      then reconcile_ready current
      else fail

  unfoldable pub launch : Bytes → SessionRecord → M SessionRecord
  unfolding accept_launched same_launch_identity
  launch name r = do
    lift (guard (not (is_empty r.start_generation) && valid_uuid r.start_generation))
    s.outside.release_session
    x ← s.start_exact (start_binding r) r.name
    s.outside.acquire_session domain_id name
    current ← asks (load_record domain_id name)
    lift (guard (same_launch_identity r current))
    accept_launched current x

  unfoldable pub finish_step : Bytes → Step → M SessionRecord
  unfolding launch
  finish_step name (Step.accepted r) = pure r
  finish_step name (Step.launches r) = launch name r

  -- The switch on the intended state.
  unfoldable pub start_from : Bytes → SessionRecord → Option RebuildJournal → M SessionRecord
  unfolding start_stopped start_starting finish_step reconcile_ready
  start_from name r rebuild =
      if is_stopped r.intended_state
      then start_stopped name r rebuild >>= finish_step name
      else if is_starting r.intended_state
      then start_starting name r >>= finish_step name
      else if is_running_intent r.intended_state
      then reconcile_ready r
      else fail

  unfoldable pub start_locked : Bytes → Option RebuildJournal → M SessionRecord
  unfolding admits_rebuild start_from
  start_locked name rebuild = do
    r ← asks (load_record domain_id name)
    (if is_empty r.recipe_intent_digest
        then pure tt
        else asks (s.load_recipe_intent r.recipe_intent_digest))
    asks (admits_rebuild name r rebuild)
    s.admit_prerequisites
    lift (guard (eqb r.backend.kind tart && not (is_empty r.backend.object_id)))
    (if is_starting r.intended_state || is_running_intent r.intended_state
        then s.verify_uses r
        else pure tt)
    start_from name r rebuild

  -- The deferred releases: their errors are the error of a run that had none.
  unfoldable pub start_session : Bytes → Option RebuildJournal → M SessionRecord
  unfolding start_locked
  start_session raw_name rebuild = do
    parsed ← lift (parse_domain domain_id)
    name ← lift (parse_name raw_name)
    s.outside.acquire_transition domain_id name
    s.outside.acquire_session domain_id name
    r ← start_locked name rebuild
    s.outside.release_session
    s.outside.release_transition
    pure r
