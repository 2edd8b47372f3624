-- ===== src/Session/Stop.antt =====
-- Stop of internal/session/stop.go, with finishStopped and persistStopped, and observeExact of
-- internal/session/create.go. The tests that no dependency is missing are left out.
pub mod Finished
pub mod Stopped
use boxwarden.Prelude.{
  Bool, Bytes, [], eqb, false, guard, if◌then◌else◌, is_empty, not, same, true, ◌&&◌, ◌||◌,
}
use boxwarden.Backend.{Observation, is_exact, is_running_object, is_stopped_object}
use boxwarden.Ident.{parse_domain, parse_name, valid_uuid}
use boxwarden.Session.Decode.{is_stopped, is_stopping}
use boxwarden.Session.Outside.{Outside}
use boxwarden.Session.Store.{load_record, save_record}
use boxwarden.Session.Types.{
  IntendedState, ReadinessStatus, SessionRecord, SessionRecord-discrete, tart,
}
use boxwarden.World.{M, asks, lift, pure, ◌>>=◌, ◌>>◌}

module _ (s : Outside) (domain_id : Bytes) where
  unfoldable pub observe_exact : Bytes → M Observation
  unfolding is_exact
  observe_exact object_id = do o ← s.observe object_id; lift (guard (is_exact object_id o)); pure o

  abbrev pub as_stopped : SessionRecord → SessionRecord
  as_stopped r = record r {
    intended_state = IntendedState.stopped;
    start_generation = [];
    readiness = record { status = ReadinessStatus.not_ready; diagnostic = r.readiness.diagnostic };
  }

  unfoldable pub persist_stopped : SessionRecord → M SessionRecord
  persist_stopped r = do save_record s.coerce r.domain (as_stopped r); pure (as_stopped r)

  abbrev pub with_diagnostic : SessionRecord → Bytes → SessionRecord
  with_diagnostic r text = record r {
    readiness = record { status = r.readiness.status; diagnostic = text };
  }

  -- The end of finishStopped: nothing to write for a session that is stopped.
  unfoldable pub settle_stopped : SessionRecord → Bytes → M SessionRecord
  unfolding persist_stopped
  settle_stopped current diagnostic =
      if is_stopped current.intended_state
      then pure current
      else persist_stopped (with_diagnostic current diagnostic)

  unfoldable pub finish_stopped : Bytes → SessionRecord → Bytes → M SessionRecord
  unfolding observe_exact settle_stopped
  finish_stopped name expected diagnostic = do
    s.release_session
    s.release_uses expected
    s.acquire_session domain_id name
    current ← asks (load_record domain_id name)
    lift (guard (same SessionRecord-discrete current expected))
    o ← observe_exact current.backend.object_id
    lift (guard (o.exists && is_stopped_object o.state))
    settle_stopped current diagnostic

  abbrev pub can_stop : IntendedState → Bool
  can_stop IntendedState.starting = true
  can_stop IntendedState.running = true
  can_stop IntendedState.stopping = true
  can_stop _ = false

  abbrev pub as_stopping : SessionRecord → SessionRecord
  as_stopping r = record r {
    intended_state = IntendedState.stopping;
    readiness = record { status = ReadinessStatus.not_ready; diagnostic = [] };
  }

  -- The intent to stop is durable before anything is stopped.
  unfoldable pub write_stopping : SessionRecord → M SessionRecord
  write_stopping r = do save_record s.coerce domain_id (as_stopping r); pure (as_stopping r)

  unfoldable pub persist_stopping : SessionRecord → M SessionRecord
  unfolding write_stopping
  persist_stopping r = if is_stopping r.intended_state then pure r else write_stopping r

  unfoldable pub stop_live : Bytes → SessionRecord → M SessionRecord
  unfolding finish_stopped
  stop_live name r = do
    s.release_session
    diagnostic ← s.stop_generation r
    finish_stopped name r diagnostic

  -- A generation that is proved to be over is not contacted.
  unfoldable pub stop_quiet : Bytes → SessionRecord → M SessionRecord
  unfolding stop_live
  stop_quiet name r = do
    over ← s.quiesced r
    if over then finish_stopped name r [] else stop_live name r

  unfoldable pub stop_active : Bytes → SessionRecord → Observation → M SessionRecord
  unfolding persist_stopping stop_quiet
  stop_active name r o = do
    lift (guard (can_stop r.intended_state))
    lift (guard (valid_uuid r.start_generation))
    marked ← persist_stopping r
    if is_stopped_object o.state then stop_quiet name marked else stop_live name marked

  unfoldable pub stop_seen : Bytes → SessionRecord → Observation → M SessionRecord
  unfolding stop_active
  stop_seen name r o =
      if is_stopped r.intended_state
      then (lift (guard (is_stopped_object o.state)) >> finish_stopped name r [])
      else stop_active name r o

  unfoldable pub stop_locked : Bytes → M SessionRecord
  unfolding stop_seen
  stop_locked name = do
    r ← asks (load_record domain_id name)
    lift (guard (eqb r.backend.kind tart && not (is_empty r.backend.object_id)))
    o ← observe_exact r.backend.object_id
    lift (guard (o.exists && (is_stopped_object o.state || is_running_object o.state)))
    stop_seen name r o

  -- The deferred releases: their errors are the error of a run that had none.
  unfoldable pub stop : Bytes → M SessionRecord
  unfolding stop_locked
  stop raw_name = do
    parsed ← lift (parse_domain domain_id)
    name ← lift (parse_name raw_name)
    s.acquire_transition domain_id name
    s.acquire_session domain_id name
    r ← stop_locked name
    s.release_session
    s.release_transition
    pure r
