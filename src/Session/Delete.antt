-- ===== src/Session/Delete.antt =====
-- Delete of internal/session/delete.go. The tests that no dependency is missing are left out.
pub mod Reserved
pub mod Deleted
use boxwarden.Prelude.{Bool, Bytes, [], eqb, guard, if◌then◌else◌, not, same, ◌&&◌, ◌||◌}
use boxwarden.Backend.{Observation, is_stopped_object, is_unknown_object, is_valid_object_state}
use boxwarden.Ident.{parse_domain, parse_name}
use boxwarden.Session.Decode.{is_stopped}
use boxwarden.Session.Outside.{Outside}
use boxwarden.Session.Rebuild.Registry.{require_no_rebuild}
use boxwarden.Session.Store.{is_deleting, load_record, save_record}
use boxwarden.Session.Types.{IntendedState, ReadinessStatus, SessionRecord, SessionRecord-discrete}
use boxwarden.World.{M, asks, fail, lift, pure, ◌>>=◌, ◌>>◌}

module _ (s : Outside) (domain_id : Bytes) where
  abbrev pub as_deleting : SessionRecord → SessionRecord
  as_deleting r = record r {
    intended_state = IntendedState.deleting;
    readiness = record { status = ReadinessStatus.not_ready; diagnostic = [] };
  }

  -- The intent of a stopped session is written inside the gate.
  unfoldable pub reserve_stopped : SessionRecord → M SessionRecord
  reserve_stopped r = do
    s.delete_gate r (save_record s.coerce domain_id (as_deleting r))
    pure (as_deleting r)

  -- The intent of an earlier attempt is written again, since its sync may have failed.
  unfoldable pub reserve_again : Bytes → SessionRecord → M SessionRecord
  reserve_again name r = do
    s.acquire_session domain_id name
    current ← asks (load_record domain_id name)
    lift (guard (same SessionRecord-discrete current r))
    save_record s.coerce domain_id r
    s.release_session
    pure r

  unfoldable pub reserve_deletion : Bytes → SessionRecord → M SessionRecord
  unfolding reserve_stopped reserve_again
  reserve_deletion name r =
      if is_stopped r.intended_state
      then reserve_stopped r
      else if is_deleting r.intended_state
      then reserve_again name r
      else fail

  -- One object that is stopped, or none.
  unfoldable pub is_deletable : Bytes → Observation → Bool
  is_deletable object_id o = not (
      not (eqb o.object_id object_id)
      || not (is_valid_object_state o.state)
      || o.exists && not (is_stopped_object o.state)
      || not o.exists && not (is_unknown_object o.state))

  unfoldable pub is_absent : Bytes → Observation → Bool
  is_absent object_id o = eqb o.object_id object_id && not o.exists && is_unknown_object o.state

  unfoldable pub delete_backend : Bytes → M (Unit {0})
  unfolding is_deletable is_absent
  delete_backend object_id = do
    before ← s.observe object_id
    lift (guard (is_deletable object_id before))
    (if before.exists then s.delete_object object_id else pure tt)
    after ← s.observe object_id
    lift (guard (is_absent object_id after))

  unfoldable pub delete_locked : Bytes → M (Unit {0})
  unfolding reserve_deletion delete_backend
  delete_locked name = do
    r ← asks (load_record domain_id name)
    asks (require_no_rebuild domain_id name)
    deleting ← reserve_deletion name r
    delete_backend deleting.backend.object_id
    s.finalize deleting

  -- The release of the transition lock is joined to the outcome.
  unfoldable pub delete : Bytes → M (Unit {0})
  unfolding delete_locked
  delete raw_name = do
    parsed ← lift (parse_domain domain_id)
    name ← lift (parse_name raw_name)
    s.acquire_transition domain_id name
    delete_locked name
    s.release_transition
