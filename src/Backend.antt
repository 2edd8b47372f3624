-- ===== src/Backend.antt =====
-- What is seen of the backend: internal/backend/observation.go, and the reconciliation of
-- internal/lifecycle/reconcile.go. Diagnostics of a reconciliation are left out.
use boxwarden.Prelude.{
  Bool, Bytes, eqb, false, if◌then◌else◌, not, refl, true, ◌&&◌, ◌||◌, ◌↔◌, ◌≡◌,
}
use boxwarden.Session.Types.{IntendedState}

pub data ObjectState : Type 0 where
  running : ObjectState
  stopped : ObjectState
  unknown : ObjectState
  other : Bytes → ObjectState

pub record Observation : Type 0 where
  pub object_id : Bytes
  pub exists : Bool
  pub state : ObjectState
  pub diagnostic : Bytes

abbrev pub is_valid_object_state : ObjectState → Bool
is_valid_object_state (ObjectState.other _) = false
is_valid_object_state _ = true

abbrev pub is_stopped_object : ObjectState → Bool
is_stopped_object ObjectState.stopped = true
is_stopped_object _ = false

abbrev pub is_running_object : ObjectState → Bool
is_running_object ObjectState.running = true
is_running_object _ = false

abbrev pub is_unknown_object : ObjectState → Bool
is_unknown_object ObjectState.unknown = true
is_unknown_object _ = false

-- observedStopped of internal/workspacex/transition.go, on the answer of the observer.
unfoldable pub shows_stopped : Bytes → Observation → Bool
shows_stopped object_id o = eqb o.object_id object_id && o.exists && is_stopped_object o.state

-- FinalizeDeletedSession of internal/workspacex/delete.go, on the answer of the observer.
unfoldable pub shows_absent : Bytes → Observation → Bool
shows_absent object_id o = eqb o.object_id object_id && not o.exists && is_unknown_object o.state

-- observeExact of internal/session/create.go, on the answer of the observer.
unfoldable pub is_exact : Bytes → Observation → Bool
is_exact object_id o = not (
    not (eqb o.object_id object_id)
    || not (is_valid_object_state o.state)
    || o.exists && is_unknown_object o.state
    || not o.exists && not (is_unknown_object o.state))

pub data Consistency : Type 0 where
  consistent : Consistency
  drift : Consistency
  indeterminate : Consistency

unfoldable pub expected_observed_state : IntendedState → ObjectState × Bool
expected_observed_state IntendedState.running = (ObjectState.running, true)
expected_observed_state IntendedState.stopped = (ObjectState.stopped, true)
expected_observed_state _ = (ObjectState.unknown, false)

abbrev pub is_running_intent : IntendedState → Bool
is_running_intent IntendedState.running = true
is_running_intent _ = false

abbrev pub same_object_state : ObjectState → ObjectState → Bool
same_object_state ObjectState.running ObjectState.running = true
same_object_state ObjectState.stopped ObjectState.stopped = true
same_object_state ObjectState.unknown ObjectState.unknown = true
same_object_state (ObjectState.other a) (ObjectState.other b) = eqb a b
same_object_state _ _ = false

unfoldable pub reconcile : IntendedState → Observation → Consistency
unfolding expected_observed_state
reconcile intended observed =
    let (expected, stable) = expected_observed_state intended in
    if not stable
    then Consistency.indeterminate
    else if not observed.exists
    then Consistency.drift
    else if not (is_running_object observed.state) && not (is_stopped_object observed.state)
    then Consistency.indeterminate
    else if is_running_intent intended && is_running_object observed.state
    then Consistency.drift
    else if not (same_object_state observed.state expected)
    then Consistency.drift
    else Consistency.consistent

reconcile_sound :
    (intended : IntendedState) (id : Bytes) (e : Bool) (s : ObjectState) (t : Bytes)
    → reconcile intended (record { object_id = id; exists = e; state = s; diagnostic = t })
      ≡ Consistency.consistent
    → (intended ≡ IntendedState.stopped) × (e ≡ true) × (s ≡ ObjectState.stopped)
unfolding reconcile
reconcile_sound IntendedState.stopped id true ObjectState.stopped t h = (refl, refl, refl)
reconcile_sound IntendedState.stopped id true _ t h = cc
reconcile_sound IntendedState.stopped id false _ t h = cc
reconcile_sound IntendedState.running id true ObjectState.running t h = cc
reconcile_sound IntendedState.running id true _ t h = cc
reconcile_sound IntendedState.running id false _ t h = cc
reconcile_sound _ id e s t h = cc

-- A session is reported consistent exactly when it is meant to be stopped and its object is there
-- and stopped; a running one never is.
pub reconcile_iff :
    (intended : IntendedState) (o : Observation)
    → (reconcile intended o ≡ Consistency.consistent)
      ↔ ((intended ≡ IntendedState.stopped) × (o.exists ≡ true) × (o.state ≡ ObjectState.stopped))
unfolding reconcile
reconcile_iff intended o = (
  reconcile_sound intended o.object_id o.exists o.state o.diagnostic,
  λ (i, e, s). rw (i, e, s) refl,
)
