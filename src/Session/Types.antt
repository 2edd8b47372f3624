-- ===== src/Session/Types.antt =====
-- The session record of internal/session/record.go. A Go string type with constants is an
-- enumeration here with a constructor for any other text.
use boxwarden.Prelude.{Bytes, codes, eqb, if◌then◌else◌, ℕ, ℕ_discrete}

pub data Mode : Type 0 where
  clean : Mode
  quarantine : Mode
  other : Bytes → Mode

pub data IntendedState : Type 0 where
  creating : IntendedState
  stopped : IntendedState
  starting : IntendedState
  running : IntendedState
  stopping : IntendedState
  deleting : IntendedState
  failed : IntendedState
  other : Bytes → IntendedState

pub data ReadinessStatus : Type 0 where
  not_ready : ReadinessStatus
  starting : ReadinessStatus
  ready : ReadinessStatus
  drift : ReadinessStatus
  other : Bytes → ReadinessStatus

pub record BackendRef : Type 0 where
  pub kind : Bytes
  pub object_id : Bytes

pub record ReadinessRecord : Type 0 where
  pub status : ReadinessStatus
  pub diagnostic : Bytes

pub record SessionRecord : Type 0 where
  pub version : ℕ
  pub domain : Bytes
  pub name : Bytes
  pub id : Bytes
  pub mode : Mode
  pub intended_state : IntendedState
  pub backend : BackendRef
  pub golden_revision : Bytes
  pub recipe_intent_digest : Bytes
  pub start_generation : Bytes
  pub readiness : ReadinessRecord

unfoldable pub Bytes-discrete : Discrete Bytes
Bytes-discrete = hlevel ℕ_discrete

unfoldable pub SessionRecord-discrete : Discrete SessionRecord
SessionRecord-discrete = hlevel ℕ_discrete

unfoldable pub Mode-discrete : Discrete Mode
Mode-discrete = hlevel ℕ_discrete

unfoldable pub BackendRef-discrete : Discrete BackendRef
BackendRef-discrete = hlevel ℕ_discrete

abbrev pub tart : Bytes
tart = codes "tart"

-- Decoding a string into a Go string type, and the text of a value.
unfoldable pub mode_of : Bytes → Mode
mode_of s =
    if eqb s (codes "clean")
    then Mode.clean
    else if eqb s (codes "quarantine")
    then Mode.quarantine
    else Mode.other s

unfoldable pub mode_text : Mode → Bytes
mode_text Mode.clean = codes "clean"
mode_text Mode.quarantine = codes "quarantine"
mode_text (Mode.other s) = s

unfoldable pub state_of : Bytes → IntendedState
state_of s =
    if eqb s (codes "creating")
    then IntendedState.creating
    else if eqb s (codes "stopped")
    then IntendedState.stopped
    else if eqb s (codes "starting")
    then IntendedState.starting
    else if eqb s (codes "running")
    then IntendedState.running
    else if eqb s (codes "stopping")
    then IntendedState.stopping
    else if eqb s (codes "deleting")
    then IntendedState.deleting
    else if eqb s (codes "failed")
    then IntendedState.failed
    else IntendedState.other s

unfoldable pub state_text : IntendedState → Bytes
state_text IntendedState.creating = codes "creating"
state_text IntendedState.stopped = codes "stopped"
state_text IntendedState.starting = codes "starting"
state_text IntendedState.running = codes "running"
state_text IntendedState.stopping = codes "stopping"
state_text IntendedState.deleting = codes "deleting"
state_text IntendedState.failed = codes "failed"
state_text (IntendedState.other s) = s

unfoldable pub status_of : Bytes → ReadinessStatus
status_of s =
    if eqb s (codes "not_ready")
    then ReadinessStatus.not_ready
    else if eqb s (codes "starting")
    then ReadinessStatus.starting
    else if eqb s (codes "ready")
    then ReadinessStatus.ready
    else if eqb s (codes "drift")
    then ReadinessStatus.drift
    else ReadinessStatus.other s

unfoldable pub status_text : ReadinessStatus → Bytes
status_text ReadinessStatus.not_ready = codes "not_ready"
status_text ReadinessStatus.starting = codes "starting"
status_text ReadinessStatus.ready = codes "ready"
status_text ReadinessStatus.drift = codes "drift"
status_text (ReadinessStatus.other s) = s
