-- ===== src/Session/Decode.antt =====
-- decodeRecord of internal/session/record.go with what it calls: the strict reading of one
-- session record. The flags `got…` of the source are the fields `got_…` here.
pub mod Valid
pub mod Sound
pub mod Marshal
pub mod RoundTrip
use boxwarden.Prelude.{
  Bool, Bytes, Option, Outcome, [], bind, codes, eqb, err, false, guard, if◌then◌else◌, is_empty,
  length, ltb, none, not, ok, some, true, ℕ, ◌&&◌, ◌==◌, ◌||◌,
}
use boxwarden.Ident.{lower_sha256, parse_domain, parse_name, valid_backend_object_id, valid_uuid}
use boxwarden.Json.{Json, decode_int, decode_object, decode_string}
use boxwarden.Session.Types.{
  BackendRef, IntendedState, Mode, ReadinessRecord, ReadinessStatus, SessionRecord, mode_of,
  mode_text, state_of, state_text, status_of, status_text, tart,
}

unfoldable pub decode_backend_field :
    Bytes → Json → BackendRef × Bool × Bool → Outcome (BackendRef × Bool × Bool)
decode_backend_field k v (b, got_kind, got_object_id) =
    if eqb k (codes "kind")
    then bind (decode_string v b.kind) (λ s. ok (record b { kind = s }, true, got_object_id))
    else if eqb k (codes "object_id")
    then bind (decode_string v b.object_id) (λ s. ok (record b { object_id = s }, got_kind, true))
    else err

abbrev pub no_backend : BackendRef
no_backend = record { kind = []; object_id = [] }

abbrev pub finish_backend : BackendRef × Bool × Bool → Outcome BackendRef
finish_backend (b, got_kind, got_object_id) =
    if not got_kind
      || not got_object_id
      || not (eqb b.kind tart)
      || not (valid_backend_object_id b.object_id)
    then err
    else ok b

unfoldable pub decode_backend : Json → Outcome BackendRef
unfolding decode_backend_field decode_object
decode_backend v =
    bind (decode_object decode_backend_field v (no_backend, false, false)) finish_backend

unfoldable pub decode_readiness_field :
    Bytes → Json → ReadinessRecord × Bool × Bool → Outcome (ReadinessRecord × Bool × Bool)
decode_readiness_field k v (r, got_status, got_diagnostic) =
    if eqb k (codes "status")
    then bind (decode_string v (status_text r.status))
        (λ s. ok (record r { status = status_of s }, true, got_diagnostic))
    else if eqb k (codes "diagnostic")
    then bind (decode_string v r.diagnostic)
        (λ s. ok (record r { diagnostic = s }, got_status, true))
    else err

abbrev pub no_readiness : ReadinessRecord
no_readiness = record { status = ReadinessStatus.other []; diagnostic = [] }

abbrev pub finish_readiness : ReadinessRecord × Bool × Bool → Outcome ReadinessRecord
finish_readiness (r, got_status, got_diagnostic) =
    if not got_status || not got_diagnostic then err else ok r

unfoldable pub decode_readiness : Json → Outcome ReadinessRecord
unfolding decode_readiness_field decode_object
decode_readiness v =
    bind (decode_object decode_readiness_field v (no_readiness, false, false)) finish_readiness

-- The record read so far, and which fields were there.
pub record Reading : Type 0 where
  pub rec : SessionRecord
  pub got_version : Bool
  pub got_domain : Bool
  pub got_name : Bool
  pub got_id : Bool
  pub got_mode : Bool
  pub got_state : Bool
  pub got_backend : Bool
  pub got_golden_revision : Bool
  pub got_intent : Bool
  pub got_generation : Bool
  pub got_readiness : Bool

-- The zero value of the Go struct.
abbrev pub no_record : SessionRecord
no_record = record {
  version = 0;
  domain = [];
  name = [];
  id = [];
  mode = Mode.other [];
  intended_state = IntendedState.other [];
  backend = no_backend;
  golden_revision = [];
  recipe_intent_digest = [];
  start_generation = [];
  readiness = no_readiness;
}

abbrev pub no_reading : Reading
no_reading = record {
  rec = no_record;
  got_version = false;
  got_domain = false;
  got_name = false;
  got_id = false;
  got_mode = false;
  got_state = false;
  got_backend = false;
  got_golden_revision = false;
  got_intent = false;
  got_generation = false;
  got_readiness = false;
}

-- The names of the cases of the switch.
pub data Field : Type 0 where
  version domain name id mode intended_state backend : Field
  golden_revision recipe_intent_digest start_generation readiness : Field

unfoldable pub field_of : Bytes → Option Field
field_of k =
    if eqb k (codes "version")
    then some Field.version
    else if eqb k (codes "domain")
    then some Field.domain
    else if eqb k (codes "name")
    then some Field.name
    else if eqb k (codes "id")
    then some Field.id
    else if eqb k (codes "mode")
    then some Field.mode
    else if eqb k (codes "intended_state")
    then some Field.intended_state
    else if eqb k (codes "backend")
    then some Field.backend
    else if eqb k (codes "golden_revision")
    then some Field.golden_revision
    else if eqb k (codes "recipe_intent_digest")
    then some Field.recipe_intent_digest
    else if eqb k (codes "start_generation")
    then some Field.start_generation
    else if eqb k (codes "readiness")
    then some Field.readiness
    else none

unfoldable pub set_field : Field → Json → Reading → Outcome Reading
set_field Field.version v p =
    let r = p.rec in
    bind (decode_int v r.version)
      (λ n. ok (record p { rec = record r { version = n }; got_version = true }))
set_field Field.domain v p =
    let r = p.rec in
    bind (decode_string v []) (λ raw.
      bind (parse_domain raw)
        (λ d. ok (record p { rec = record r { domain = d }; got_domain = true })))
set_field Field.name v p =
    let r = p.rec in
    bind (decode_string v []) (λ raw.
      bind (parse_name raw) (λ n. ok (record p { rec = record r { name = n }; got_name = true })))
set_field Field.id v p =
    let r = p.rec in
    bind (decode_string v r.id) (λ s. ok (record p { rec = record r { id = s }; got_id = true }))
set_field Field.mode v p =
    let r = p.rec in
    bind (decode_string v (mode_text r.mode))
      (λ s. ok (record p { rec = record r { mode = mode_of s }; got_mode = true }))
set_field Field.intended_state v p =
    let r = p.rec in
    bind (decode_string v (state_text r.intended_state))
      (λ s. ok (record p { rec = record r { intended_state = state_of s }; got_state = true }))
set_field Field.backend v p =
    let r = p.rec in
    bind (decode_backend v)
      (λ b. ok (record p { rec = record r { backend = b }; got_backend = true }))
set_field Field.golden_revision v p =
    let r = p.rec in
    bind (decode_string v r.golden_revision)
      (λ s. ok (record p { rec = record r { golden_revision = s }; got_golden_revision = true }))
set_field Field.recipe_intent_digest v p =
    let r = p.rec in
    bind (decode_string v r.recipe_intent_digest)
      (λ s. ok (record p { rec = record r { recipe_intent_digest = s }; got_intent = true }))
set_field Field.start_generation v p =
    let r = p.rec in
    bind (decode_string v r.start_generation)
      (λ s. ok (record p { rec = record r { start_generation = s }; got_generation = true }))
set_field Field.readiness v p =
    let r = p.rec in
    bind (decode_readiness v)
      (λ s. ok (record p { rec = record r { readiness = s }; got_readiness = true }))

unfoldable pub decode_record_field : Bytes → Json → Reading → Outcome Reading
unfolding field_of set_field
decode_record_field k v p = elim (field_of k) [ none ↦ err | some f ↦ set_field f v p ]

abbrev pub is_valid_mode : Mode → Bool
is_valid_mode Mode.clean = true
is_valid_mode Mode.quarantine = true
is_valid_mode (Mode.other _) = false

unfoldable pub valid_state : IntendedState → Bool
valid_state IntendedState.creating = true
valid_state IntendedState.stopped = true
valid_state IntendedState.starting = true
valid_state IntendedState.running = true
valid_state IntendedState.stopping = true
valid_state IntendedState.deleting = true
valid_state IntendedState.failed = true
valid_state (IntendedState.other _) = false

-- The states that own a start generation.
unfoldable pub generation_in : IntendedState → Bytes → Bool
generation_in IntendedState.starting g = valid_uuid g
generation_in IntendedState.running g = valid_uuid g
generation_in IntendedState.stopping g = valid_uuid g
generation_in IntendedState.creating g = is_empty g
generation_in IntendedState.stopped g = is_empty g
generation_in IntendedState.deleting g = is_empty g
generation_in IntendedState.failed g = is_empty g
generation_in (IntendedState.other _) g = is_empty g

abbrev pub is_starting : IntendedState → Bool
is_starting IntendedState.starting = true
is_starting _ = false

abbrev pub is_running : IntendedState → Bool
is_running IntendedState.running = true
is_running _ = false

abbrev pub is_stopping : IntendedState → Bool
is_stopping IntendedState.stopping = true
is_stopping _ = false

abbrev pub is_stopped : IntendedState → Bool
is_stopped IntendedState.stopped = true
is_stopped _ = false

unfoldable pub validate_start_generation : SessionRecord → Outcome (Unit {0})
unfolding generation_in
validate_start_generation r = guard (generation_in r.intended_state r.start_generation)

abbrev pub max_readiness_diagnostic_bytes : ℕ
max_readiness_diagnostic_bytes = 1024

unfoldable pub readiness_in : ReadinessStatus → IntendedState → Bytes → Bool
readiness_in ReadinessStatus.not_ready s g = is_empty g || is_stopping s
readiness_in ReadinessStatus.starting s g = is_starting s
readiness_in ReadinessStatus.ready s g = is_running s
readiness_in ReadinessStatus.drift s g = is_running s
readiness_in (ReadinessStatus.other _) s g = false

unfoldable pub validate_readiness : SessionRecord → Outcome (Unit {0})
unfolding readiness_in
validate_readiness r =
    if ltb max_readiness_diagnostic_bytes (length r.readiness.diagnostic)
    then err
    else guard (readiness_in r.readiness.status r.intended_state r.start_generation)

-- What stands behind the loop, up to the switch on the version.
unfoldable pub check_common : Reading → Bool
check_common p =
    let r = p.rec in
    p.got_version
    && (r.version == 1 || r.version == 2)
    && (p.got_domain && p.got_name && p.got_id && p.got_mode && p.got_state && p.got_backend)
    && valid_uuid r.id
    && is_valid_mode r.mode
    && valid_state r.intended_state

-- The case of version 2.
unfoldable pub check_v2 : Reading → Outcome (Unit {0})
check_v2 p =
    let r = p.rec in
    if not p.got_golden_revision
      || not (valid_backend_object_id r.golden_revision)
      || not p.got_readiness
    then err
    else if p.got_intent && not (lower_sha256 r.recipe_intent_digest)
    then err
    else bind (validate_start_generation r) (λ _. validate_readiness r)

unfoldable pub finish_record : Reading → Outcome SessionRecord
unfolding check_common check_v2
finish_record p =
    if not (check_common p)
    then err
    else if p.rec.version == 1
    then if p.got_generation || p.got_readiness || p.got_intent then err else ok p.rec
    else bind (check_v2 p) (λ _. ok p.rec)

unfoldable pub decode_record : Json → Outcome SessionRecord
unfolding decode_record_field finish_record decode_object
decode_record d = bind (decode_object decode_record_field d no_reading) finish_record
