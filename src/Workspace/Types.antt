-- ===== src/Workspace/Types.antt =====
-- The workspace record of internal/workspacex/record.go and its validation. A pointer that may be
-- nil is an Option; the field `Use` is `in_use` here.
use boxwarden.Prelude.{
  Bool, Bytes, Option, Outcome, bind, codes, eqb, err, false, guard, if◌then◌else◌, is_some, ltb,
  none, not, some, true, ℕ, ℕ_discrete, ◌%◌, ◌&&◌, ◌==◌, ◌^◌, ◌||◌,
}
use boxwarden.Ident.{
  parse_domain, valid_backend_object_id, valid_mount_path, valid_pending_kind, valid_session_name,
  valid_uuid,
}
use boxwarden.Session.Types.{tart}

pub data State : Type 0 where
  creating : State
  available : State
  failed : State
  other : Bytes → State

pub record DiskIdentity : Type 0 where
  pub device : ℕ
  pub inode : ℕ

pub record Use : Type 0 where
  pub backend_kind : Bytes
  pub backend_object : Bytes
  pub generation : Bytes

pub record Attachment : Type 0 where
  pub session_id : Bytes
  pub session_name : Bytes
  pub mount_path : Bytes

pub record Pending : Type 0 where
  pub kind : Bytes
  pub id : Bytes

pub record WorkspaceRecord : Type 0 where
  pub version : ℕ
  pub domain : Bytes
  pub volume_id : Bytes
  pub size_bytes : ℕ
  pub format : Bytes
  pub filesystem_uuid : Bytes
  pub state : State
  pub disk : Option DiskIdentity
  pub attachment : Option Attachment
  pub in_use : Option Use
  pub pending : Option Pending

unfoldable pub Disk-discrete : Discrete (Option DiskIdentity)
Disk-discrete = hlevel ℕ_discrete

unfoldable pub Attachment-discrete : Discrete (Option Attachment)
Attachment-discrete = hlevel ℕ_discrete

unfoldable pub Use-discrete : Discrete (Option Use)
Use-discrete = hlevel ℕ_discrete

unfoldable pub Pending-discrete : Discrete (Option Pending)
Pending-discrete = hlevel ℕ_discrete

unfoldable pub WorkspaceRecord-discrete : Discrete WorkspaceRecord
WorkspaceRecord-discrete = hlevel ℕ_discrete

abbrev pub is_creating : State → Bool
is_creating State.creating = true
is_creating _ = false

abbrev pub is_available : State → Bool
is_available State.available = true
is_available _ = false

abbrev pub is_failed : State → Bool
is_failed State.failed = true
is_failed _ = false

abbrev pub format_raw_ext4 : Bytes
format_raw_ext4 = codes "raw-ext4"

abbrev pub export_snapshot : Bytes
export_snapshot = codes "export-snapshot"

-- Both numbers of a disk identity are there.
abbrev pub complete_disk : DiskIdentity → Bool
complete_disk d = not (d.device == 0) && not (d.inode == 0)

-- The switch on the state.
unfoldable pub state_fits : State → Option DiskIdentity → Option Use → Option Attachment → Bool
state_fits State.creating disk use_of attachment =
    not (is_some disk || is_some use_of || is_some attachment)
state_fits State.available none use_of attachment = false
state_fits State.available (some d) use_of attachment = complete_disk d
state_fits State.failed none use_of attachment = not (is_some use_of || is_some attachment)
state_fits State.failed (some d) use_of attachment =
    not (is_some use_of || is_some attachment) && complete_disk d
state_fits (State.other _) disk use_of attachment = false

unfoldable pub use_fits : Option Use → Option Attachment → Option Pending → Bool
use_fits none attachment pending = true
use_fits (some u) attachment pending =
    eqb u.backend_kind tart
    && valid_backend_object_id u.backend_object
    && valid_uuid u.generation
    && is_some attachment
    && not (is_some pending)

unfoldable pub attachment_fits : Option Attachment → State → Bool
attachment_fits none state = true
attachment_fits (some a) state =
    is_available state
    && valid_uuid a.session_id
    && valid_session_name a.session_name
    && valid_mount_path a.mount_path

unfoldable pub pending_fits :
    Option Pending → State → Option Attachment → Option DiskIdentity → Bool
pending_fits none state attachment disk = true
pending_fits (some p) state attachment disk =
    valid_uuid p.id
    && valid_pending_kind p.kind
    && not (
        eqb p.kind export_snapshot
        && not (is_available state && is_some attachment && is_some disk))

unfoldable pub validate_record : Bytes → WorkspaceRecord → Outcome (Unit {0})
unfolding state_fits use_fits attachment_fits pending_fits
validate_record expected_domain r = bind (parse_domain expected_domain) (λ parsed.
    if not (r.version == 1)
    then err
    else if not (eqb r.domain parsed)
    then err
    else if not (valid_uuid r.volume_id)
        || not (valid_uuid r.filesystem_uuid)
        || not (eqb r.format format_raw_ext4)
    then err
    else if ltb r.size_bytes 4096 || ltb (2 ^ 43) r.size_bytes || not (r.size_bytes % 512 == 0)
    then err
    else guard (
        state_fits r.state r.disk r.in_use r.attachment
        && attachment_fits r.attachment r.state
        && use_fits r.in_use r.attachment r.pending
        && pending_fits r.pending r.state r.attachment r.disk))
