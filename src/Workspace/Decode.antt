-- ===== src/Workspace/Decode.antt =====
-- decodeRecord of internal/workspacex/record.go.
pub mod Marshal
pub mod RoundTrip
use boxwarden.Prelude.{
  Bool, Bytes, Outcome, [], bind, codes, eqb, err, false, if◌then◌else◌, none, not, ok, some, true,
  ◌&&◌, ◌||◌,
}
use boxwarden.Json.{Json, decode_int, decode_object, decode_string, decode_uint}
use boxwarden.Workspace.Types.{
  Attachment, DiskIdentity, Pending, State, Use, WorkspaceRecord, validate_record,
}

unfoldable pub state_of : Bytes → State
state_of s =
    if eqb s (codes "creating")
    then State.creating
    else if eqb s (codes "available")
    then State.available
    else if eqb s (codes "failed")
    then State.failed
    else State.other s

unfoldable pub state_text : State → Bytes
state_text State.creating = codes "creating"
state_text State.available = codes "available"
state_text State.failed = codes "failed"
state_text (State.other s) = s

unfoldable pub decode_disk_field :
    Bytes → Json → DiskIdentity × Bool × Bool → Outcome (DiskIdentity × Bool × Bool)
decode_disk_field k v (d, got_device, got_inode) =
    if eqb k (codes "device")
    then bind (decode_uint v d.device) (λ n. ok (record d { device = n }, true, got_inode))
    else if eqb k (codes "inode")
    then bind (decode_uint v d.inode) (λ n. ok (record d { inode = n }, got_device, true))
    else err

unfoldable pub decode_disk : Json → Outcome DiskIdentity
unfolding decode_disk_field decode_object
decode_disk v =
    bind (decode_object decode_disk_field v (record { device = 0; inode = 0 }, false, false))
      (λ (d, got_device, got_inode). if not got_device || not got_inode then err else ok d)

-- The three objects that hold texts alone: `k1`, `k2` and `k3` are their fields.
abbrev pub Texts : Type 0
Texts = (Bytes × Bool) × (Bytes × Bool) × (Bytes × Bool)

unfoldable pub decode_text_field : Bytes → Bytes → Bytes → Bytes → Json → Texts → Outcome Texts
decode_text_field k1 k2 k3 k v (a, b, c) =
    if eqb k k1
    then bind (decode_string v a.0) (λ s. ok ((s, true), b, c))
    else if eqb k k2
    then bind (decode_string v b.0) (λ s. ok (a, (s, true), c))
    else if eqb k k3
    then bind (decode_string v c.0) (λ s. ok (a, b, (s, true)))
    else err

abbrev pub no_texts : Texts
no_texts = (([], false), ([], false), ([], false))

unfoldable pub decode_use : Json → Outcome Use
unfolding decode_text_field decode_object
decode_use v =
    bind
      (decode_object
        (decode_text_field (codes "backend_kind") (codes "backend_object") (codes "generation")) v
        no_texts)
      (λ (a, b, c).
        if not a.1 || not b.1 || not c.1
        then err
        else ok (record { backend_kind = a.0; backend_object = b.0; generation = c.0 }))

unfoldable pub decode_attachment : Json → Outcome Attachment
unfolding decode_text_field decode_object
decode_attachment v =
    bind
      (decode_object
        (decode_text_field (codes "session_id") (codes "session_name") (codes "mount_path")) v
        no_texts)
      (λ (a, b, c).
        if not a.1 || not b.1 || not c.1
        then err
        else ok (record { session_id = a.0; session_name = b.0; mount_path = c.0 }))

unfoldable pub decode_pending_field :
    Bytes → Json → Pending × Bool × Bool → Outcome (Pending × Bool × Bool)
decode_pending_field k v (p, got_kind, got_id) =
    if eqb k (codes "kind")
    then bind (decode_string v p.kind) (λ s. ok (record p { kind = s }, true, got_id))
    else if eqb k (codes "id")
    then bind (decode_string v p.id) (λ s. ok (record p { id = s }, got_kind, true))
    else err

unfoldable pub decode_pending : Json → Outcome Pending
unfolding decode_pending_field decode_object
decode_pending v =
    bind (decode_object decode_pending_field v (record { kind = []; id = [] }, false, false))
      (λ (p, got_kind, got_id). if not got_kind || not got_id then err else ok p)

-- The record read so far, and the required fields that were seen.
pub record Reading : Type 0 where
  pub rec : WorkspaceRecord
  pub seen_version : Bool
  pub seen_domain : Bool
  pub seen_volume_id : Bool
  pub seen_size_bytes : Bool
  pub seen_format : Bool
  pub seen_filesystem_uuid : Bool
  pub seen_state : Bool

abbrev pub no_reading : Reading
no_reading = record {
  rec = record {
    version = 0;
    domain = [];
    volume_id = [];
    size_bytes = 0;
    format = [];
    filesystem_uuid = [];
    state = State.other [];
    disk = none;
    attachment = none;
    in_use = none;
    pending = none;
  };
  seen_version = false;
  seen_domain = false;
  seen_volume_id = false;
  seen_size_bytes = false;
  seen_format = false;
  seen_filesystem_uuid = false;
  seen_state = false;
}

unfoldable pub decode_record_field : Bytes → Json → Reading → Outcome Reading
decode_record_field k v p =
    let r = p.rec in
    if eqb k (codes "version")
    then bind (decode_int v r.version)
        (λ n. ok (record p { rec = record r { version = n }; seen_version = true }))
    else if eqb k (codes "domain")
    then bind (decode_string v r.domain)
        (λ s. ok (record p { rec = record r { domain = s }; seen_domain = true }))
    else if eqb k (codes "volume_id")
    then bind (decode_string v r.volume_id)
        (λ s. ok (record p { rec = record r { volume_id = s }; seen_volume_id = true }))
    else if eqb k (codes "size_bytes")
    then bind (decode_int v r.size_bytes)
        (λ n. ok (record p { rec = record r { size_bytes = n }; seen_size_bytes = true }))
    else if eqb k (codes "format")
    then bind (decode_string v r.format)
        (λ s. ok (record p { rec = record r { format = s }; seen_format = true }))
    else if eqb k (codes "filesystem_uuid")
    then bind (decode_string v r.filesystem_uuid)
        (λ s. ok (record p { rec = record r { filesystem_uuid = s }; seen_filesystem_uuid = true }))
    else if eqb k (codes "state")
    then bind (decode_string v (state_text r.state))
        (λ s. ok (record p { rec = record r { state = state_of s }; seen_state = true }))
    else if eqb k (codes "disk")
    then bind (decode_disk v) (λ d. ok (record p { rec = record r { disk = some d } }))
    else if eqb k (codes "use")
    then bind (decode_use v) (λ u. ok (record p { rec = record r { in_use = some u } }))
    else if eqb k (codes "attachment")
    then bind (decode_attachment v) (λ a. ok (record p { rec = record r { attachment = some a } }))
    else if eqb k (codes "pending")
    then bind (decode_pending v) (λ x. ok (record p { rec = record r { pending = some x } }))
    else err

abbrev pub all_seen : Reading → Bool
all_seen p =
    p.seen_version && p.seen_domain && p.seen_volume_id && p.seen_size_bytes && p.seen_format
    && p.seen_filesystem_uuid && p.seen_state

unfoldable pub decode_record : Bytes → Json → Outcome WorkspaceRecord
unfolding decode_record_field decode_object
decode_record expected_domain doc = bind (decode_object decode_record_field doc no_reading) (λ p.
    if not (all_seen p) then err else bind (validate_record expected_domain p.rec) (λ _. ok p.rec))
