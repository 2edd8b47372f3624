-- ===== src/Workspace/Valid.antt =====
-- The workspace records that validation admits, described without its tests.
use boxwarden.Prelude.{
  Bytes, Option, ap, arith, bind-eq-ok, else-eq-ok, eqb, eqb_iff, none, ok, refl, some, true, ◌%◌,
  ◌==◌, ◌^◌, ◌↔◌, ◌∙◌, ◌≡◌, ◌≢◌, ◌≤◌,
}
use boxwarden.Ident.{
  parse_domain, valid_backend_object_id, valid_mount_path, valid_pending_kind, valid_session_name,
  valid_uuid,
}
use boxwarden.Ident.Names.{parse_domain-eq}
use boxwarden.Session.Types.{tart}
use boxwarden.Workspace.Types.{
  Attachment, DiskIdentity, Pending, State, Use, WorkspaceRecord, attachment_fits, complete_disk,
  export_snapshot, format_raw_ext4, is_available, pending_fits, state_fits, use_fits,
  validate_record,
}

pub record IsComplete (d : DiskIdentity) : Type 0 where
  pub device_set : d.device ≢ 0
  pub inode_set : d.inode ≢ 0

-- What each state may hold.
pub data StateCase : State → Option DiskIdentity → Option Use → Option Attachment → Type 0 where
  reserved : StateCase State.creating none none none
  ready :
      {d : DiskIdentity} {u : Option Use} {a : Option Attachment}
      → IsComplete d
      → StateCase State.available (some d) u a
  broken : StateCase State.failed none none none
  broken_disk : {d : DiskIdentity} → IsComplete d → StateCase State.failed (some d) none none

pub record IsAttachment (a : Attachment) (s : State) : Type 0 where
  pub of_available : s ≡ State.available
  pub session : valid_uuid a.session_id ≡ true
  pub named : valid_session_name a.session_name ≡ true
  pub mounted : valid_mount_path a.mount_path ≡ true

pub record IsUse (u : Use) (a : Option Attachment) (p : Option Pending) : Type 0 where
  pub kind_tart : u.backend_kind ≡ tart
  pub object : valid_backend_object_id u.backend_object ≡ true
  pub generation : valid_uuid u.generation ≡ true
  pub of_attached : a ≢ none
  pub settled : p ≡ none

pub record IsPending (p : Pending) (s : State) (a : Option Attachment) (d : Option DiskIdentity)
    : Type 0 where
  pub identified : valid_uuid p.id ≡ true
  pub known_kind : valid_pending_kind p.kind ≡ true
  pub snapshot : p.kind ≡ export_snapshot → (s ≡ State.available) × (a ≢ none) × (d ≢ none)

abbrev pub IfSome : {A : Type 0} → Option A → (A → Type 0) → Type 0
IfSome none P = Unit
IfSome (some a) P = P a

pub record IsWorkspace (d : Bytes) (r : WorkspaceRecord) : Type 0 where
  pub domain_parses : parse_domain d ≡ ok d
  pub domain_is : r.domain ≡ d
  pub version_is : r.version ≡ 1
  pub volume : valid_uuid r.volume_id ≡ true
  pub filesystem : valid_uuid r.filesystem_uuid ≡ true
  pub raw_ext4 : r.format ≡ format_raw_ext4
  pub size_from : 4096 ≤ r.size_bytes
  pub size_to : r.size_bytes ≤ 2 ^ 43
  pub sectors : r.size_bytes % 512 ≡ 0
  pub state_case : StateCase r.state r.disk r.in_use r.attachment
  pub attached : IfSome r.attachment (λ a. IsAttachment a r.state)
  pub used : IfSome r.in_use (λ u. IsUse u r.attachment r.pending)
  pub pended : IfSome r.pending (λ p. IsPending p r.state r.attachment r.disk)

complete_disk_iff : (d : DiskIdentity) → (complete_disk d ≡ true) ↔ IsComplete d
complete_disk_iff d = (
  λ h. record { device_set = λ e. ground arith; inode_set = λ e. ground arith },
  λ c. ground arith,
)

state_fits_iff :
    (s : State) (d : Option DiskIdentity) (u : Option Use) (a : Option Attachment)
    → (state_fits s d u a ≡ true) ↔ StateCase s d u a
unfolding state_fits
state_fits_iff State.creating none none none = (λ _. reserved, λ _. refl)
state_fits_iff State.available (some d) u a =
    (λ h. ready ((complete_disk_iff d).0 h), elim [ ready c ↦ (complete_disk_iff d).1 c ])
state_fits_iff State.failed none none none = (λ _. broken, λ _. refl)
state_fits_iff State.failed (some d) none none = (
  λ h. broken_disk ((complete_disk_iff d).0 h),
  elim [ broken_disk c ↦ (complete_disk_iff d).1 c ],
)
state_fits_iff _ _ _ _ = (λ h. cc, λ c. elim c [ ])

is_available_iff : (s : State) → (is_available s ≡ true) ↔ (s ≡ State.available)
is_available_iff State.available = ground arith
is_available_iff _ = ground arith

attachment_fits_iff :
    (a : Option Attachment) (s : State)
    → (attachment_fits a s ≡ true) ↔ IfSome a (λ x. IsAttachment x s)
unfolding attachment_fits
attachment_fits_iff none s = (λ _. tt, λ _. refl)
attachment_fits_iff (some a) s = (
  λ h. record {
    of_available = (is_available_iff s).0 (ground arith);
    session = ground arith;
    named = ground arith;
    mounted = ground arith;
  },
  λ c. ground (arith, is_available_iff s),
)

use_fits_iff :
    (u : Option Use) (a : Option Attachment) (p : Option Pending)
    → (use_fits u a p ≡ true) ↔ IfSome u (λ x. IsUse x a p)
unfolding use_fits
use_fits_iff none a p = (λ _. tt, λ _. refl)
use_fits_iff (some u) a p = (
  λ h. record {
    kind_tart = (eqb_iff u.backend_kind tart).0 (ground arith);
    object = ground arith;
    generation = ground arith;
    of_attached = λ e. ground arith;
    settled = ground arith;
  },
  λ c. ground (arith, eqb_iff u.backend_kind tart, c.of_attached),
)

pending_fits_iff :
    (p : Option Pending) (s : State) (a : Option Attachment) (d : Option DiskIdentity)
    → (pending_fits p s a d ≡ true) ↔ IfSome p (λ x. IsPending x s a d)
unfolding pending_fits
pending_fits_iff none s a d = (λ _. tt, λ _. refl)
pending_fits_iff (some p) s a d = (
  λ h. record {
    identified = ground arith;
    known_kind = ground arith;
    snapshot = λ e. (
      (is_available_iff s).0 (ground (arith, eqb_iff p.kind export_snapshot)),
      λ n. ground (arith, eqb_iff p.kind export_snapshot),
      λ n. ground (arith, eqb_iff p.kind export_snapshot),
    );
  },
  λ c. ground (arith, eqb_iff p.kind export_snapshot, is_available_iff s, c.snapshot),
)

validate_record_sound :
    (d : Bytes) (r : WorkspaceRecord) → validate_record d r ≡ ok tt → IsWorkspace d r
unfolding validate_record
validate_record_sound d r h =
    let (n, parsed, rest) = bind-eq-ok (parse_domain d) _ h in
    record {
      domain_parses = parsed ∙ ap ok (parse_domain-eq d parsed);
      domain_is =
          (eqb_iff r.domain n).0
            (else-eq-ok (eqb r.domain n) _ (else-eq-ok (r.version == 1) _ rest).1).0
          ∙ parse_domain-eq d parsed;
      version_is = ground arith;
      volume = ground arith;
      filesystem = ground arith;
      raw_ext4 = ground (arith, eqb_iff r.format format_raw_ext4);
      size_from = ground arith;
      size_to = ground arith;
      sectors = ground arith;
      state_case = (state_fits_iff r.state r.disk r.in_use r.attachment).0 (ground arith);
      attached = (attachment_fits_iff r.attachment r.state).0 (ground arith);
      used = (use_fits_iff r.in_use r.attachment r.pending).0 (ground arith);
      pended = (pending_fits_iff r.pending r.state r.attachment r.disk).0 (ground arith);
    }

-- Validation accepts exactly the described records: version 1, of the expected domain, two UUIDs,
-- the raw ext4 format, a size from 4096 bytes to 8 TiB in whole sectors, and the rules on what each
-- state holds, on attachments, uses and pending operations.
pub validate_record_iff :
    (d : Bytes) (r : WorkspaceRecord) → (validate_record d r ≡ ok tt) ↔ IsWorkspace d r
unfolding validate_record
validate_record_iff d r = (
  validate_record_sound d r,
  λ v. ground (
    arith,
    v.domain_parses,
    eqb_iff r.domain d,
    eqb_iff r.format format_raw_ext4,
    state_fits_iff r.state r.disk r.in_use r.attachment,
    attachment_fits_iff r.attachment r.state,
    use_fits_iff r.in_use r.attachment r.pending,
    pending_fits_iff r.pending r.state r.attachment r.disk,
  ),
)
