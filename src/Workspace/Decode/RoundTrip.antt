-- ===== src/Workspace/Decode/RoundTrip.antt =====
-- The reader takes back every workspace record that passes validation.
use boxwarden.Prelude.{Bytes, Option, Outcome, arith, eqb, none, ok, some, true, ℕ, ◌<◌, ◌^◌, ◌≡◌}
use boxwarden.Json.{Json}
use boxwarden.Workspace.Decode.{
  decode_attachment, decode_disk, decode_pending, decode_record, decode_use, state_of, state_text,
}
use boxwarden.Workspace.Decode.Marshal.{
  AttachmentText, DiskFits, IsText, PendingText, UseText, decode-marshal_attachment,
  decode-marshal_disk, decode-marshal_pending, decode-marshal_use, marshal_attachment, marshal_disk,
  marshal_pending, marshal_record, marshal_use, state_of-state_text,
}
use boxwarden.Workspace.Types.{
  Attachment, DiskIdentity, Pending, State, Use, WorkspaceRecord, state_fits, validate_record,
}

validate-facts :
    (d : Bytes) (r : WorkspaceRecord)
    → validate_record d r ≡ ok tt
    → (r.version ≡ 1)
      × (r.size_bytes < 2 ^ 63)
      × (state_fits r.state r.disk r.in_use r.attachment ≡ true)
unfolding validate_record
validate-facts d r h = ground arith

-- An optional part reads back.
abbrev Back : {A : Type 0} → (Json → Outcome A) → (A → Json) → Option A → Type 0
Back read write none = Unit
Back read write (some a) = read (write a) ≡ ok a

module _ (coerce : Bytes → Bytes) (e : Bytes) (v : ℕ) (d i : Bytes) (size : ℕ) (f u : Bytes)
    (s : State) where
  abbrev make :
      Option DiskIdentity → Option Attachment → Option Use → Option Pending → WorkspaceRecord
  make disk attachment in_use pending = record {
    version = v;
    domain = d;
    volume_id = i;
    size_bytes = size;
    format = f;
    filesystem_uuid = u;
    state = s;
    disk = disk;
    attachment = attachment;
    in_use = in_use;
    pending = pending;
  }

  decode-marshal_parts :
      (disk : Option DiskIdentity) (attachment : Option Attachment) (in_use : Option Use)
      (pending : Option Pending)
      → IsText coerce (make disk attachment in_use pending)
      → validate_record e (make disk attachment in_use pending) ≡ ok tt
      → v < 2 ^ 63
      → size < 2 ^ 63
      → state_of (state_text s) ≡ s
      → Back decode_disk (marshal_disk coerce) disk
      → Back decode_attachment (marshal_attachment coerce) attachment
      → Back decode_use (marshal_use coerce) in_use
      → Back decode_pending (marshal_pending coerce) pending
      → decode_record e (marshal_record coerce (make disk attachment in_use pending))
        ≡ ok (make disk attachment in_use pending)
  unfolding decode_record marshal_record eqb
  decode-marshal_parts none none none none t h hv hs hb b1 b2 b3 b4 = ground arith
  decode-marshal_parts _ _ _ _ t h hv hs hb b1 b2 b3 b4 = ground arith

disk-Back :
    (coerce : Bytes → Bytes) (o : Option DiskIdentity)
    → DiskFits coerce o
    → Back decode_disk (marshal_disk coerce) o
disk-Back coerce none h = tt
disk-Back coerce (some d) h = decode-marshal_disk coerce d h

attachment-Back :
    (coerce : Bytes → Bytes) (o : Option Attachment)
    → AttachmentText coerce o
    → Back decode_attachment (marshal_attachment coerce) o
attachment-Back coerce none h = tt
attachment-Back coerce (some a) h = decode-marshal_attachment coerce a h

use-Back :
    (coerce : Bytes → Bytes) (o : Option Use)
    → UseText coerce o
    → Back decode_use (marshal_use coerce) o
use-Back coerce none h = tt
use-Back coerce (some u) h = decode-marshal_use coerce u h

pending-Back :
    (coerce : Bytes → Bytes) (o : Option Pending)
    → PendingText coerce o
    → Back decode_pending (marshal_pending coerce) o
pending-Back coerce none h = tt
pending-Back coerce (some p) h = decode-marshal_pending coerce p h

-- A workspace record that passes validation, whose texts are UTF-8 and whose device and inode fit
-- 64 bits, is read back as it was written.
pub decode-marshal_record :
    (coerce : Bytes → Bytes) (d : Bytes) (r : WorkspaceRecord)
    → IsText coerce r
    → validate_record d r ≡ ok tt
    → decode_record d (marshal_record coerce r) ≡ ok r
decode-marshal_record coerce d r t h =
    let (one, small, fits) = validate-facts d r h in
    decode-marshal_parts coerce d r.version r.domain r.volume_id r.size_bytes r.format
      r.filesystem_uuid r.state r.disk r.attachment r.in_use r.pending t h (omega arith) small
      (state_of-state_text coerce r.state r.disk r.in_use r.attachment fits)
      (disk-Back coerce r.disk t.disk_fits) (attachment-Back coerce r.attachment t.attachment_text)
      (use-Back coerce r.in_use t.use_text) (pending-Back coerce r.pending t.pending_text)
