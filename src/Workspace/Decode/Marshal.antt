-- ===== src/Workspace/Decode/Marshal.antt =====
-- The document that json.Marshal writes of a workspace record, and that the reader takes it back.
-- encoding/json replaces what is not UTF-8 in a text: `coerce` is what a text has become when it
-- was written and read.
use boxwarden.Prelude.{Bytes, Option, arith, codes, eqb, none, ok, refl, some, true, ◌<◌, ◌^◌, ◌≡◌}
use boxwarden.Json.{Json, Members, end, member, num, obj, str}
use boxwarden.Workspace.Decode.{
  decode_attachment, decode_disk, decode_pending, decode_use, state_of, state_text,
}
use boxwarden.Workspace.Types.{
  Attachment, DiskIdentity, Pending, State, Use, WorkspaceRecord, state_fits,
}

abbrev pub omit_none {ℓ} : {A : Type ℓ} → Bytes → (A → Json) → Option A → Members → Members
omit_none k f none ms = ms
omit_none k f (some a) ms = member k (f a) ms

module _ (coerce : Bytes → Bytes) where
  abbrev pub marshal_text : Bytes → Json
  marshal_text s = str (coerce s)

  abbrev pub marshal_disk : DiskIdentity → Json
  marshal_disk d =
      obj (member (codes "device") (num d.device) (member (codes "inode") (num d.inode) end))

  abbrev pub marshal_attachment : Attachment → Json
  marshal_attachment a = obj (
      member (codes "session_id") (marshal_text a.session_id) (
        member (codes "session_name") (marshal_text a.session_name)
          (member (codes "mount_path") (marshal_text a.mount_path) end)))

  abbrev pub marshal_use : Use → Json
  marshal_use u = obj (
      member (codes "backend_kind") (marshal_text u.backend_kind) (
        member (codes "backend_object") (marshal_text u.backend_object)
          (member (codes "generation") (marshal_text u.generation) end)))

  abbrev pub marshal_pending : Pending → Json
  marshal_pending p =
      obj
        (member (codes "kind") (marshal_text p.kind) (member (codes "id") (marshal_text p.id) end))

  unfoldable pub marshal_record : WorkspaceRecord → Json
  marshal_record r = obj (
      member (codes "version") (num r.version) (
        member (codes "domain") (marshal_text r.domain) (
          member (codes "volume_id") (marshal_text r.volume_id) (
            member (codes "size_bytes") (num r.size_bytes) (
              member (codes "format") (marshal_text r.format) (
                member (codes "filesystem_uuid") (marshal_text r.filesystem_uuid) (
                  member (codes "state") (marshal_text (state_text r.state)) (
                    omit_none (codes "disk") marshal_disk r.disk (
                      omit_none (codes "attachment") marshal_attachment r.attachment (
                        omit_none (codes "use") marshal_use r.in_use
                          (omit_none (codes "pending") marshal_pending r.pending end)))))))))))

  -- The texts of an optional part are UTF-8.
  abbrev pub AttachmentText : Option Attachment → Type 0
  AttachmentText none = Unit
  AttachmentText (some a) =
      (coerce a.session_id ≡ a.session_id)
      × (coerce a.session_name ≡ a.session_name)
      × (coerce a.mount_path ≡ a.mount_path)

  abbrev pub UseText : Option Use → Type 0
  UseText none = Unit
  UseText (some u) =
      (coerce u.backend_kind ≡ u.backend_kind)
      × (coerce u.backend_object ≡ u.backend_object)
      × (coerce u.generation ≡ u.generation)

  abbrev pub PendingText : Option Pending → Type 0
  PendingText none = Unit
  PendingText (some p) = (coerce p.kind ≡ p.kind) × (coerce p.id ≡ p.id)

  -- The numbers of a disk identity are 64-bit.
  abbrev pub DiskFits : Option DiskIdentity → Type 0
  DiskFits none = Unit
  DiskFits (some d) = (d.device < 2 ^ 64) × (d.inode < 2 ^ 64)

  -- Every text of the record is UTF-8, and its numbers fit their Go types.
  pub record IsText (r : WorkspaceRecord) : Type 0 where
    pub domain_text : coerce r.domain ≡ r.domain
    pub volume_text : coerce r.volume_id ≡ r.volume_id
    pub format_text : coerce r.format ≡ r.format
    pub filesystem_text : coerce r.filesystem_uuid ≡ r.filesystem_uuid
    pub state_is_text : coerce (state_text r.state) ≡ state_text r.state
    pub attachment_text : AttachmentText r.attachment
    pub use_text : UseText r.in_use
    pub pending_text : PendingText r.pending
    pub disk_fits : DiskFits r.disk

  pub state_of-state_text :
      (s : State) (d : Option DiskIdentity) (u : Option Use) (a : Option Attachment)
      → state_fits s d u a ≡ true
      → state_of (state_text s) ≡ s
  unfolding state_of state_text state_fits eqb
  state_of-state_text (State.other _) d u a h = cc
  state_of-state_text _ d u a h = refl

  pub decode-marshal_disk :
      (d : DiskIdentity) → DiskFits (some d) → decode_disk (marshal_disk d) ≡ ok d
  unfolding decode_disk eqb
  decode-marshal_disk d h = ground arith

  pub decode-marshal_use : (u : Use) → UseText (some u) → decode_use (marshal_use u) ≡ ok u
  unfolding decode_use eqb
  decode-marshal_use u h = ground arith

  pub decode-marshal_attachment :
      (a : Attachment) → AttachmentText (some a) → decode_attachment (marshal_attachment a) ≡ ok a
  unfolding decode_attachment eqb
  decode-marshal_attachment u h = ground arith

  pub decode-marshal_pending :
      (u : Pending) → PendingText (some u) → decode_pending (marshal_pending u) ≡ ok u
  unfolding decode_pending eqb
  decode-marshal_pending u h = ground arith
