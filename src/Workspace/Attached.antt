-- ===== src/Workspace/Attached.antt =====
-- listSessionAttachments of internal/workspacex/registry.go: the volumes of one session.
pub mod Selected
use boxwarden.Prelude.{
  Bool, Bytes, List, Option, Outcome, [], bind, eqb, err, false, if◌then◌else◌, length, ltb, none,
  not, ok, some, true, ℕ, ◌&&◌, ◌==◌, ◌||◌, ◌∷◌,
}
use boxwarden.Ident.{valid_session_name, valid_uuid}
use boxwarden.Json.{Json}
use boxwarden.Workspace.Bindings.{load_volume, mounts_overlap}
use boxwarden.Workspace.Types.{Attachment, WorkspaceRecord}
use boxwarden.World.{Dir, World, key_of}

abbrev pub max_session_attachments : ℕ
max_session_attachments = 4

abbrev pub max_registry_entries : ℕ
max_registry_entries = 4096

-- `<` on strings.
unfoldable pub ltb_bytes : Bytes → Bytes → Bool
ltb_bytes a [] = false
ltb_bytes [] (y ∷ ys) = true
ltb_bytes (x ∷ xs) (y ∷ ys) = ltb x y || (x == y && ltb_bytes xs ys)

unfoldable pub insert : WorkspaceRecord → List WorkspaceRecord → List WorkspaceRecord
unfolding ltb_bytes
insert r [] = r ∷ []
insert r (q ∷ qs) = if ltb_bytes q.volume_id r.volume_id then q ∷ insert r qs else r ∷ q ∷ qs

-- sort.Slice by volume; volumes of one registry have different identities.
unfoldable pub sort : List WorkspaceRecord → List WorkspaceRecord
unfolding insert
sort [] = []
sort (r ∷ rs) = insert r (sort rs)

abbrev pub overlapping : Option Attachment → Option Attachment → Bool
overlapping (some a) (some b) = mounts_overlap a.mount_path b.mount_path
overlapping _ _ = false

-- A selected volume has the same filesystem, or an overlapping mount.
unfoldable pub conflicts : WorkspaceRecord → List WorkspaceRecord → Bool
conflicts r [] = false
conflicts r (q ∷ qs) =
    eqb q.filesystem_uuid r.filesystem_uuid
    || overlapping q.attachment r.attachment
    || conflicts r qs

module _ (expected_domain session_id session_name : Bytes) where
  -- What one record adds to the selection.
  unfoldable pub add_record :
      WorkspaceRecord → List WorkspaceRecord → Outcome (List WorkspaceRecord)
  unfolding conflicts
  add_record r selected = elim r.attachment [
    | none ↦ ok selected
    | some binding ↦
        let id_matches = eqb binding.session_id session_id in
        let name_matches = eqb binding.session_name session_name in
        if id_matches && not name_matches || not id_matches && name_matches
        then err
        else if not id_matches
        then ok selected
        else if conflicts r selected
        then err
        else if ltb max_session_attachments (length (r ∷ selected))
        then err
        else ok (r ∷ selected)
  ]

  unfoldable pub add_entry : Bytes → Json → List WorkspaceRecord → Outcome (List WorkspaceRecord)
  unfolding add_record
  add_entry name doc selected = elim (key_of name) [
    | none ↦ ok selected
    | some key ↦
        if not (valid_uuid key)
        then err
        else bind (load_volume expected_domain key doc) (λ r. add_record r selected)
  ]

  -- The loop over the directory; the selection grows at its front.
  unfoldable pub select : Dir → List WorkspaceRecord → Outcome (List WorkspaceRecord)
  unfolding add_entry
  select [] selected = ok selected
  select ((name, doc) ∷ rest) selected =
      bind (add_entry name doc selected) (λ more. select rest more)

  unfoldable pub list_session_attachments : World → Outcome (List WorkspaceRecord)
  unfolding select sort
  list_session_attachments w =
      if not (valid_uuid session_id) || not (valid_session_name session_name)
      then err
      else if ltb max_registry_entries (length w.workspaces)
      then err
      else bind (select w.workspaces []) (λ selected. ok (sort selected))
