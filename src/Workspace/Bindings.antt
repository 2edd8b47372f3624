-- ===== src/Workspace/Bindings.antt =====
-- The registry of volumes and the rules of a write to it: internal/workspacex/store.go. Of an
-- export journal (internal/workspacex/export_journal.go) the fields stand here that the rules
-- read; how it is loaded is the argument `exports`.
pub mod Load
pub mod Changes
pub mod Evolve
pub mod History
pub mod Step
pub mod Overlap
use boxwarden.Prelude.{
  Bool, Bytes, Option, Outcome, [], bind, codes, eqb, err, false, guard, if◌then◌else◌, is_some,
  none, not, ok, same, some, true, ◌&&◌, ◌++◌, ◌==◌, ◌||◌, ◌∷◌,
}
use boxwarden.Ident.{parse_domain, valid_uuid}
use boxwarden.Json.{Json}
use boxwarden.Workspace.Decode.{decode_record}
use boxwarden.Workspace.Decode.Marshal.{marshal_record}
use boxwarden.Workspace.Types.{
  Attachment, Attachment-discrete, Disk-discrete, DiskIdentity, Pending, Pending-discrete,
  Use-discrete, WorkspaceRecord, WorkspaceRecord-discrete, export_snapshot, is_available,
  is_creating, is_failed, validate_record,
}
use boxwarden.World.{
  Dir, M, Registry, World, asks, find_file, has_prefix, json_name, key_of, lift, replace_file,
  ◌>>=◌, ◌>>◌,
}

pub data Phase : Type 0 where
  copying : Phase
  aborted : Phase
  snapshot_ready : Phase
  inspected : Phase
  published : Phase

pub record ExportSnapshot : Type 0 where
  pub identity : DiskIdentity
  pub sha256 : Bytes

pub record ExportJournal : Type 0 where
  pub volume_id : Bytes
  pub session_id : Bytes
  pub session_name : Bytes
  pub source : DiskIdentity
  pub phase : Phase
  pub snapshot : Option ExportSnapshot

pub data Mutation : Type 0 where
  generic : Mutation
  attach : Mutation
  detach : Mutation
  reserve_use : Mutation
  release_use : Mutation
  promote_verified : Mutation
  begin_export_snapshot : Mutation
  finish_export_snapshot : Mutation
  abort_export_snapshot : Mutation

abbrev pub is_promote : Mutation → Bool
is_promote Mutation.promote_verified = true
is_promote _ = false

abbrev pub ends_export : Mutation → Bool
ends_export Mutation.finish_export_snapshot = true
ends_export Mutation.abort_export_snapshot = true
ends_export _ = false

abbrev pub is_generic : Mutation → Bool
is_generic Mutation.generic = true
is_generic _ = false

abbrev pub is_snapshot_ready : Phase → Bool
is_snapshot_ready Phase.snapshot_ready = true
is_snapshot_ready _ = false

abbrev pub is_aborted : Phase → Bool
is_aborted Phase.aborted = true
is_aborted _ = false

-- The tests that stand in front of the switch on the mutation.
unfoldable pub keeps_identity : Mutation → WorkspaceRecord → WorkspaceRecord → Bool
keeps_identity mutation old next =
    not (is_creating old.state && is_available next.state && not (is_promote mutation))
    && not (
        is_failed old.state && not (is_failed next.state)
        || is_available old.state && is_creating next.state)
    && (old.size_bytes == next.size_bytes
        && eqb old.format next.format
        && eqb old.filesystem_uuid next.filesystem_uuid)
    && not (is_some old.disk && not (same Disk-discrete old.disk next.disk))
    && not (
        is_some old.pending
        && not (same Pending-discrete old.pending next.pending)
        && not (ends_export mutation))

abbrev pub has_kind : Option Pending → Bytes → Bool
has_kind none kind = false
has_kind (some p) kind = eqb p.kind kind

abbrev pub has_id : Option Pending → Bytes → Bool
has_id none id = false
has_id (some p) id = eqb p.id id

-- The journal is one of this volume's disk and attachment. Records that await a snapshot have both.
abbrev pub journal_binds :
    ExportJournal → WorkspaceRecord → Option DiskIdentity → Option Attachment → Bool
journal_binds j old (some d) (some a) =
    eqb j.volume_id old.volume_id
    && same Disk-discrete (some j.source) (some d)
    && eqb j.session_id a.session_id
    && eqb j.session_name a.session_name
journal_binds j old _ _ = false

-- Only the pending marker of the right snapshot is cleared.
abbrev pub clears_snapshot : Bytes → WorkspaceRecord → WorkspaceRecord → Bool
clears_snapshot expected_id old next =
    has_kind old.pending export_snapshot
    && has_id old.pending expected_id
    && not (is_some next.pending)
    && same WorkspaceRecord-discrete (record old { pending = none }) next

abbrev pub with_journal : Outcome ExportJournal → (ExportJournal → Bool) → Bool
with_journal (ok j) test = test j
with_journal err test = false

-- The switch on the mutation.
unfoldable pub mutation_ok :
    (Bytes → Outcome ExportJournal) → Bytes → Mutation → WorkspaceRecord → WorkspaceRecord → Bool
mutation_ok exports expected_id Mutation.promote_verified old next =
    is_creating old.state
    && is_available next.state
    && not (is_some old.disk)
    && is_some next.disk
    && not (is_some old.pending)
    && not (is_some next.pending)
    && not (is_some old.attachment)
    && not (is_some next.attachment)
    && not (is_some old.in_use)
    && not (is_some next.in_use)
mutation_ok exports expected_id Mutation.generic old next =
    same Attachment-discrete old.attachment next.attachment
    && same Use-discrete old.in_use next.in_use
    && not (not (is_some old.pending) && has_kind next.pending export_snapshot)
mutation_ok exports expected_id Mutation.begin_export_snapshot old next =
    is_available old.state
    && is_some old.attachment
    && not (is_some old.in_use)
    && not (is_some old.pending)
    && has_kind next.pending export_snapshot
    && same WorkspaceRecord-discrete (record old { pending = next.pending }) next
mutation_ok exports expected_id Mutation.finish_export_snapshot old next =
    clears_snapshot expected_id old next
    && with_journal (exports expected_id) (λ j.
      is_snapshot_ready j.phase
      && is_some j.snapshot
      && journal_binds j old old.disk old.attachment)
mutation_ok exports expected_id Mutation.abort_export_snapshot old next =
    clears_snapshot expected_id old next
    && with_journal (exports expected_id) (λ j.
      is_aborted j.phase && not (is_some j.snapshot) && journal_binds j old old.disk old.attachment)
mutation_ok exports expected_id Mutation.attach old next =
    not (is_some old.attachment)
    && is_some next.attachment
    && not (is_some old.in_use)
    && not (is_some next.in_use)
mutation_ok exports expected_id Mutation.detach old next =
    is_some old.attachment
    && not (is_some next.attachment)
    && not (is_some old.in_use)
    && not (is_some next.in_use)
mutation_ok exports expected_id Mutation.reserve_use old next =
    not (is_some old.in_use)
    && is_some next.in_use
    && is_some old.attachment
    && same Attachment-discrete old.attachment next.attachment
mutation_ok exports expected_id Mutation.release_use old next =
    is_some old.in_use
    && not (is_some next.in_use)
    && same Attachment-discrete old.attachment next.attachment

unfoldable pub mounts_overlap : Bytes → Bytes → Bool
unfolding has_prefix
mounts_overlap a b = eqb a b || has_prefix a (b ++ codes "/") || has_prefix b (a ++ codes "/")

-- Two volumes of one session on overlapping mounts.
unfoldable pub collides : Option Attachment → Option Attachment → Bool
collides (some a) (some b) =
    eqb a.session_id b.session_id && mounts_overlap a.mount_path b.mount_path
collides _ _ = false

-- loadFromRoot, from the file's contents on.
unfoldable pub load_volume : Bytes → Bytes → Json → Outcome WorkspaceRecord
load_volume expected_domain key doc =
    bind (decode_record expected_domain doc) (λ r. if not (eqb r.volume_id key) then err else ok r)

unfoldable pub load_from : Bytes → Bytes → Option Json → Outcome WorkspaceRecord
unfolding load_volume
load_from expected_domain key none = err
load_from expected_domain key (some doc) = load_volume expected_domain key doc

unfoldable pub load_record : Bytes → Bytes → World → Outcome WorkspaceRecord
unfolding load_from
load_record expected_domain volume_id w =
    if not (valid_uuid volume_id)
    then err
    else bind (parse_domain expected_domain)
        (λ _. load_from expected_domain volume_id (find_file (json_name volume_id) w.workspaces))

module _ (exports : Bytes → Outcome ExportJournal) (expected_domain : Bytes)
    (next : WorkspaceRecord) (mutation : Mutation) (expected_id : Bytes) where
  -- Whether an existing record is the one that is written; an error where it forbids the write.
  unfoldable pub check_existing : WorkspaceRecord → Outcome Bool
  check_existing old =
      if eqb old.volume_id next.volume_id
      then bind
          (guard
            (keeps_identity mutation old next && mutation_ok exports expected_id mutation old next))
          (λ _. ok true)
      else if collides old.attachment next.attachment
      then err
      else ok false

  unfoldable pub check_key : Option Bytes → Json → Outcome Bool
  unfolding load_volume check_existing
  check_key none doc = ok false
  check_key (some key) doc =
      if not (valid_uuid key)
      then err
      else bind (load_volume expected_domain key doc) check_existing

  -- The loop over the directory; the result says whether the volume was found.
  unfoldable pub check_entries : Dir → Outcome Bool
  unfolding check_key
  check_entries [] = ok false
  check_entries ((name, doc) ∷ rest) =
      bind (check_key (key_of name) doc)
        (λ hit. bind (check_entries rest) (λ found. ok (hit || found)))

  unfoldable pub check_bindings : Dir → Outcome (Unit {0})
  unfolding check_entries
  check_bindings dir = bind (check_entries dir) (λ found. guard (
      found
      || is_generic mutation
        && is_creating next.state
        && not (is_some next.attachment)
        && not (is_some next.in_use)
        && not (is_some next.disk)))

  unfoldable pub save_record_transition : (Bytes → Bytes) → M (Unit {0})
  unfolding check_bindings
  save_record_transition coerce = do
    lift (validate_record expected_domain next)
    asks (λ w. check_bindings w.workspaces)
    replace_file Registry.workspaces (json_name next.volume_id) (marshal_record coerce next)
