-- ===== src/Workspace/Bindings/Changes.antt =====
-- What each kind of mutation may change of a volume's record.
-- What one mutation does to attachment, use and pending marker.
use boxwarden.Prelude.{
  Bool, Bytes, Option, Outcome, Outcome-cases, arith, eqb_iff, inl, inr, is_some, none, not, ok,
  refl, same-eq, some, sym, true, ◌&&◌, ◌∙◌, ◌≡◌, ◌≢◌,
}
use boxwarden.Workspace.Bindings.{
  ExportJournal, ExportSnapshot, Mutation, Phase, clears_snapshot, has_id, has_kind, is_aborted,
  is_snapshot_ready, journal_binds, mutation_ok, with_journal,
}
use boxwarden.Workspace.Types.{
  Attachment, Attachment-discrete, Disk-discrete, DiskIdentity, Pending, State, Use-discrete,
  WorkspaceRecord, WorkspaceRecord-discrete, export_snapshot,
}

-- A pending marker of some kind and id.
pub record Marker (o : Option Pending) (kind : Bytes) : Type 0 where
  pub marker : Pending
  pub marker_is : o ≡ some marker
  pub kind_is : marker.kind ≡ kind

-- The journal is one of the volume, of its disk and of the session that it is attached to.
pub record OfVolume (j : ExportJournal) (old : WorkspaceRecord) : Type 0 where
  pub volume_is : j.volume_id ≡ old.volume_id
  pub source_is : some j.source ≡ old.disk
  pub attached : Attachment
  pub attached_is : old.attachment ≡ some attached
  pub session_is : j.session_id ≡ attached.session_id
  pub name_is : j.session_name ≡ attached.session_name

-- Exactly the marker of the expected export snapshot is gone, and nothing else has changed.
pub record EndsSnapshot (id : Bytes) (old next : WorkspaceRecord) : Type 0 where
  pub marker : Pending
  pub marker_is : old.pending ≡ some marker
  pub kind_is : marker.kind ≡ export_snapshot
  pub id_is : marker.id ≡ id
  pub only_pending : next ≡ record old { pending = none }

abbrev pub Changes :
    (Bytes → Outcome ExportJournal) → Bytes → Mutation → WorkspaceRecord → WorkspaceRecord → Type 0
Changes exports id Mutation.generic old next =
    (next.attachment ≡ old.attachment)
    × (next.in_use ≡ old.in_use)
    × (old.pending ≡ none → (p : Pending) → next.pending ≡ some p → p.kind ≢ export_snapshot)
Changes exports id Mutation.attach old next =
    (old.attachment ≡ none) × (next.attachment ≢ none) × (old.in_use ≡ none) × (next.in_use ≡ none)
Changes exports id Mutation.detach old next =
    (old.attachment ≢ none) × (next.attachment ≡ none) × (old.in_use ≡ none) × (next.in_use ≡ none)
Changes exports id Mutation.reserve_use old next =
    (old.in_use ≡ none)
    × (next.in_use ≢ none)
    × (old.attachment ≢ none)
    × (next.attachment ≡ old.attachment)
Changes exports id Mutation.release_use old next =
    (old.in_use ≢ none) × (next.in_use ≡ none) × (next.attachment ≡ old.attachment)
Changes exports id Mutation.promote_verified old next =
    (old.state ≡ State.creating)
    × (next.state ≡ State.available)
    × (old.disk ≡ none)
    × (next.disk ≢ none)
    × (old.pending ≡ none)
    × (next.pending ≡ none)
    × (old.attachment ≡ none)
    × (next.attachment ≡ none)
    × (old.in_use ≡ none)
    × (next.in_use ≡ none)
Changes exports id Mutation.begin_export_snapshot old next =
    (old.state ≡ State.available)
    × (old.pending ≡ none)
    × (old.in_use ≡ none)
    × (old.attachment ≢ none)
    × Marker next.pending export_snapshot
    × (next ≡ record old { pending = next.pending })
Changes exports id Mutation.finish_export_snapshot old next =
    EndsSnapshot id old next
    × ((j : ExportJournal) × (exports id ≡ ok j)
        × (j.phase ≡ Phase.snapshot_ready)
        × (j.snapshot ≢ none)
        × OfVolume j old)
Changes exports id Mutation.abort_export_snapshot old next =
    EndsSnapshot id old next
    × ((j : ExportJournal) × (exports id ≡ ok j)
        × (j.phase ≡ Phase.aborted)
        × (j.snapshot ≡ none)
        × OfVolume j old)

is_some-ne : {A : Type 0} (o : Option A) → is_some o ≡ true → o ≢ none
is_some-ne none h = cc
is_some-ne (some a) h = λ e. cc

not_some-eq : {A : Type 0} (o : Option A) → not (is_some o) ≡ true → o ≡ none
not_some-eq none h = refl
not_some-eq (some a) h = cc

has_kind-Marker : (o : Option Pending) (kind : Bytes) → has_kind o kind ≡ true → Marker o kind
has_kind-Marker none kind h = cc
has_kind-Marker (some p) kind h = record {
  marker = p;
  marker_is = refl;
  kind_is = (eqb_iff p.kind kind).0 h;
}

no_kind :
    (o : Option Pending) (kind : Bytes)
    → not (has_kind o kind) ≡ true
    → (p : Pending) → o ≡ some p
    → p.kind ≢ kind
no_kind o kind h p e same_kind =
    let there : has_kind o kind ≡ true = rw e ((eqb_iff p.kind kind).1 same_kind) in cc

journal_binds-OfVolume :
    (j : ExportJournal) (old : WorkspaceRecord) (d : Option DiskIdentity) (a : Option Attachment)
    → old.disk ≡ d
    → old.attachment ≡ a
    → journal_binds j old d a ≡ true
    → OfVolume j old
journal_binds-OfVolume j old none a disk_is attached_is h = cc
journal_binds-OfVolume j old (some d) none disk_is attached_is h = cc
journal_binds-OfVolume j old (some d) (some a) disk_is attached_is h = record {
  volume_is = (eqb_iff j.volume_id old.volume_id).0 (ground arith);
  source_is = same-eq Disk-discrete (some j.source) (some d) (ground arith) ∙ sym disk_is;
  attached = a;
  attached_is = attached_is;
  session_is = (eqb_iff j.session_id a.session_id).0 (ground arith);
  name_is = (eqb_iff j.session_name a.session_name).0 (ground arith);
}

journal_facts :
    (exports : Bytes → Outcome ExportJournal) (id : Bytes) (old : WorkspaceRecord)
    (phase_ok : Phase → Bool) (snap_ok : Option ExportSnapshot → Bool)
    → with_journal
        (exports id)
        (λ j. phase_ok j.phase && snap_ok j.snapshot && journal_binds j old old.disk old.attachment)
      ≡ true
    → (j : ExportJournal) × (exports id ≡ ok j)
      × (phase_ok j.phase ≡ true)
      × (snap_ok j.snapshot ≡ true)
      × OfVolume j old
journal_facts exports id old phase_ok snap_ok h = elim (Outcome-cases (exports id)) [
  | inl missing ↦ cc (rw missing at h)
  | inr (j, e) ↦
      let tests = rw e at h in
      (
        j,
        e,
        ground arith,
        ground arith,
        journal_binds-OfVolume j old old.disk old.attachment refl refl (ground arith),
      )
]

cleared :
    (id : Bytes) (old next : WorkspaceRecord)
    → clears_snapshot id old next ≡ true
    → EndsSnapshot id old next
cleared id old next h =
    let (p, p_is, kind, id_is) = marked old.pending (ground arith) (ground arith) in
    record {
      marker = p;
      marker_is = p_is;
      kind_is = kind;
      id_is = id_is;
      only_pending =
          sym
            (same-eq WorkspaceRecord-discrete (record old { pending = none }) next (ground arith));
    }
  where
    marked :
        (o : Option Pending)
        → has_kind o export_snapshot ≡ true
        → has_id o id ≡ true
        → (p : Pending) × (o ≡ some p) × (p.kind ≡ export_snapshot) × (p.id ≡ id)
    marked none k h = cc
    marked (some p) k h = (p, refl, (eqb_iff p.kind export_snapshot).0 k, (eqb_iff p.id id).0 h)

is_snapshot_ready-eq : (p : Phase) → is_snapshot_ready p ≡ true → p ≡ Phase.snapshot_ready
is_snapshot_ready-eq Phase.snapshot_ready h = refl
is_snapshot_ready-eq _ h = cc

is_aborted-eq : (p : Phase) → is_aborted p ≡ true → p ≡ Phase.aborted
is_aborted-eq Phase.aborted h = refl
is_aborted-eq _ h = cc

unless_marked :
    (o : Option Pending) (marks : Bool)
    → o ≡ none
    → not (not (is_some o) && marks) ≡ true
    → not marks ≡ true
unless_marked none marks e h = h
unless_marked (some p) marks e h = cc

pub mutation_ok-Changes :
    (exports : Bytes → Outcome ExportJournal) (id : Bytes) (m : Mutation)
    (old next : WorkspaceRecord)
    → mutation_ok exports id m old next ≡ true
    → Changes exports id m old next
unfolding mutation_ok
mutation_ok-Changes exports id Mutation.generic old next h = (
  sym (same-eq Attachment-discrete old.attachment next.attachment (ground arith)),
  sym (same-eq Use-discrete old.in_use next.in_use (ground arith)),
  λ free. no_kind next.pending export_snapshot (unless_marked old.pending _ free (ground arith)),
)
mutation_ok-Changes exports id Mutation.attach old next h = (
  not_some-eq old.attachment (ground arith),
  is_some-ne next.attachment (ground arith),
  not_some-eq old.in_use (ground arith),
  not_some-eq next.in_use (ground arith),
)
mutation_ok-Changes exports id Mutation.detach old next h = (
  is_some-ne old.attachment (ground arith),
  not_some-eq next.attachment (ground arith),
  not_some-eq old.in_use (ground arith),
  not_some-eq next.in_use (ground arith),
)
mutation_ok-Changes exports id Mutation.reserve_use old next h = (
  not_some-eq old.in_use (ground arith),
  is_some-ne next.in_use (ground arith),
  is_some-ne old.attachment (ground arith),
  sym (same-eq Attachment-discrete old.attachment next.attachment (ground arith)),
)
mutation_ok-Changes exports id Mutation.release_use old next h = (
  is_some-ne old.in_use (ground arith),
  not_some-eq next.in_use (ground arith),
  sym (same-eq Attachment-discrete old.attachment next.attachment (ground arith)),
)
mutation_ok-Changes exports id Mutation.promote_verified old next h = ground arith
mutation_ok-Changes exports id Mutation.begin_export_snapshot old next h = (
  ground arith,
  not_some-eq old.pending (ground arith),
  not_some-eq old.in_use (ground arith),
  is_some-ne old.attachment (ground arith),
  has_kind-Marker next.pending export_snapshot (ground arith),
  sym (
      same-eq WorkspaceRecord-discrete (record old { pending = next.pending }) next (ground arith)),
)
mutation_ok-Changes exports id Mutation.finish_export_snapshot old next h =
    let (j, e, p, s, v) = journal_facts exports id old is_snapshot_ready is_some (ground arith) in
    (
      cleared id old next (ground arith),
      (j, e, is_snapshot_ready-eq j.phase p, is_some-ne j.snapshot s, v),
    )
mutation_ok-Changes exports id Mutation.abort_export_snapshot old next h =
    let (j, e, p, s, v) =
      journal_facts exports id old is_aborted (λ o. not (is_some o)) (ground arith) in
    (
      cleared id old next (ground arith),
      (j, e, is_aborted-eq j.phase p, not_some-eq j.snapshot s, v),
    )
