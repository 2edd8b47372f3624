-- ===== src/Workspace/Bindings/Evolve.antt =====
-- How a volume's record may evolve: what stays for ever, and what each mutation may change.
use boxwarden.Prelude.{
  Bool, Bool-cases, Bytes, Option, Outcome, arith, eqb_iff, inl, inr, is_some, none, not, ok, refl,
  same, same-eq, some, sym, true, ◌&&◌, ◌||◌, ◌≡◌, ◌≢◌, ◌⊎◌,
}
use boxwarden.Workspace.Bindings.{
  ExportJournal, Mutation, check_existing, ends_export, is_promote, keeps_identity, mutation_ok,
}
use boxwarden.Workspace.Bindings.Changes.{Changes, mutation_ok-Changes}
use boxwarden.Workspace.Types.{
  Disk-discrete, Pending, Pending-discrete, State, WorkspaceRecord, is_available, is_creating,
  is_failed, validate_record,
}
use boxwarden.Workspace.Valid.{validate_record_iff}

-- The states that may follow a state.
pub data Follows : State → State → Type 0 where
  same_state : {s : State} → Follows s s
  promoted : Follows State.creating State.available
  broke : {s : State} → Follows s State.failed

-- The mutations that may replace a pending marker.
pub data EndsExport : Mutation → Type 0 where
  by_finish : EndsExport Mutation.finish_export_snapshot
  by_abort : EndsExport Mutation.abort_export_snapshot

pub record Evolves (exports : Bytes → Outcome ExportJournal) (id : Bytes) (m : Mutation)
    (old next : WorkspaceRecord) : Type 0 where
  pub size_kept : next.size_bytes ≡ old.size_bytes
  pub format_kept : next.format ≡ old.format
  pub filesystem_kept : next.filesystem_uuid ≡ old.filesystem_uuid
  pub disk_kept : (old.disk ≡ none) ⊎ (next.disk ≡ old.disk)
  pub state_follows : Follows old.state next.state
  pub promoted_only :
      old.state ≡ State.creating → next.state ≡ State.available → m ≡ Mutation.promote_verified
  pub pending_kept : (old.pending ≡ none) ⊎ (next.pending ≡ old.pending) ⊎ EndsExport m
  pub changes : Changes exports id m old next

-- No way back from failed, none from available to creating; creating becomes available by
-- promotion.
state-Follows :
    (m : Mutation) (s t : State)
    → not (is_creating s && is_available t && not (is_promote m)) ≡ true
    → not (is_failed s && not (is_failed t) || is_available s && is_creating t) ≡ true
    → (known_s : (b : Bytes) → s ≢ State.other b) → (known_t : (b : Bytes) → t ≢ State.other b)
    → Follows s t
state-Follows m State.creating State.creating h k a b = same_state
state-Follows m State.creating State.available h k a b = promoted
state-Follows m State.available State.available h k a b = same_state
state-Follows m State.failed State.failed h k a b = same_state
state-Follows m State.available State.creating h k a b = cc
state-Follows m State.failed State.creating h k a b = cc
state-Follows m State.failed State.available h k a b = cc
state-Follows m (State.other x) _ h k a b = absurd (a x refl)
state-Follows m _ (State.other x) h k a b = absurd (b x refl)
state-Follows m _ State.failed h k a b = broke

some-same :
    {A : Type 0} (dec : Discrete (Option A)) (a b : Option A)
    → not (is_some a && not (same dec a b)) ≡ true
    → (a ≡ none) ⊎ (b ≡ a)
some-same dec none b h = inl refl
some-same dec (some a) b h = inr (sym (same-eq dec (some a) b (ground arith)))

promoting :
    (m : Mutation) (s t : State)
    → not (is_creating s && is_available t && not (is_promote m)) ≡ true
    → s ≡ State.creating
    → t ≡ State.available
    → m ≡ Mutation.promote_verified
promoting m s t h a b = ground arith

known_state :
    (d : Bytes) (r : WorkspaceRecord)
    → validate_record d r ≡ ok tt
    → (b : Bytes) → r.state ≢ State.other b
known_state d r h b e = elim (rw e at ((validate_record_iff d r).0 h).state_case) [ ]

ends_export-EndsExport : (m : Mutation) → ends_export m ≡ true → EndsExport m
ends_export-EndsExport Mutation.finish_export_snapshot h = by_finish
ends_export-EndsExport Mutation.abort_export_snapshot h = by_abort
ends_export-EndsExport _ h = cc

pending_same :
    (m : Mutation) (a b : Option Pending)
    → not (is_some a && not (same Pending-discrete a b) && not (ends_export m)) ≡ true
    → (a ≡ none) ⊎ (b ≡ a) ⊎ EndsExport m
pending_same m none b h = inl refl
pending_same m (some a) b h = elim (Bool-cases (ends_export m)) [
  | inl e ↦ inr (inr (ends_export-EndsExport m e))
  | inr e ↦ inr (inl (sym (same-eq Pending-discrete (some a) b (ground arith))))
]

check_existing_tests :
    (exports : Bytes → Outcome ExportJournal) (d id : Bytes) (m : Mutation)
    (old next : WorkspaceRecord)
    → old.volume_id ≡ next.volume_id
    → {hit : Bool} → check_existing exports d next m id old ≡ ok hit
    → (keeps_identity m old next ≡ true) × (mutation_ok exports id m old next ≡ true) × (hit ≡ true)
unfolding check_existing
check_existing_tests exports d id m old next e h =
    ground (arith, eqb_iff old.volume_id next.volume_id)

module _ (m : Mutation) (old next : WorkspaceRecord) (k : keeps_identity m old next ≡ true) where
  identity_kept :
      (next.size_bytes ≡ old.size_bytes)
      × (next.format ≡ old.format)
      × (next.filesystem_uuid ≡ old.filesystem_uuid)
  unfolding keeps_identity
  identity_kept =
      ground
        (arith, eqb_iff old.format next.format, eqb_iff old.filesystem_uuid next.filesystem_uuid)

  parts_kept :
      (not (is_some old.disk && not (same Disk-discrete old.disk next.disk)) ≡ true)
      × (not (
            is_some old.pending
            && not (same Pending-discrete old.pending next.pending)
            && not (ends_export m))
          ≡ true)
  unfolding keeps_identity
  parts_kept = ground arith

  order_kept :
      (not (is_creating old.state && is_available next.state && not (is_promote m)) ≡ true)
      × (not (
            is_failed old.state && not (is_failed next.state)
            || is_available old.state && is_creating next.state)
          ≡ true)
  unfolding keeps_identity
  order_kept = ground arith

-- A write that the rules admit over an existing record evolves it.
pub check_existing-Evolves :
    (exports : Bytes → Outcome ExportJournal) (d id : Bytes) (m : Mutation)
    (old next : WorkspaceRecord)
    → validate_record d old ≡ ok tt
    → validate_record d next ≡ ok tt
    → old.volume_id ≡ next.volume_id
    → {hit : Bool} → check_existing exports d next m id old ≡ ok hit
    → Evolves exports id m old next
check_existing-Evolves exports d id m old next ho hn ev h =
    let (k, c, _) = check_existing_tests exports d id m old next ev h in
    let (size, format, filesystem) = identity_kept m old next k in
    let (disk, pending) = parts_kept m old next k in
    let (promotion, regression) = order_kept m old next k in
    record {
      size_kept = size;
      format_kept = format;
      filesystem_kept = filesystem;
      disk_kept = some-same Disk-discrete old.disk next.disk disk;
      state_follows =
          state-Follows m old.state next.state promotion regression (known_state d old ho)
            (known_state d next hn);
      promoted_only = promoting m old.state next.state promotion;
      pending_kept = pending_same m old.pending next.pending pending;
      changes = mutation_ok-Changes exports id m old next c;
    }
