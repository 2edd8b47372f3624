-- ===== src/Workspace/Bindings/Overlap.antt =====
-- The mounts of one session never overlap, whatever is written to the registry.
use boxwarden.Prelude.{
  Bool, Bool-cases, Bytes, Option, Outcome, ap, arith, eqb, eqb_iff, false, inl, inr, none, ok,
  ok-injective, refl, some, sym, ◌∙◌, ◌≡◌, ◌≢◌, ◌⊎◌,
}
use boxwarden.Workspace.Attached.Selected.{eqb_sym, mounts_overlap_sym}
use boxwarden.Workspace.Bindings.{
  ExportJournal, Mutation, check_bindings, check_existing, collides, load_record,
  save_record_transition,
}
use boxwarden.Workspace.Bindings.History.{check_bindings-at, load_record-Loaded}
use boxwarden.Workspace.Bindings.Load.{save-Effect}
use boxwarden.Workspace.Bindings.Step.{load-elsewhere, load-written, load_record-same}
use boxwarden.Workspace.Decode.Marshal.{IsText, marshal_record}
use boxwarden.Workspace.Types.{Attachment, WorkspaceRecord, validate_record}
use boxwarden.World.{World, json_name, put_file}

-- Two volumes that load are never on overlapping mounts of one session.
abbrev pub Disjoint : Bytes → World → Type 0
Disjoint d w =
    (u v : Bytes) (r q : WorkspaceRecord)
    → load_record d u w ≡ ok r
    → load_record d v w ≡ ok q
    → (u ≡ v) ⊎ (collides r.attachment q.attachment ≡ false)

pub collides_sym : (a b : Option Attachment) → collides a b ≡ collides b a
unfolding collides
collides_sym none none = refl
collides_sym none (some b) = refl
collides_sym (some a) none = refl
collides_sym (some a) (some b) =
    ground (arith, eqb_sym a.session_id b.session_id, mounts_overlap_sym a.mount_path b.mount_path)

-- Another volume that passes the rules is on no mount that overlaps the written one's.
check_existing-apart :
    (exports : Bytes → Outcome ExportJournal) (d id : Bytes) (m : Mutation)
    (old next : WorkspaceRecord)
    → old.volume_id ≢ next.volume_id
    → {hit : Bool} → check_existing exports d next m id old ≡ ok hit
    → collides old.attachment next.attachment ≡ false
unfolding check_existing
check_existing-apart exports d id m old next ne h =
    ground (arith, eqb_iff old.volume_id next.volume_id)

module _ (exports : Bytes → Outcome ExportJournal) (d : Bytes) (next : WorkspaceRecord)
    (m : Mutation) (id : Bytes) (coerce : Bytes → Bytes) (w : World) where
  abbrev after : World
  after = (save_record_transition exports d next m id coerce w).1

  -- The written volume against another one.
  written-apart :
      (v : Bytes) (q : WorkspaceRecord)
      → check_bindings exports d next m id w.workspaces ≡ ok tt
      → next.volume_id ≢ v
      → load_record d v w ≡ ok q
      → collides q.attachment next.attachment ≡ false
  written-apart v q admitted ne l =
      let k = load_record-Loaded d v w q l in
      let (hit, checked) = check_bindings-at exports d id m next q v w admitted k in
      check_existing-apart exports d id m q next (λ e. ne (sym (sym k.volume_is ∙ e))) checked

  -- What loads behind a write is the written record, or what loaded before.
  loads_after :
      IsText coerce next
      → after.workspaces
        ≡ put_file (json_name next.volume_id) (marshal_record coerce next) w.workspaces
      → validate_record d next ≡ ok tt
      → (v : Bytes) (q : WorkspaceRecord) → load_record d v after ≡ ok q
      → ((next.volume_id ≡ v) × (q ≡ next)) ⊎ ((next.volume_id ≢ v) × (load_record d v w ≡ ok q))
  loads_after t e valid v q l = elim (Bool-cases (eqb next.volume_id v)) [
    | inl here ↦
        let v_is = (eqb_iff next.volume_id v).0 here in
        let back = load-written coerce d next w after e t valid in
        inl (v_is, ok-injective q next (sym l ∙ ap (λ x. load_record d x after) (sym v_is) ∙ back))
    | inr elsewhere ↦
        let apart : next.volume_id ≢ v = λ x. cc (elsewhere, (eqb_iff next.volume_id v).1 x) in
        inr (apart, sym (load-elsewhere coerce d next w after e v apart) ∙ l)
  ]

  -- A write to the registry keeps the mounts of every session apart, whatever became of it: if no
  -- two volumes that load are on overlapping mounts of one session, then none are behind it. The
  -- texts of the written record are UTF-8, and its numbers fit their Go types.
  pub save_record_transition-Disjoint : IsText coerce next → Disjoint d w → Disjoint d after
  save_record_transition-Disjoint t h u v r q lu lv =
      elim (save-Effect exports d next m id coerce w).workspaces_are [
        | inl (_, kept) ↦
            h u v r q (sym (load_record-same d u w after kept) ∙ lu)
              (sym (load_record-same d v w after kept) ∙ lv)
        | inr (e, valid, admitted) ↦
            behind admitted (loads_after t e valid u r lu) (loads_after t e valid v q lv)
      ]
    where
      behind :
          check_bindings exports d next m id w.workspaces ≡ ok tt
          → ((next.volume_id ≡ u) × (r ≡ next))
            ⊎ ((next.volume_id ≢ u) × (load_record d u w ≡ ok r))
          → ((next.volume_id ≡ v) × (q ≡ next))
            ⊎ ((next.volume_id ≢ v) × (load_record d v w ≡ ok q))
          → (u ≡ v) ⊎ (collides r.attachment q.attachment ≡ false)
      behind admitted (inl (x, _)) (inl (y, _)) = inl (sym x ∙ y)
      behind admitted (inr (_, lu)) (inr (_, lv)) = h u v r q lu lv
      behind admitted (inl (_, e)) (inr (ne, lv)) =
          inr (rw e (collides_sym next.attachment q.attachment ∙ written-apart v q admitted ne lv))
      behind admitted (inr (ne, lu)) (inl (_, e)) = inr (rw e (written-apart u r admitted ne lu))
