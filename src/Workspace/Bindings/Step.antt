-- ===== src/Workspace/Bindings/Step.antt =====
-- What loads behind a write to the registry, whatever became of it.
use boxwarden.Prelude.{
  Bool-cases, Bytes, Outcome, ap, eqb, eqb_iff, eqb_refl, inl, inr, ok, refl, subst, sym, ◌∙◌, ◌≡◌,
  ◌≢◌, ◌⊎◌,
}
use boxwarden.Workspace.Bindings.{
  ExportJournal, Mutation, load_from, load_record, load_volume, save_record_transition,
}
use boxwarden.Workspace.Bindings.Evolve.{Evolves, check_existing-Evolves}
use boxwarden.Workspace.Bindings.History.{check_bindings-at, load_record-Loaded}
use boxwarden.Workspace.Bindings.Load.{save-Effect}
use boxwarden.Workspace.Decode.Marshal.{IsText, marshal_record}
use boxwarden.Workspace.Decode.RoundTrip.{decode-marshal_record}
use boxwarden.Workspace.Types.{WorkspaceRecord, validate_record}
use boxwarden.Workspace.Valid.{IsWorkspace, validate_record_iff}
use boxwarden.World.{World, json_name, put_file}
use boxwarden.World.Files.{find_file-put_file, json_name-apart}

load_volume-back :
    (coerce : Bytes → Bytes) (d : Bytes) (r : WorkspaceRecord)
    → IsText coerce r
    → validate_record d r ≡ ok tt
    → load_volume d r.volume_id (marshal_record coerce r) ≡ ok r
unfolding load_volume
load_volume-back coerce d r t h =
    rw (decode-marshal_record coerce d r t h) (rw (eqb_refl r.volume_id) refl)

module _ (coerce : Bytes → Bytes) (d : Bytes) (next : WorkspaceRecord) (w w' : World)
    (e : w'.workspaces
      ≡ put_file (json_name next.volume_id) (marshal_record coerce next) w.workspaces) where
  pub load-elsewhere : (v : Bytes) → next.volume_id ≢ v → load_record d v w' ≡ load_record d v w
  unfolding load_record
  load-elsewhere v ne =
      rw
        (
          e,
          find_file-put_file (json_name next.volume_id) (json_name v) (marshal_record coerce next)
              w.workspaces,
          json_name-apart next.volume_id v ne,
        )
        refl

  pub load-written :
      IsText coerce next
      → validate_record d next ≡ ok tt
      → load_record d next.volume_id w' ≡ ok next
  unfolding load_record load_from
  load-written t h =
      let v = (validate_record_iff d next).0 h in
      rw
        (
          v.volume,
          v.domain_parses,
          e,
          find_file-put_file (json_name next.volume_id) (json_name next.volume_id)
              (marshal_record coerce next) w.workspaces,
          eqb_refl (json_name next.volume_id),
        )
        (load_volume-back coerce d next t h)

pub load_record-same :
    (d v : Bytes) (w w' : World)
    → w'.workspaces ≡ w.workspaces
    → load_record d v w' ≡ load_record d v w
unfolding load_record
load_record-same d v w w' e = rw e refl

module _ (exports : Bytes → Outcome ExportJournal) (d : Bytes) (next : WorkspaceRecord)
    (m : Mutation) (id : Bytes) (coerce : Bytes → Bytes) (w : World) where
  abbrev after_world : World
  after_world = (save_record_transition exports d next m id coerce w).1

  -- A write is a legal step of every volume, whatever became of it: a volume that loads, loads as
  -- before or, if it is the written one, loads the new record, which its old one may evolve to. The
  -- texts of the written record are UTF-8, and its numbers fit their Go types.
  pub save_record_transition-steps :
      IsText coerce next
      → (v : Bytes) (old : WorkspaceRecord) → load_record d v w ≡ ok old
      → let after = load_record d v after_world in
        (after ≡ ok old)
        ⊎ ((v ≡ next.volume_id) × (after ≡ ok next) × Evolves exports id m old next)
  unfolding load_record
  save_record_transition-steps t v old h =
      let f = save-Effect exports d next m id coerce w in
      elim f.workspaces_are [
        | inl (_, kept) ↦ inl (rw kept h)
        | inr (e, valid, admitted) ↦ elim (Bool-cases (eqb next.volume_id v)) [
          | inl here ↦
              let v_is = (eqb_iff next.volume_id v).0 here in
              let l = load_record-Loaded d v w old h in
              let (hit, checked) = check_bindings-at exports d id m next old v w admitted l in
              inr (
                sym v_is,
                subst
                    (λ x.
                      load_record d x (save_record_transition exports d next m id coerce w).1
                      ≡ ok next)
                    v_is (load-written coerce d next w after_world e t valid),
                check_existing-Evolves exports d id m old next l.is_valid valid
                    (l.volume_is ∙ sym v_is) checked,
              )
          | inr apart ↦ inl (
              load-elsewhere coerce d next w after_world e v
                (λ same_id. cc (apart, (eqb_iff next.volume_id v).1 same_id))
              ∙ h)
        ]
      ]

  -- A write that succeeds is read back, and it was valid, if its texts are UTF-8 and its numbers fit
  -- their Go types.
  pub load_record-save_record_transition :
      IsText coerce next
      → (save_record_transition exports d next m id coerce w).0 ≡ ok tt
      → (load_record d next.volume_id after_world ≡ ok next) × IsWorkspace d next
  load_record-save_record_transition t done =
      let f = save-Effect exports d next m id coerce w in
      elim f.workspaces_are [
        | inl (failed, _) ↦ cc
        | inr (e, valid, _) ↦ (
          load-written coerce d next w after_world e t valid,
          (validate_record_iff d next).0 valid,
        )
      ]

  -- What any volume loads behind a write.
  pub save-loads :
      IsText coerce next
      → (v : Bytes)
      → (load_record d v after_world ≡ load_record d v w)
        ⊎ ((v ≡ next.volume_id) × (load_record d v after_world ≡ ok next))
  save-loads t v = elim (save-Effect exports d next m id coerce w).workspaces_are [
    | inl (_, kept) ↦ inl (load_record-same d v w after_world kept)
    | inr (e, valid, _) ↦ elim (Bool-cases (eqb next.volume_id v)) [
      | inl here ↦
          let v_is = sym ((eqb_iff next.volume_id v).0 here) in
          inr (
            v_is,
            ap (λ x. load_record d x after_world) v_is
                ∙ load-written coerce d next w after_world e t valid,
          )
      | inr elsewhere ↦
          let apart : next.volume_id ≢ v = λ x. cc (elsewhere, (eqb_iff next.volume_id v).1 x) in
          inl (load-elsewhere coerce d next w after_world e v apart)
    ]
  ]
