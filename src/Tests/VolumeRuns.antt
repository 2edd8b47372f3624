-- ===== src/Tests/VolumeRuns.antt =====
-- The registry of volumes.
use boxwarden.Prelude.{
  Bool-cases, Bytes, [], arith, eqb, eqb_iff, err, inl, inr, ok, refl, sym, ◌↔◌, ◌∙◌, ◌≡◌, ◌⊎◌,
}
use boxwarden.Tests.Sample.{plain, uuid_a, work}
use boxwarden.Tests.Volumes.{attached_volume, free_volume, no_exports, volume_code, volumes}
use boxwarden.Workspace.Bindings.{Mutation, load_record, save_record_transition}
use boxwarden.Workspace.Bindings.Evolve.{Evolves}
use boxwarden.Workspace.Bindings.History.{load_record-Loaded}
use boxwarden.Workspace.Bindings.Overlap.{Disjoint, save_record_transition-Disjoint}
use boxwarden.Workspace.Bindings.Step.{save_record_transition-steps}
use boxwarden.Workspace.Decode.{decode_record}
use boxwarden.Workspace.Decode.Marshal.{IsText, marshal_record}
use boxwarden.Workspace.Decode.RoundTrip.{decode-marshal_record}
use boxwarden.Workspace.Types.{WorkspaceRecord, validate_record}
use boxwarden.Workspace.Valid.{IsWorkspace, validate_record_iff}
use boxwarden.World.{World, find_file, json_name}
use boxwarden.World.Files.{json_name-injective}

attached-valid : validate_record work attached_volume ≡ ok tt
unfolding volume_code
attached-valid = refl

validate_record_iff_example :
    (validate_record work attached_volume ≡ ok tt) ↔ IsWorkspace work attached_volume
validate_record_iff_example = validate_record_iff work attached_volume

attached-IsText : IsText plain attached_volume
attached-IsText = record {
  domain_text = refl;
  volume_text = refl;
  format_text = refl;
  filesystem_text = refl;
  state_is_text = refl;
  attachment_text = (refl, refl, refl);
  use_text = tt;
  pending_text = tt;
  disk_fits = (omega arith, omega arith);
}

decode-marshal_record_example :
    decode_record work (marshal_record plain attached_volume) ≡ ok attached_volume
decode-marshal_record_example =
    decode-marshal_record plain work attached_volume attached-IsText attached-valid

free-loads : load_record work uuid_a (volumes free_volume) ≡ ok free_volume
unfolding volume_code
free-loads = refl

attaching :
    (save_record_transition no_exports work attached_volume Mutation.attach [] plain
      (volumes free_volume)).0
    ≡ ok tt
unfolding volume_code
attaching = refl

abbrev attached_world : World
attached_world =
    (save_record_transition no_exports work attached_volume Mutation.attach [] plain
      (volumes free_volume)).1

save_record_transition-steps_example :
    (load_record work uuid_a attached_world ≡ ok free_volume)
    ⊎ ((uuid_a ≡ uuid_a)
        × (load_record work uuid_a attached_world ≡ ok attached_volume)
        × Evolves no_exports [] Mutation.attach free_volume attached_volume)
save_record_transition-steps_example =
    save_record_transition-steps no_exports work attached_volume Mutation.attach [] plain
      (volumes free_volume) attached-IsText uuid_a free_volume free-loads

-- A volume that is attached is not attached again.
attaching_twice :
    (save_record_transition no_exports work attached_volume Mutation.attach [] plain
      (volumes attached_volume)).0
    ≡ err
unfolding volume_code
attaching_twice = refl

-- A registry with one volume has no two on overlapping mounts.
alone :
    (v : Bytes) (r : WorkspaceRecord) → load_record work v (volumes free_volume) ≡ ok r → uuid_a ≡ v
unfolding find_file
alone v r l =
    let k = load_record-Loaded work v (volumes free_volume) r l in
    elim (Bool-cases (eqb (json_name uuid_a) (json_name v))) [
      | inl e ↦ json_name-injective uuid_a v ((eqb_iff (json_name uuid_a) (json_name v)).0 e)
      | inr e ↦ cc (rw (find_file, e) at k.found)
    ]

alone-Disjoint : Disjoint work (volumes free_volume)
alone-Disjoint u v r q lu lv = inl (sym (alone u r lu) ∙ alone v q lv)

save_record_transition-Disjoint_example : Disjoint work attached_world
save_record_transition-Disjoint_example =
    save_record_transition-Disjoint no_exports work attached_volume Mutation.attach [] plain
      (volumes free_volume) attached-IsText alone-Disjoint
