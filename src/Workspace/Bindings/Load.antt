-- ===== src/Workspace/Bindings/Load.antt =====
-- What a write of a volume record does to the registry, whatever became of it.
use boxwarden.Prelude.{
  Bytes, List, Outcome, Outcome-cases, [], err, inl, inr, ok, refl, ◌∷◌, ◌≡◌, ◌⊎◌,
}
use boxwarden.Workspace.Bindings.{ExportJournal, Mutation, check_bindings, save_record_transition}
use boxwarden.Workspace.Decode.Marshal.{marshal_record}
use boxwarden.Workspace.Types.{WorkspaceRecord, validate_record}
use boxwarden.World.{Fate, Registry, World, change, commit, json_name, put_file, replace_file}

-- The registry behind a write: as it was, and then the write failed, or with the whole new file,
-- which validation and the rules of the registry had admitted.
pub record Effect (exports : Bytes → Outcome ExportJournal) (d : Bytes) (r : WorkspaceRecord)
    (m : Mutation) (id : Bytes) (coerce : Bytes → Bytes) (w : World) (o : Outcome (Unit {0}))
    (w' : World) : Type 0 where
  pub sessions_kept : w'.sessions ≡ w.sessions
  pub rebuilds_kept : w'.rebuilds ≡ w.rebuilds
  pub workspaces_are :
      ((o ≡ err) × (w'.workspaces ≡ w.workspaces))
      ⊎ ((w'.workspaces ≡ put_file (json_name r.volume_id) (marshal_record coerce r) w.workspaces)
          × (validate_record d r ≡ ok tt)
          × (check_bindings exports d r m id w.workspaces ≡ ok tt))

module _ (exports : Bytes → Outcome ExportJournal) (d : Bytes) (r : WorkspaceRecord) (m : Mutation)
    (id : Bytes) (coerce : Bytes → Bytes) (w : World) where
  abbrev result : Outcome (Unit {0}) × World
  result = save_record_transition exports d r m id coerce w

  commit-Effect :
      (fs : List Fate)
      → validate_record d r ≡ ok tt
      → check_bindings exports d r m id w.workspaces ≡ ok tt
      → let (o, w') =
          commit fs
            (change Registry.workspaces
              (put_file (json_name r.volume_id) (marshal_record coerce r)))
            w in
        Effect exports d r m id coerce w o w'
  commit-Effect [] v c = record {
    sessions_kept = refl;
    rebuilds_kept = refl;
    workspaces_are = inr (refl, v, c);
  }
  commit-Effect (Fate.durable ∷ fs) v c = record {
    sessions_kept = refl;
    rebuilds_kept = refl;
    workspaces_are = inr (refl, v, c);
  }
  commit-Effect (Fate.refused ∷ fs) v c = record {
    sessions_kept = refl;
    rebuilds_kept = refl;
    workspaces_are = inl (refl, refl);
  }
  commit-Effect (Fate.torn ∷ fs) v c = record {
    sessions_kept = refl;
    rebuilds_kept = refl;
    workspaces_are = inl (refl, refl);
  }
  commit-Effect (Fate.unsynced ∷ fs) v c = record {
    sessions_kept = refl;
    rebuilds_kept = refl;
    workspaces_are = inr (refl, v, c);
  }

  untouched : Effect exports d r m id coerce w err w
  untouched = record {
    sessions_kept = refl;
    rebuilds_kept = refl;
    workspaces_are = inl (refl, refl);
  }

  pub save-Effect : Effect exports d r m id coerce w result.0 result.1
  unfolding save_record_transition replace_file
  save-Effect = elim (Outcome-cases (validate_record d r)) [
    | inl refused ↦ rw refused untouched
    | inr (_, first) ↦ elim (Outcome-cases (check_bindings exports d r m id w.workspaces)) [
      | inl refused ↦ rw (first, refused) untouched
      | inr (_, second) ↦ rw (first, second) (commit-Effect w.fates first second)
    ]
  ]
