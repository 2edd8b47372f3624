-- ===== src/Session/Store/Saved.antt =====
-- What a write of a record does to the registry, on success and on failure.
use boxwarden.Prelude.{
  Bytes, List, Outcome, Outcome-cases, [], ap, arith, bind-eq-ok, else-eq-ok, eqb, eqb_iff, err,
  inl, inr, ok, refl, same, same-eq, ◌∙◌, ◌∷◌, ◌≡◌, ◌⊎◌,
}
use boxwarden.Ident.{parse_domain}
use boxwarden.Ident.Names.{parse_domain-eq}
use boxwarden.Session.Decode.{decode_record}
use boxwarden.Session.Decode.Marshal.{marshal_record}
use boxwarden.Session.Store.{save_record, upgrade_record_for_store, validate_record_for_store}
use boxwarden.Session.Types.{SessionRecord, SessionRecord-discrete}
use boxwarden.World.{Dir, Fate, Registry, World, change, commit, json_name, put_file, replace_file}

-- What the validation before a write has established.
pub record Validated (coerce : Bytes → Bytes) (d : Bytes) (r : SessionRecord) : Type 0 where
  pub domain_parses : parse_domain d ≡ ok d
  pub domain_is : r.domain ≡ d
  pub reads_back : decode_record (marshal_record coerce r) ≡ ok r

pub validate-Validated :
    (coerce : Bytes → Bytes) (d : Bytes) (r : SessionRecord)
    → validate_record_for_store coerce d r ≡ ok tt
    → Validated coerce d r
unfolding validate_record_for_store
validate-Validated coerce d r h =
    let (n, parsed, rest) = bind-eq-ok (parse_domain d) _ h in
    let (in_domain, later) = else-eq-ok (eqb r.domain n) _ rest in
    let (decoded, read, last) = bind-eq-ok (decode_record (marshal_record coerce r)) _ later in
    let (equal, _) = else-eq-ok (same SessionRecord-discrete decoded r) _ last in
    record {
      domain_parses = rw (parse_domain-eq d parsed) at parsed;
      domain_is = (eqb_iff r.domain n).0 in_domain ∙ parse_domain-eq d parsed;
      reads_back = read ∙ ap ok (same-eq SessionRecord-discrete decoded r equal);
    }

pub upgrade-name : (r : SessionRecord) → (upgrade_record_for_store r).name ≡ r.name
unfolding upgrade_record_for_store
upgrade-name r = ground arith

-- The file of a record that was validated.
abbrev pub written : (Bytes → Bytes) → SessionRecord → Dir → Dir
written coerce r = put_file (json_name r.name) (marshal_record coerce (upgrade_record_for_store r))

-- The registry behind a write: as it was, and then the write failed, or with the whole new file.
pub record Effect (coerce : Bytes → Bytes) (d : Bytes) (r : SessionRecord) (w : World)
    (o : Outcome (Unit {0})) (w' : World) : Type 0 where
  pub workspaces_kept : w'.workspaces ≡ w.workspaces
  pub rebuilds_kept : w'.rebuilds ≡ w.rebuilds
  pub sessions_are :
      ((o ≡ err) × (w'.sessions ≡ w.sessions))
      ⊎ ((w'.sessions ≡ written coerce r w.sessions)
          × Validated coerce d (upgrade_record_for_store r))

commit-Effect :
    (coerce : Bytes → Bytes) (d : Bytes) (r : SessionRecord) (w : World) (fs : List Fate)
    → Validated coerce d (upgrade_record_for_store r)
    → let (o, w') = commit fs (change Registry.sessions (written coerce r)) w in
      Effect coerce d r w o w'
commit-Effect coerce d r w [] v = record {
  workspaces_kept = refl;
  rebuilds_kept = refl;
  sessions_are = inr (refl, v);
}
commit-Effect coerce d r w (Fate.durable ∷ fs) v = record {
  workspaces_kept = refl;
  rebuilds_kept = refl;
  sessions_are = inr (refl, v);
}
commit-Effect coerce d r w (Fate.refused ∷ fs) v = record {
  workspaces_kept = refl;
  rebuilds_kept = refl;
  sessions_are = inl (refl, refl);
}
commit-Effect coerce d r w (Fate.torn ∷ fs) v = record {
  workspaces_kept = refl;
  rebuilds_kept = refl;
  sessions_are = inl (refl, refl);
}
commit-Effect coerce d r w (Fate.unsynced ∷ fs) v = record {
  workspaces_kept = refl;
  rebuilds_kept = refl;
  sessions_are = inr (refl, v);
}

untouched :
    (coerce : Bytes → Bytes) (d : Bytes) (r : SessionRecord) (w : World) → Effect coerce d r w err w
untouched coerce d r w = record {
  workspaces_kept = refl;
  rebuilds_kept = refl;
  sessions_are = inl (refl, refl);
}

pub save_record-Effect :
    (coerce : Bytes → Bytes) (d : Bytes) (r : SessionRecord) (w : World)
    → Effect coerce d r w (save_record coerce d r w).0 (save_record coerce d r w).1
unfolding save_record replace_file
save_record-Effect coerce d r w = elim (Outcome-cases (validate_record_for_store coerce d r)) [
  | inl refused ↦ rw refused (untouched coerce d r w)
  | inr (_, first) ↦
      elim (Outcome-cases (validate_record_for_store coerce d (upgrade_record_for_store r))) [
        | inl refused ↦ rw (first, refused) (untouched coerce d r w)
        | inr (_, second) ↦
            rw (first, second, upgrade-name)
              (commit-Effect coerce d r w w.fates
                (validate-Validated coerce d (upgrade_record_for_store r) second))
      ]
]
