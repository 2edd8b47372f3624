-- ===== src/Session/Rebuild/Load.antt =====
-- What loads behind a write of one rebuild journal.
use boxwarden.Prelude.{
  Bytes, Option, Outcome-cases, ap, arith, bind-eq-ok, else-eq-ok, eqb, eqb_refl, inl, inr, none,
  ok, refl, some, ◌∙◌, ◌≡◌, ◌≢◌,
}
use boxwarden.Ident.{parse_domain, parse_name}
use boxwarden.Ident.Names.{parse_domain-eq, parse_name-eq}
use boxwarden.Session.Rebuild.Journal.{RebuildJournal, validate_rebuild_journal}
use boxwarden.Session.Rebuild.Marshal.{
  IsText, decode_rebuild_journal-marshal_journal, marshal_journal,
}
use boxwarden.Session.Rebuild.Registry.{
  load_journal_file, load_present, load_rebuild_journal, present,
}
use boxwarden.World.{World, json_name, put_file}
use boxwarden.World.Files.{find_file-put_file, json_name-apart}

pub valid_names :
    (j : RebuildJournal)
    → validate_rebuild_journal j ≡ ok tt
    → (parse_domain j.domain ≡ ok j.domain) × (parse_name j.session_name ≡ ok j.session_name)
unfolding validate_rebuild_journal
valid_names j h =
    let (d, parsed, rest) = bind-eq-ok (parse_domain j.domain) _ h in
    let (_, more) = else-eq-ok (eqb d j.domain) _ rest in
    let (n, named, _) = bind-eq-ok (parse_name j.session_name) _ more in
    (
      parsed ∙ ap ok (parse_domain-eq j.domain parsed),
      named ∙ ap ok (parse_name-eq j.session_name named),
    )

module _ (coerce : Bytes → Bytes) (j : RebuildJournal) (w w' : World)
    (e : w'.rebuilds
      ≡ put_file (json_name j.session_name) (marshal_journal coerce j) w.rebuilds) where
  pub load-elsewhere :
      (d n : Bytes) → j.session_name ≢ n → load_rebuild_journal d n w' ≡ load_rebuild_journal d n w
  unfolding load_rebuild_journal
  load-elsewhere d n ne = elim (Outcome-cases (parse_name n)) [
    | inl bad ↦ rw bad refl
    | inr (m, good) ↦
        rw
          (
            good,
            e,
            parse_name-eq n good,
            find_file-put_file (json_name j.session_name) (json_name n) (marshal_journal coerce j)
                w.rebuilds,
            json_name-apart j.session_name n ne,
          )
          refl
  ]

  pub load-written :
      IsText coerce j
      → validate_rebuild_journal j ≡ ok tt
      → load_rebuild_journal j.domain j.session_name w' ≡ ok (some j)
  unfolding load_rebuild_journal load_journal_file
  load-written t h =
      let (domain_parses, name_parses) = valid_names j h in
      rw
        (
          domain_parses,
          name_parses,
          e,
          find_file-put_file (json_name j.session_name) (json_name j.session_name)
              (marshal_journal coerce j) w.rebuilds,
          eqb_refl (json_name j.session_name),
        )
        (rw (decode_rebuild_journal-marshal_journal coerce j t h)
          (rw (eqb_refl j.domain, eqb_refl j.session_name) refl))

pub present-some : (o : Option RebuildJournal) (j : RebuildJournal) → present o ≡ ok j → o ≡ some j
present-some none j h = cc
present-some (some x) j h = ground arith

pub load_present-found :
    (d n : Bytes) (w : World) {found : Option RebuildJournal} {j : RebuildJournal}
    → load_present d n w ≡ ok j
    → load_rebuild_journal d n w ≡ ok found
    → found ≡ some j
unfolding load_present
load_present-found d n w {found} {j} h l = present-some found j (rw l at h)
