-- ===== src/Session/Rebuild/Lands.antt =====
-- Where a journal stands behind an advance that succeeds.
use boxwarden.Prelude.{
  Bool-cases, Bytes, Outcome, ap, bind, inl, inr, ok, refl, same, same-eq, sym, ◌∙◌, ◌≡◌,
}
use boxwarden.Session.Rebuild.Advance.{Admitted, course, stopped_short, went_on}
use boxwarden.Session.Rebuild.Journal.{Journal-discrete, RebuildJournal}
use boxwarden.Session.Rebuild.Load.{load-written}
use boxwarden.Session.Rebuild.Marshal.{IsText, marshal_journal}
use boxwarden.Session.Rebuild.Registry.{
  advance_from, advance_rebuild_journal, load_present, present,
}
use boxwarden.World.{Registry, World, json_name, put_file, replace_file}
use boxwarden.World.Files.{replace_file-rebuilds}

module _ (coerce : Bytes → Bytes) (expected next : RebuildJournal) (w : World) where
  abbrev advanced : Outcome (Unit {0}) × World
  advanced = advance_rebuild_journal coerce expected next w

  pub advance_rebuild_journal-sessions : advanced.1.sessions ≡ w.sessions
  unfolding advance_from
  advance_rebuild_journal-sessions = elim (course coerce expected next w) [
    | stopped_short e ↦ rw e refl
    | went_on _ current _ e ↦ elim (Bool-cases (same Journal-discrete current next)) [
      | inl done ↦ rw e (rw done refl)
      | inr fresh ↦ elim (Bool-cases (same Journal-discrete current expected)) [
        | inr foreign ↦ rw e (rw (fresh, foreign) refl)
        | inl found_it ↦ rw e (
            rw (fresh, found_it)
              (replace_file-rebuilds (json_name expected.session_name) (marshal_journal coerce next)
                w).sessions_kept)
      ]
    ]
  ]

  pub advance_rebuild_journal-lands :
      IsText coerce next
      → advanced.0 ≡ ok tt
      → load_present expected.domain expected.session_name advanced.1 ≡ ok next
  unfolding advance_from load_present
  advance_rebuild_journal-lands t done = elim (course coerce expected next w) [
    | stopped_short e ↦ cc (rw e at done)
    | went_on a current p e ↦ elim (Bool-cases (same Journal-discrete current next)) [
      | inl there ↦
          let is_next = same-eq Journal-discrete current next there in
          rw e (rw there (p ∙ ap ok is_next))
      | inr fresh ↦ elim (Bool-cases (same Journal-discrete current expected)) [
        | inr foreign ↦ cc (rw (fresh, foreign) at (rw e at done))
        | inl found_it ↦
            rw e (rw (fresh, found_it) (replaced a (rw (fresh, found_it) at (rw e at done))))
      ]
    ]
  ]
    where
      replaced :
          Admitted expected next
          → let step =
              replace_file Registry.rebuilds
                (json_name expected.session_name)
                (marshal_journal coerce next)
                w in
            step.0 ≡ ok tt → load_present expected.domain expected.session_name step.1 ≡ ok next
      replaced a ran =
          let f =
            replace_file-rebuilds (json_name expected.session_name) (marshal_journal coerce next)
              w in
          let w' =
            (replace_file Registry.rebuilds (json_name expected.session_name)
              (marshal_journal coerce next) w).1 in
          let same_name = ap (λ j. j.session_name) a.only_phase in
          let same_domain = ap (λ j. j.domain) a.only_phase in
          elim f.rebuilds_are [
            | inl (failed, _) ↦ cc
            | inr changed ↦
                let changed_name =
                  changed
                  ∙ ap (λ m. put_file (json_name m) (marshal_journal coerce next) w.rebuilds)
                      (sym same_name) in
                let back = load-written coerce next w w' changed_name t a.next_valid in
                ap (λ m. load_present expected.domain m w') (sym same_name)
                ∙ ap (λ m. load_present m next.session_name w') (sym same_domain)
                ∙ ap (λ o. bind o present) back
          ]
