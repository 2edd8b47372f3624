-- ===== src/Session/Rebuild/Create.antt =====
-- How a rebuild begins and ends: the creation of its journal and its removal.
use boxwarden.Prelude.{
  Bool-cases, Bytes, Outcome, Outcome-cases, ap, bind-eq-ok, eqb_refl, err, inl, inr, none, ok,
  refl, same, same-eq, some, true, ◌∙◌, ◌≡◌, ◌≢◌, ◌⊎◌,
}
use boxwarden.Ident.{parse_domain, parse_name}
use boxwarden.Ident.Names.{parse_name-eq}
use boxwarden.Json.{decode_object}
use boxwarden.Session.Rebuild.Journal.{
  Journal-discrete, RebuildJournal, RebuildPhase, decode_rebuild_journal, validate_rebuild_journal,
}
use boxwarden.Session.Rebuild.Load.{load-written, present-some, valid_names}
use boxwarden.Session.Rebuild.Marshal.{IsText, marshal_journal}
use boxwarden.Session.Rebuild.Registry.{
  create_rebuild_journal, is_reserved, is_retiring, load_journal_file, load_present,
  load_rebuild_journal, present, remove_rebuild_journal, require_no_rebuild,
  require_unreserved_backend_object,
}
use boxwarden.World.{Registry, World, drop_file, json_name, put_file, remove_file}
use boxwarden.World.Files.{
  Creates, create_file-Creates, find_file-drop_file, find_file-put_file, json_name-apart,
  remove_file-rebuilds,
}

created_loads :
    (coerce : Bytes → Bytes) (j : RebuildJournal) (w : World) (step : Outcome (Unit {0}) × World)
    → IsText coerce j
    → validate_rebuild_journal j ≡ ok tt
    → Creates (json_name j.session_name) (marshal_journal coerce j) w step
    → (load_rebuild_journal j.domain j.session_name w ≡ ok none)
      × (require_no_rebuild j.domain j.session_name step.1 ≡ err)
      × (step.0 ≡ ok tt → load_rebuild_journal j.domain j.session_name step.1 ≡ ok (some j))
unfolding load_rebuild_journal load_journal_file require_no_rebuild decode_rebuild_journal
    decode_object
created_loads coerce j w step t h c =
    let (domain_parses, name_parses) = valid_names j h in
    (
      rw (domain_parses, name_parses, c.was_new) refl,
      elim c.whole_or_torn [
        | inl whole ↦
            rw
              (load-written coerce j w step.1
                (c.rebuilds_are ∙ ap (λ v. put_file (json_name j.session_name) v w.rebuilds) whole)
                t h)
              refl
        | inr (torn, _) ↦
            rw
              (
                domain_parses,
                name_parses,
                c.rebuilds_are,
                find_file-put_file (json_name j.session_name) (json_name j.session_name) c.contents
                    w.rebuilds,
                eqb_refl (json_name j.session_name),
              )
              (rw torn refl)
      ],
      λ done. elim c.whole_or_torn [
        | inl whole ↦
            load-written coerce j w step.1
              (c.rebuilds_are ∙ ap (λ v. put_file (json_name j.session_name) v w.rebuilds) whole) t
              h
        | inr (_, failed) ↦ cc
      ],
    )

-- The creation of a rebuild journal, whatever becomes of its write, either fails and leaves the
-- registry of rebuilds as it was, or finds none for the session and blocks the session from then
-- on, torn files included; and when it succeeds, the journal loads. Its texts are UTF-8.
pub create_rebuild_journal-blocks :
    (coerce : Bytes → Bytes) (j : RebuildJournal) (w : World)
    → IsText coerce j
    → let step = create_rebuild_journal coerce j w in
      ((step.0 ≡ err) × (step.1.rebuilds ≡ w.rebuilds))
      ⊎ ((load_rebuild_journal j.domain j.session_name w ≡ ok none)
          × (require_no_rebuild j.domain j.session_name step.1 ≡ err)
          × (step.0 ≡ ok tt → load_rebuild_journal j.domain j.session_name step.1 ≡ ok (some j)))
unfolding create_rebuild_journal
create_rebuild_journal-blocks coerce j w t = elim (Outcome-cases (validate_rebuild_journal j)) [
  | inl e ↦ rw e (inl (refl, refl))
  | inr (_, v) ↦ elim (Bool-cases (is_reserved j.phase)) [
    | inr e ↦ rw v (rw e (inl (refl, refl)))
    | inl r ↦
        elim (Outcome-cases
          (require_unreserved_backend_object j.domain j.session_name j.candidate_backend w)) [
            | inl e ↦ rw v (rw r (rw e (inl (refl, refl))))
            | inr (_, u) ↦ rw v (
                rw r (
                  rw u
                    (elim (create_file-Creates (json_name j.session_name) (marshal_journal coerce j)
                      w) [ inl kept ↦ inl kept | inr c ↦ inr (created_loads coerce j w _ t v c) ])))
          ]
  ]
]

dropped :
    (d n m : Bytes) (w w' : World)
    → w'.rebuilds ≡ drop_file (json_name m) w.rebuilds
    → m ≢ n
    → load_rebuild_journal d n w' ≡ load_rebuild_journal d n w
unfolding load_rebuild_journal
dropped d n m w w' e ne = elim (Outcome-cases (parse_name n)) [
  | inl bad ↦ rw bad refl
  | inr (x, good) ↦
      rw
        (
          good,
          e,
          parse_name-eq n good,
          find_file-drop_file (json_name m) (json_name n) w.rebuilds,
          json_name-apart m n ne,
        )
        refl
]

dropped_self :
    (d n : Bytes) (w w' : World)
    → w'.rebuilds ≡ drop_file (json_name n) w.rebuilds
    → parse_domain d ≡ ok d
    → parse_name n ≡ ok n
    → require_no_rebuild d n w' ≡ ok tt
unfolding require_no_rebuild load_rebuild_journal load_journal_file
dropped_self d n w w' e a b =
    rw (a, b, e, find_file-drop_file (json_name n) (json_name n) w.rebuilds, eqb_refl (json_name n))
      refl

pub is_retiring-eq : (p : RebuildPhase) → is_retiring p ≡ true → p ≡ RebuildPhase.retiring
is_retiring-eq RebuildPhase.retiring h = refl
is_retiring-eq _ h = cc

load_present-some :
    (d n : Bytes) (w : World) (j : RebuildJournal)
    → load_present d n w ≡ ok j
    → load_rebuild_journal d n w ≡ ok (some j)
unfolding load_present
load_present-some d n w j h =
    let (o, loads, e) = bind-eq-ok (load_rebuild_journal d n w) present h in
    loads ∙ ap ok (present-some o j e)

abbrev pub Frees : RebuildJournal → World → Outcome (Unit {0}) × World → Type 0
Frees expected w step =
    ((step.0 ≡ err) × (step.1.rebuilds ≡ w.rebuilds))
    ⊎ ((expected.phase ≡ RebuildPhase.retiring)
        × (load_rebuild_journal expected.domain expected.session_name w ≡ ok (some expected))
        × (require_no_rebuild expected.domain expected.session_name step.1 ≡ ok tt)
        × ((n : Bytes)
            → expected.session_name ≢ n
            → load_rebuild_journal expected.domain n step.1
              ≡ load_rebuild_journal expected.domain n w))

freed :
    (expected : RebuildJournal) (w : World)
    → validate_rebuild_journal expected ≡ ok tt
    → is_retiring expected.phase ≡ true
    → load_present expected.domain expected.session_name w ≡ ok expected
    → Frees expected w (remove_file Registry.rebuilds (json_name expected.session_name) w)
freed expected w v r l =
    let (domain_parses, name_parses) = valid_names expected v in
    elim (remove_file-rebuilds (json_name expected.session_name) w).rebuilds_are [
      | inl kept ↦ inl kept
      | inr e ↦ inr (
        is_retiring-eq expected.phase r,
        load_present-some expected.domain expected.session_name w expected l,
        dropped_self expected.domain expected.session_name w _ e domain_parses name_parses,
        λ n ne. dropped expected.domain n expected.session_name w _ e ne,
      )
    ]

-- The removal of a journal, whatever becomes of it, either leaves the registry of rebuilds as it
-- was, and then it has failed, or the journal was the expected one in its last phase, its session
-- is free again, and every other journal loads as before.
pub remove_rebuild_journal-Frees :
    (expected : RebuildJournal) (w : World) → Frees expected w (remove_rebuild_journal expected w)
unfolding remove_rebuild_journal
remove_rebuild_journal-Frees expected w = elim (Outcome-cases (validate_rebuild_journal expected)) [
  | inl e ↦ rw e (inl (refl, refl))
  | inr (_, v) ↦ elim (Bool-cases (is_retiring expected.phase)) [
    | inr e ↦ rw v (rw e (inl (refl, refl)))
    | inl r ↦ elim (Outcome-cases (load_present expected.domain expected.session_name w)) [
      | inl e ↦ rw v (rw r (rw e (inl (refl, refl))))
      | inr (current, l) ↦ elim (Bool-cases (same Journal-discrete current expected)) [
        | inr e ↦ rw v (rw r (rw l (rw e (inl (refl, refl)))))
        | inl s ↦ rw v (
            rw r (
              rw l (
                rw s (
                  freed expected w v r (l ∙ ap ok (same-eq Journal-discrete current expected s))))))
      ]
    ]
  ]
]
