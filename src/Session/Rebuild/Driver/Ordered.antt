-- ===== src/Session/Rebuild/Driver/Ordered.antt =====
-- The order of the two writes of a cutover.
use mathlib.Core.Option.{some-injective}
-- The observer and the loader of pins leave session records and journals alone.
use boxwarden.Prelude.{
  Bool-cases, Bytes, Option, ap, arith, bind-eq-ok, eqb, eqb_iff, guard, guard-eq-ok, if-eq-ok,
  if◌then◌else◌, inl, inr, is_empty, none, not, ok, ok-injective, refl, some, sym, true, ◌&&◌, ◌||◌,
  ◌∙◌, ◌≡◌, ◌⊎◌,
}
use boxwarden.Backend.{is_exact}
use boxwarden.Ident.{parse_domain, parse_name}
use boxwarden.Ident.Names.{parse_name-eq}
use boxwarden.Json.{Json}
use boxwarden.Session.Create.{check_intent}
use boxwarden.Session.Decode.{is_stopped}
use boxwarden.Session.Rebuild.Driver.{
  Rebuilding, as_candidate, coerce, commit_cutover, cutover_locked, cutover_old, has_candidate,
  has_old_system, in_phase, is_of_session, is_phase_cloned, is_phase_cutover, is_prepared,
  switch_record, verify_old_pin,
}
use boxwarden.Session.Rebuild.Journal.{RebuildJournal, RebuildPhase, decode_rebuild_journal}
use boxwarden.Session.Rebuild.Lands.{
  advance_rebuild_journal-lands, advance_rebuild_journal-sessions,
}
use boxwarden.Session.Rebuild.Load.{present-some}
use boxwarden.Session.Rebuild.Marshal.{IsText}
use boxwarden.Session.Rebuild.Registry.{
  advance_rebuild_journal, load_journal_file, load_present, load_rebuild_journal,
}
use boxwarden.Session.Start.{seen_at_rest}
use boxwarden.Session.Stop.{observe_exact}
use boxwarden.Session.Store.{load_record, save_record}
use boxwarden.Session.Store.Saved.{save_record-Effect}
use boxwarden.Session.Types.{SessionRecord}
use boxwarden.World.{World, find_file, json_name, lift, pure, then_with, ◌>>◌}
use boxwarden.World.Runs.{then_with-leaves}

pub record Still (s : Rebuilding) : Type 0 where
  pub observe_sessions :
      (id : Bytes) (w : World) → (s.supervised.outside.observe id w).1.sessions ≡ w.sessions
  pub observe_rebuilds :
      (id : Bytes) (w : World) → (s.supervised.outside.observe id w).1.rebuilds ≡ w.rebuilds
  pub pin_sessions : (j : RebuildJournal) (w : World) → (s.pin_digest j w).1.sessions ≡ w.sessions
  pub pin_rebuilds : (j : RebuildJournal) (w : World) → (s.pin_digest j w).1.rebuilds ≡ w.rebuilds

pub load_present-same :
    (d n : Bytes) (w w' : World)
    → w'.rebuilds ≡ w.rebuilds
    → load_present d n w' ≡ load_present d n w
unfolding load_present load_rebuild_journal
load_present-same d n w w' e = rw e refl

-- A journal that loads has the domain and the name it is loaded by.
pub load_present-identity :
    (d n : Bytes) (w : World) (j : RebuildJournal)
    → load_present d n w ≡ ok j
    → (j.domain ≡ d) × (j.session_name ≡ n)
unfolding load_present load_rebuild_journal
load_present-identity d n w j h =
    let (o, loads, is_there) = bind-eq-ok (load_rebuild_journal d n w) _ h in
    let (x, _, h1) = bind-eq-ok (parse_domain d) _ loads in
    let (name, parsed, h2) = bind-eq-ok (parse_name n) _ h1 in
    let found : load_journal_file d name (find_file (json_name name) w.rebuilds) ≡ ok (some j) =
      h2 ∙ ap ok (present-some o j is_there) in
    let (domain_is, name_is) = named (find_file (json_name name) w.rebuilds) name found in
    (domain_is, name_is ∙ parse_name-eq n parsed)
  where
    named :
        (f : Option Json) (name : Bytes)
        → load_journal_file d name f ≡ ok (some j)
        → (j.domain ≡ d) × (j.session_name ≡ name)
    named none name h = cc
    named (some doc) name h =
        let (k, _, h1) = bind-eq-ok (decode_rebuild_journal doc) _ h in
        let (bound, h2) = if-eq-ok (not (eqb k.domain d) || not (eqb k.session_name name)) _ h1 in
        let k_is : k ≡ j = some-injective _ _ (ok-injective _ _ h2) in
        (
          ap (λ y. y.domain) (sym k_is) ∙ (eqb_iff k.domain d).0 (ground arith),
          ap (λ y. y.session_name) (sym k_is) ∙ (eqb_iff k.session_name name).0 (ground arith),
        )

module _ (s : Rebuilding) (d name : Bytes) where
  -- The session records are the old ones, or the journal stands in cutover.
  abbrev pub CutFirst : World → World → Type 0
  CutFirst w w' =
      (w'.sessions ≡ w.sessions)
      ⊎ ((j : RebuildJournal) × (load_present d name w' ≡ ok j) × (j.phase ≡ RebuildPhase.cutover))

  is_phase_cutover-eq : (p : RebuildPhase) → is_phase_cutover p ≡ true → p ≡ RebuildPhase.cutover
  is_phase_cutover-eq RebuildPhase.cutover h = refl
  is_phase_cutover-eq RebuildPhase.reserved h = cc
  is_phase_cutover-eq RebuildPhase.cloned h = cc
  is_phase_cutover-eq RebuildPhase.ready h = cc
  is_phase_cutover-eq RebuildPhase.retiring h = cc
  is_phase_cutover-eq (RebuildPhase.other _) h = cc

  switch_record-CutFirst :
      (r : SessionRecord) (j k : RebuildJournal) (w v : World)
      → load_present d name v ≡ ok k
      → k.phase ≡ RebuildPhase.cutover
      → CutFirst w (switch_record s d r j v).1
  unfolding switch_record
  switch_record-CutFirst r j k w v loads phase =
      let saved = save_record (coerce s d) d (as_candidate r j) v in
      let kept = (save_record-Effect (coerce s d) d (as_candidate r j) v).rebuilds_kept in
      let there = inr (k, load_present-same d name v saved.1 kept ∙ loads, phase) in
      then_with-leaves (CutFirst w) saved _ there (λ _ _. there)

  commit_cutover-CutFirst :
      (r : SessionRecord) (j : RebuildJournal) (w v : World)
      → IsText (coerce s d) (in_phase j RebuildPhase.cutover)
      → v.sessions ≡ w.sessions
      → load_present d name v ≡ ok j
      → (is_phase_cloned j.phase || is_phase_cutover j.phase) ≡ true
      → CutFirst w (commit_cutover s d r j v).1
  unfolding commit_cutover
  commit_cutover-CutFirst r j w v text kept loads phase =
      elim (Bool-cases (is_phase_cloned j.phase)) [
        | inr e ↦
            rw e
              (switch_record-CutFirst r j j w v loads (is_phase_cutover-eq j.phase (ground arith)))
        | inl e ↦
            let cut = in_phase j RebuildPhase.cutover in
            let step = advance_rebuild_journal (coerce s d) j cut v in
            let (domain_is, name_is) = load_present-identity d name v j loads in
            rw e (
              then_with-leaves (CutFirst w) step _
                (inl (advance_rebuild_journal-sessions (coerce s d) j cut v ∙ kept))
                (λ _ done.
                  switch_record-CutFirst r j cut w step.1
                    (ap (λ n. load_present d n step.1) (sym name_is)
                      ∙ ap (λ n. load_present n j.session_name step.1) (sym domain_is)
                      ∙ advance_rebuild_journal-lands (coerce s d) j cut v text done)
                    refl))
      ]

  check_intent-world :
      (j : RebuildJournal) (w : World)
      → (check_intent s.creating d j.candidate_intent_digest w).1 ≡ w
  check_intent-world j w = elim (Bool-cases (is_empty j.candidate_intent_digest)) [
    | inl e ↦ rw e refl
    | inr e ↦ rw e refl
  ]

  -- Where a check alone has run, the session records and the journal are those of before.
  abbrev Checked : World → World → Type 0
  Checked w v = (v.sessions ≡ w.sessions) × (v.rebuilds ≡ w.rebuilds)

  module _ (still : Still s) where
    seen_at_rest-Checked : (id : Bytes) (v : World) → Checked v (seen_at_rest s.supervised d id v).1
    unfolding seen_at_rest observe_exact
    seen_at_rest-Checked id v =
        let seen : Checked v (s.supervised.outside.observe id v).1 =
          (still.observe_sessions id v, still.observe_rebuilds id v) in
        let exact =
          then_with-leaves (Checked v) (s.supervised.outside.observe id v)
            (λ o. lift (guard (is_exact id o)) >> pure o) seen
            (λ o _. then_with-leaves (Checked v) (guard (is_exact id o), _) _ seen (λ _ _. seen)) in
        then_with-leaves (Checked v) (observe_exact s.supervised.outside d id v) _ exact
          (λ _ _. exact)

    verify_old_pin-Checked : (j : RebuildJournal) (v : World) → Checked v (verify_old_pin s d j v).1
    unfolding verify_old_pin
    verify_old_pin-Checked j v =
        let read : Checked v (s.pin_digest j v).1 =
          (still.pin_sessions j v, still.pin_rebuilds j v) in
        then_with-leaves (Checked v) (s.pin_digest j v) _ read (λ _ _. read)

    cutover_old-CutFirst :
        (r : SessionRecord) (j : RebuildJournal) (w : World)
        → IsText (coerce s d) (in_phase j RebuildPhase.cutover)
        → load_present d name w ≡ ok j
        → (is_phase_cloned j.phase || is_phase_cutover j.phase) ≡ true
        → CutFirst w (cutover_old s d r j w).1
    unfolding cutover_old
    cutover_old-CutFirst r j w text loads phase =
        let pinned = verify_old_pin s d j w in
        let old = seen_at_rest s.supervised d j.old_backend pinned.1 in
        let new = seen_at_rest s.supervised d j.candidate_backend old.1 in
        let p = verify_old_pin-Checked j w in
        let o = seen_at_rest-Checked j.old_backend pinned.1 in
        let n = seen_at_rest-Checked j.candidate_backend old.1 in
        let Q = CutFirst w in
        then_with-leaves Q
          (
            guard
                (is_stopped r.intended_state && has_old_system r j && is_empty r.start_generation),
            w,
          )
          _ (inl refl)
          (λ _ _. then_with-leaves Q pinned _ (inl p.0) (λ _ _.
            then_with-leaves Q old _ (inl (o.0 ∙ p.0)) (λ _ _.
              then_with-leaves Q new _ (inl (n.0 ∙ o.0 ∙ p.0)) (λ _ _.
                commit_cutover-CutFirst r j w new.1 text (n.0 ∙ o.0 ∙ p.0)
                  (load_present-same d name w new.1 (n.1 ∙ o.1 ∙ p.1) ∙ loads) phase))))

    -- Whatever becomes of a cutover, and whichever write fails: the session records that it leaves
    -- are those it found, or the journal that loads behind it stands in the phase cutover. The
    -- observer and the loader of pins leave both registries alone, and the cutover journal is text.
    pub cutover_locked-Ordered :
        (prepared : Option RebuildJournal) (w : World)
        → ((j : RebuildJournal)
            → load_present d name w ≡ ok j
            → IsText (coerce s d) (in_phase j RebuildPhase.cutover))
        → CutFirst w (cutover_locked s d name prepared w).1
    unfolding cutover_locked
    cutover_locked-Ordered prepared w text =
        let Q = CutFirst w in
        then_with-leaves Q (load_present d name w, w) _ (inl refl)
          (λ j loads.
            then_with-leaves Q (guard (is_phase_cloned j.phase || is_phase_cutover j.phase), w) _
              (inl refl)
              (λ _ phase.
                then_with-leaves Q (guard (is_prepared prepared j), w) _ (inl refl)
                  (λ _ _.
                    then_with-leaves Q (load_record d name w, w) _ (inl refl)
                      (λ r _.
                        then_with-leaves Q (guard (is_of_session r j), w) _ (inl refl)
                          (λ _ _. last prepared w text r j loads (guard-eq-ok _ phase))))))
      where
        last :
            (prepared : Option RebuildJournal) (w : World)
            → ((j : RebuildJournal)
                → load_present d name w ≡ ok j
                → IsText (coerce s d) (in_phase j RebuildPhase.cutover))
            → (r : SessionRecord) (j : RebuildJournal) → load_present d name w ≡ ok j
            → (is_phase_cloned j.phase || is_phase_cutover j.phase) ≡ true
            → CutFirst w
                (then_with (check_intent s.creating d j.candidate_intent_digest w) (λ _.
                  if is_phase_cutover j.phase && has_candidate r j
                  then pure r
                  else cutover_old s d r j)).1
        last prepared w text r j loads phase =
            let intent = check_intent s.creating d j.candidate_intent_digest w in
            let same_world : intent.1 ≡ w = check_intent-world j w in
            then_with-leaves (CutFirst w) intent _ (rw same_world (inl refl)) (λ _ _.
              rw same_world (elim (Bool-cases (is_phase_cutover j.phase && has_candidate r j)) [
                | inl there ↦ rw there (inl refl)
                | inr here ↦ rw here (cutover_old-CutFirst r j w (text j loads) loads phase)
              ]))
