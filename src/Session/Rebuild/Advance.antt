-- ===== src/Session/Rebuild/Advance.antt =====
-- What a step of a rebuild journal does to the registry, whatever became of it.
use boxwarden.Prelude.{
  Bool-cases, Bytes, Option, Outcome, Outcome-cases, ap, arith, eqb, eqb_iff, err, inl, inr, ok,
  refl, same, same-eq, same_refl, some, subst, sym, true, ◌∙◌, ◌≡◌, ◌⊎◌,
}
use boxwarden.Session.Rebuild.Journal.{
  Journal-discrete, RebuildJournal, RebuildPhase, validate_rebuild_journal,
}
use boxwarden.Session.Rebuild.Load.{load-elsewhere, load-written, load_present-found}
use boxwarden.Session.Rebuild.Marshal.{IsText, marshal_journal}
use boxwarden.Session.Rebuild.Registry.{
  advance_from, advance_rebuild_journal, load_present, load_rebuild_journal, next_phase,
}
use boxwarden.World.{Registry, World, json_name, put_file, replace_file}
use boxwarden.World.Files.{replace_file-rebuilds}

-- The order of the phases.
pub data Succeeds : RebuildPhase → RebuildPhase → Type 0 where
  to_cloned : Succeeds RebuildPhase.reserved RebuildPhase.cloned
  to_cutover : Succeeds RebuildPhase.cloned RebuildPhase.cutover
  to_ready : Succeeds RebuildPhase.cutover RebuildPhase.ready
  to_retiring : Succeeds RebuildPhase.ready RebuildPhase.retiring

next_phase-Succeeds : (p q : RebuildPhase) → next_phase p ≡ ok q → Succeeds p q
unfolding next_phase
next_phase-Succeeds RebuildPhase.reserved q h =
    subst (Succeeds RebuildPhase.reserved) (ground arith) to_cloned
next_phase-Succeeds RebuildPhase.cloned q h =
    subst (Succeeds RebuildPhase.cloned) (ground arith) to_cutover
next_phase-Succeeds RebuildPhase.cutover q h =
    subst (Succeeds RebuildPhase.cutover) (ground arith) to_ready
next_phase-Succeeds RebuildPhase.ready q h =
    subst (Succeeds RebuildPhase.ready) (ground arith) to_retiring
next_phase-Succeeds RebuildPhase.retiring q h = cc
next_phase-Succeeds (RebuildPhase.other _) q h = cc

pub Succeeds-next_phase : (p q : RebuildPhase) → Succeeds p q → next_phase p ≡ ok q
unfolding next_phase
Succeeds-next_phase _ _ to_cloned = refl
Succeeds-next_phase _ _ to_cutover = refl
Succeeds-next_phase _ _ to_ready = refl
Succeeds-next_phase _ _ to_retiring = refl

-- What the tests in front of the registry have shown.
pub record Admitted (expected next : RebuildJournal) : Type 0 where
  pub expected_valid : validate_rebuild_journal expected ≡ ok tt
  pub next_valid : validate_rebuild_journal next ≡ ok tt
  pub successor : Succeeds expected.phase next.phase
  pub only_phase : next ≡ record expected { phase = next.phase }

admitted :
    (expected next : RebuildJournal) (p : RebuildPhase)
    → validate_rebuild_journal expected ≡ ok tt
    → validate_rebuild_journal next ≡ ok tt
    → next_phase expected.phase ≡ ok p
    → same Journal-discrete next (record expected { phase = p }) ≡ true
    → Admitted expected next
admitted expected next p a b c d =
    let eq = same-eq Journal-discrete next (record expected { phase = p }) d in
    let phase_is : next.phase ≡ p = ap (λ j. j.phase) eq in
    record {
      expected_valid = a;
      next_valid = b;
      successor = next_phase-Succeeds expected.phase next.phase (rw phase_is c);
      only_phase = eq ∙ ap (λ q. record expected { phase = q }) (sym phase_is);
    }

-- A step: refused before the registry is looked at, or it acts on the journal that is there.
pub data Course (coerce : Bytes → Bytes) (expected next : RebuildJournal) (w : World) : Type 0 where
  stopped_short :
      advance_rebuild_journal coerce expected next w ≡ (err, w) → Course coerce expected next w
  went_on :
      Admitted expected next
      → (current : RebuildJournal)
      → load_present expected.domain expected.session_name w ≡ ok current
      → advance_rebuild_journal coerce expected next w ≡ advance_from coerce expected next current w
      → Course coerce expected next w

pub course :
    (coerce : Bytes → Bytes) (expected next : RebuildJournal) (w : World)
    → Course coerce expected next w
unfolding advance_rebuild_journal
course coerce expected next w = elim (Outcome-cases (validate_rebuild_journal expected)) [
  | inl e ↦ stopped_short (rw e refl)
  | inr (_, a) ↦ elim (Outcome-cases (validate_rebuild_journal next)) [
    | inl e ↦ stopped_short (rw (a, e) refl)
    | inr (_, b) ↦ elim (Outcome-cases (next_phase expected.phase)) [
      | inl e ↦ stopped_short (rw (a, b, e) refl)
      | inr (p, c) ↦
          elim (Bool-cases (same Journal-discrete next (record expected { phase = p }))) [
            | inr e ↦ stopped_short (rw (a, b, c) (rw e refl))
            | inl d ↦ elim (Outcome-cases (load_present expected.domain expected.session_name w)) [
              | inl e ↦ stopped_short (rw (a, b, c) (rw d (rw e refl)))
              | inr (current, l) ↦
                  went_on (admitted expected next p a b c d) current l
                    (rw (a, b, c) (rw d (rw l refl)))
            ]
          ]
    ]
  ]
]

module _ (coerce : Bytes → Bytes) (expected next : RebuildJournal) (w : World) where
  -- What one step may do to the journal of a session.
  abbrev pub Step : Bytes → Option RebuildJournal → Outcome (Unit {0}) × World → Type 0
  Step n found step =
      (load_rebuild_journal expected.domain n step.1 ≡ ok found)
      ⊎ ((n ≡ expected.session_name)
          × (found ≡ some expected)
          × (load_rebuild_journal expected.domain n step.1 ≡ ok (some next))
          × Succeeds expected.phase next.phase
          × (next ≡ record expected { phase = next.phase }))

  replaced-Step :
      IsText coerce next
      → (n : Bytes) {found : Option RebuildJournal} (current : RebuildJournal)
      → Admitted expected next
      → load_present expected.domain expected.session_name w ≡ ok current
      → current ≡ expected
      → load_rebuild_journal expected.domain n w ≡ ok found
      → Step n found (
          replace_file Registry.rebuilds
            (json_name expected.session_name)
            (marshal_journal coerce next)
            w)
  unfolding load_rebuild_journal
  replaced-Step t n {found} current a p same_journal l =
      let same_name = ap (λ j. j.session_name) a.only_phase in
      let same_domain = ap (λ j. j.domain) a.only_phase in
      let w' =
        (replace_file Registry.rebuilds (json_name expected.session_name)
          (marshal_journal coerce next) w).1 in
      let f =
        replace_file-rebuilds (json_name expected.session_name) (marshal_journal coerce next) w in
      elim f.rebuilds_are [
        | inl (_, kept) ↦ inl (rw kept l)
        | inr changed ↦
            let changed_name =
              changed
              ∙ ap (λ m. put_file (json_name m) (marshal_journal coerce next) w.rebuilds)
                  (sym same_name) in
            elim (Bool-cases (eqb expected.session_name n)) [
              | inr apart ↦ inl (
                  load-elsewhere coerce next w w' changed_name expected.domain n
                    (λ e. cc (apart, (eqb_iff expected.session_name n).1 (sym same_name ∙ e)))
                  ∙ l)
              | inl here ↦
                  let n_is = (eqb_iff expected.session_name n).0 here in
                  inr (
                    sym n_is,
                    load_present-found expected.domain expected.session_name w
                        (p ∙ ap ok same_journal) (rw (← n_is) at l),
                    subst (λ d. load_rebuild_journal d n w' ≡ ok (some next)) same_domain
                        (subst (λ m. load_rebuild_journal next.domain m w' ≡ ok (some next))
                          (same_name ∙ n_is)
                          (load-written coerce next w w' changed_name t a.next_valid)),
                    a.successor,
                    a.only_phase,
                  )
            ]
      ]

  -- One call advances the journal by one phase or not at all, whatever becomes of its write: every
  -- journal of the domain that loads, loads as before, unless it is the expected one and now
  -- stands one phase later with no other field changed. The texts of the next journal are UTF-8.
  pub advance_rebuild_journal-steps :
      IsText coerce next
      → (n : Bytes) (found : Option RebuildJournal)
      → load_rebuild_journal expected.domain n w ≡ ok found
      → Step n found (advance_rebuild_journal coerce expected next w)
  unfolding advance_from
  advance_rebuild_journal-steps t n found l = elim (course coerce expected next w) [
    | stopped_short e ↦ rw e (inl l)
    | went_on a current p e ↦ elim (Bool-cases (same Journal-discrete current next)) [
      | inl done ↦ rw e (rw done (inl l))
      | inr fresh ↦ elim (Bool-cases (same Journal-discrete current expected)) [
        | inr foreign ↦ rw e (rw (fresh, foreign) (inl l))
        | inl found_it ↦ rw e (
            rw (fresh, found_it)
              (replaced-Step t n current a p (same-eq Journal-discrete current expected found_it)
                l))
      ]
    ]
  ]

  -- A step whose write became visible although it failed is settled by a repeat: where the
  -- registry holds the next journal, a call for two valid journals that are one phase apart
  -- succeeds and writes nothing.
  pub advance_rebuild_journal-repeats :
      validate_rebuild_journal expected ≡ ok tt
      → validate_rebuild_journal next ≡ ok tt
      → Succeeds expected.phase next.phase
      → next ≡ record expected { phase = next.phase }
      → load_rebuild_journal expected.domain expected.session_name w ≡ ok (some next)
      → advance_rebuild_journal coerce expected next w ≡ (ok tt, w)
  unfolding advance_rebuild_journal advance_from load_present
  advance_rebuild_journal-repeats a b s e l =
      rw (a, b, Succeeds-next_phase expected.phase next.phase s)
        (rw
          (subst (λ j. same Journal-discrete next j ≡ true) e (same_refl Journal-discrete next), l)
          (rw (same_refl Journal-discrete next) refl))
