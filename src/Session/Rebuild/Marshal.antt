-- ===== src/Session/Rebuild/Marshal.antt =====
-- The document that json.Marshal writes of a rebuild journal, and that the reader takes it back.
use boxwarden.Prelude.{Bool, Bytes, [], arith, codes, eqb, ok, refl, true, ℕ, ◌∷◌, ◌≡◌}
use boxwarden.Json.{Json, Members, bool, end, member, num, obj, str}
use boxwarden.Session.Rebuild.Journal.{
  RebuildJournal, RebuildPhase, binding_fits, decode_rebuild_journal, is_known, phase_of,
  phase_text, validate_rebuild_journal,
}

abbrev pub omit_empty : Bytes → (Bytes → Json) → Bytes → Members → Members
omit_empty k f [] ms = ms
omit_empty k f (c ∷ cs) ms = member k (f (c ∷ cs)) ms

module _ (coerce : Bytes → Bytes) where
  abbrev pub marshal_text : Bytes → Json
  marshal_text s = str (coerce s)

  unfoldable pub marshal_journal : RebuildJournal → Json
  marshal_journal j = obj (
      member (codes "version") (num j.version) (
        member (codes "domain") (marshal_text j.domain) (
          member (codes "session_name") (marshal_text j.session_name) (
            member (codes "session_id") (marshal_text j.session_id) (
              member (codes "operation_id") (marshal_text j.operation_id) (
                member (codes "phase") (marshal_text (phase_text j.phase)) (
                  member (codes "old_backend") (marshal_text j.old_backend) (
                    member (codes "old_revision") (marshal_text j.old_revision) (
                      omit_empty (codes "old_intent_digest") marshal_text j.old_intent_digest (
                        member (codes "candidate_backend") (marshal_text j.candidate_backend) (
                          member (codes "candidate_revision") (marshal_text j.candidate_revision) (
                            omit_empty (codes "candidate_intent_digest") marshal_text
                              j.candidate_intent_digest
                              (member (codes "old_pin_present") (bool j.old_pin_present) (
                                member (codes "old_pin_digest") (marshal_text j.old_pin_digest)
                                  end))))))))))))))

  -- Every text of the journal is UTF-8.
  pub record IsText (j : RebuildJournal) : Type 0 where
    pub domain_text : coerce j.domain ≡ j.domain
    pub name_text : coerce j.session_name ≡ j.session_name
    pub id_text : coerce j.session_id ≡ j.session_id
    pub operation_text : coerce j.operation_id ≡ j.operation_id
    pub phase_is_text : coerce (phase_text j.phase) ≡ phase_text j.phase
    pub old_text : coerce j.old_backend ≡ j.old_backend
    pub old_revision_text : coerce j.old_revision ≡ j.old_revision
    pub old_intent_text : coerce j.old_intent_digest ≡ j.old_intent_digest
    pub candidate_text : coerce j.candidate_backend ≡ j.candidate_backend
    pub candidate_revision_text : coerce j.candidate_revision ≡ j.candidate_revision
    pub candidate_intent_text : coerce j.candidate_intent_digest ≡ j.candidate_intent_digest
    pub pin_text : coerce j.old_pin_digest ≡ j.old_pin_digest

  phase_of-phase_text : (p : RebuildPhase) → is_known p ≡ true → phase_of (phase_text p) ≡ p
  unfolding phase_of phase_text eqb
  phase_of-phase_text (RebuildPhase.other _) h = cc
  phase_of-phase_text _ h = refl

  validate-facts :
      (j : RebuildJournal)
      → validate_rebuild_journal j ≡ ok tt
      → (j.version ≡ 1) × (is_known j.phase ≡ true)
  unfolding validate_rebuild_journal binding_fits
  validate-facts j h = ground arith

  module _ (v : ℕ) (d n s o : Bytes) (p : RebuildPhase) (b br c cr : Bytes) (pp : Bool)
      (pd : Bytes) where
    abbrev make : Bytes → Bytes → RebuildJournal
    make oi ci = record {
      version = v;
      domain = d;
      session_name = n;
      session_id = s;
      operation_id = o;
      phase = p;
      old_backend = b;
      old_revision = br;
      old_intent_digest = oi;
      candidate_backend = c;
      candidate_revision = cr;
      candidate_intent_digest = ci;
      old_pin_present = pp;
      old_pin_digest = pd;
    }

    decode-marshal_parts :
        (oi ci : Bytes)
        → IsText (make oi ci)
        → validate_rebuild_journal (make oi ci) ≡ ok tt
        → v ≡ 1
        → phase_of (phase_text p) ≡ p
        → decode_rebuild_journal (marshal_journal (make oi ci)) ≡ ok (make oi ci)
    unfolding decode_rebuild_journal marshal_journal eqb
    decode-marshal_parts [] [] t h hv hp = ground arith
    decode-marshal_parts _ _ t h hv hp = ground arith

  -- A valid journal of UTF-8 texts is read back as it was written.
  pub decode_rebuild_journal-marshal_journal :
      (j : RebuildJournal)
      → IsText j
      → validate_rebuild_journal j ≡ ok tt
      → decode_rebuild_journal (marshal_journal j) ≡ ok j
  decode_rebuild_journal-marshal_journal j t h =
      let (one, known) = validate-facts j h in
      decode-marshal_parts j.version j.domain j.session_name j.session_id j.operation_id j.phase
        j.old_backend j.old_revision j.candidate_backend j.candidate_revision j.old_pin_present
        j.old_pin_digest j.old_intent_digest j.candidate_intent_digest t h one
        (phase_of-phase_text j.phase known)
