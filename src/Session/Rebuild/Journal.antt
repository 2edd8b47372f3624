-- ===== src/Session/Rebuild/Journal.antt =====
-- The rebuild journal of internal/session/rebuild_journal.go, its validation and its decoder. The
-- witness of the old host-key pin, which needs SHA-256, is left out.
use boxwarden.Prelude.{
  Bool, Bytes, List, Outcome, [], bind, codes, eqb, err, false, guard, if◌then◌else◌, is_empty, not,
  ok, true, ℕ, ℕ_discrete, ◌&&◌, ◌==◌, ◌||◌, ◌∷◌,
}
use boxwarden.Ident.{
  lower_sha256, object_id_for, parse_domain, parse_name, valid_backend_object_id, valid_uuid,
}
use boxwarden.Json.{Json, contains, decode_bool, decode_int, decode_object, decode_string}

pub data RebuildPhase : Type 0 where
  reserved : RebuildPhase
  cloned : RebuildPhase
  cutover : RebuildPhase
  ready : RebuildPhase
  retiring : RebuildPhase
  other : Bytes → RebuildPhase

pub record RebuildJournal : Type 0 where
  pub version : ℕ
  pub domain : Bytes
  pub session_name : Bytes
  pub session_id : Bytes
  pub operation_id : Bytes
  pub phase : RebuildPhase
  pub old_backend : Bytes
  pub old_revision : Bytes
  pub old_intent_digest : Bytes
  pub candidate_backend : Bytes
  pub candidate_revision : Bytes
  pub candidate_intent_digest : Bytes
  pub old_pin_present : Bool
  pub old_pin_digest : Bytes

unfoldable pub Journal-discrete : Discrete RebuildJournal
Journal-discrete = hlevel ℕ_discrete

unfoldable pub phase_of : Bytes → RebuildPhase
phase_of s =
    if eqb s (codes "reserved")
    then RebuildPhase.reserved
    else if eqb s (codes "cloned")
    then RebuildPhase.cloned
    else if eqb s (codes "cutover")
    then RebuildPhase.cutover
    else if eqb s (codes "ready")
    then RebuildPhase.ready
    else if eqb s (codes "retiring")
    then RebuildPhase.retiring
    else RebuildPhase.other s

unfoldable pub phase_text : RebuildPhase → Bytes
phase_text RebuildPhase.reserved = codes "reserved"
phase_text RebuildPhase.cloned = codes "cloned"
phase_text RebuildPhase.cutover = codes "cutover"
phase_text RebuildPhase.ready = codes "ready"
phase_text RebuildPhase.retiring = codes "retiring"
phase_text (RebuildPhase.other s) = s

abbrev pub is_known : RebuildPhase → Bool
is_known (RebuildPhase.other _) = false
is_known _ = true

unfoldable pub binding_fits : RebuildJournal → Bool
binding_fits j =
    j.version == 1
    && valid_uuid j.session_id
    && valid_uuid j.operation_id
    && valid_backend_object_id j.old_backend
    && valid_backend_object_id j.old_revision
    && valid_backend_object_id j.candidate_backend
    && valid_backend_object_id j.candidate_revision
    && eqb j.candidate_backend (object_id_for j.domain j.operation_id)
    && not (eqb j.candidate_backend j.old_backend)

unfoldable pub digests_fit : RebuildJournal → Bool
digests_fit j =
    not (
      not j.old_pin_present && not (is_empty j.old_pin_digest)
      || j.old_pin_present && not (lower_sha256 j.old_pin_digest))
    && not (
        not (is_empty j.old_intent_digest) && not (lower_sha256 j.old_intent_digest)
        || not (is_empty j.candidate_intent_digest) && not (lower_sha256 j.candidate_intent_digest))

unfoldable pub validate_rebuild_journal : RebuildJournal → Outcome (Unit {0})
unfolding binding_fits digests_fit
validate_rebuild_journal j = bind (parse_domain j.domain) (λ parsed.
    if not (eqb parsed j.domain)
    then err
    else bind (parse_name j.session_name) (λ name.
      guard (eqb name j.session_name && binding_fits j && is_known j.phase && digests_fit j)))

-- The record so far, and which of the required fields have been seen.
pub record Reading : Type 0 where
  pub journal : RebuildJournal
  pub seen_fields : List Bytes

unfoldable pub decode_journal_field : Bytes → Json → RebuildJournal → Outcome RebuildJournal
decode_journal_field k v j =
    if eqb k (codes "version")
    then bind (decode_int v j.version) (λ n. ok (record j { version = n }))
    else if eqb k (codes "domain")
    then bind (decode_string v j.domain) (λ s. ok (record j { domain = s }))
    else if eqb k (codes "session_name")
    then bind (decode_string v j.session_name) (λ s. ok (record j { session_name = s }))
    else if eqb k (codes "session_id")
    then bind (decode_string v j.session_id) (λ s. ok (record j { session_id = s }))
    else if eqb k (codes "operation_id")
    then bind (decode_string v j.operation_id) (λ s. ok (record j { operation_id = s }))
    else if eqb k (codes "phase")
    then bind (decode_string v (phase_text j.phase)) (λ s. ok (record j { phase = phase_of s }))
    else if eqb k (codes "old_backend")
    then bind (decode_string v j.old_backend) (λ s. ok (record j { old_backend = s }))
    else if eqb k (codes "old_revision")
    then bind (decode_string v j.old_revision) (λ s. ok (record j { old_revision = s }))
    else if eqb k (codes "old_intent_digest")
    then bind (decode_string v j.old_intent_digest) (λ s. ok (record j { old_intent_digest = s }))
    else if eqb k (codes "candidate_backend")
    then bind (decode_string v j.candidate_backend) (λ s. ok (record j { candidate_backend = s }))
    else if eqb k (codes "candidate_revision")
    then bind (decode_string v j.candidate_revision) (λ s. ok (record j { candidate_revision = s }))
    else if eqb k (codes "candidate_intent_digest")
    then bind (decode_string v j.candidate_intent_digest)
        (λ s. ok (record j { candidate_intent_digest = s }))
    else if eqb k (codes "old_pin_present")
    then bind (decode_bool v j.old_pin_present) (λ b. ok (record j { old_pin_present = b }))
    else if eqb k (codes "old_pin_digest")
    then bind (decode_string v j.old_pin_digest) (λ s. ok (record j { old_pin_digest = s }))
    else err

-- The names of the members are collected for the test of the required ones.
unfoldable pub decode_field : Bytes → Json → Reading → Outcome Reading
unfolding decode_journal_field
decode_field k v p =
    bind (decode_journal_field k v p.journal)
      (λ j. ok (record { journal = j; seen_fields = k ∷ p.seen_fields }))

abbrev pub zero_journal : RebuildJournal
zero_journal = record {
  version = 0;
  domain = [];
  session_name = [];
  session_id = [];
  operation_id = [];
  phase = RebuildPhase.other [];
  old_backend = [];
  old_revision = [];
  old_intent_digest = [];
  candidate_backend = [];
  candidate_revision = [];
  candidate_intent_digest = [];
  old_pin_present = false;
  old_pin_digest = [];
}

abbrev pub required_fields : List Bytes
required_fields =
    codes "version"
    ∷ codes "domain"
    ∷ codes "session_name"
    ∷ codes "session_id"
    ∷ codes "operation_id"
    ∷ codes "phase"
    ∷ codes "old_backend"
    ∷ codes "old_revision"
    ∷ codes "candidate_backend"
    ∷ codes "candidate_revision"
    ∷ codes "old_pin_present"
    ∷ codes "old_pin_digest"
    ∷ []

unfoldable pub has_all : List Bytes → List Bytes → Bool
unfolding contains
has_all [] seen = true
has_all (k ∷ ks) seen = contains seen k && has_all ks seen

unfoldable pub decode_rebuild_journal : Json → Outcome RebuildJournal
unfolding decode_field has_all decode_object validate_rebuild_journal
decode_rebuild_journal doc =
    bind (decode_object decode_field doc (record { journal = zero_journal; seen_fields = [] }))
      (λ p.
        if not (has_all required_fields p.seen_fields)
        then err
        else bind (validate_rebuild_journal p.journal) (λ _. ok p.journal))
