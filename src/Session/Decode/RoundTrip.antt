-- ===== src/Session/Decode/RoundTrip.antt =====
-- The reader takes back every valid record that is written.
use boxwarden.Prelude.{Bytes, [], arith, eqb, inl, inr, ok, refl, subst, true, ℕ, ◌∷◌, ◌≡◌, ◌⊎◌}
use boxwarden.Ident.{lower_sha256, parse_domain, parse_name, valid_backend_object_id, valid_uuid}
use boxwarden.Session.Decode.{
  decode_backend, decode_readiness, decode_record, is_valid_mode, no_readiness, valid_state,
  validate_readiness, validate_start_generation,
}
use boxwarden.Session.Decode.Marshal.{
  IsText, decode-marshal_backend, decode-marshal_readiness, marshal_backend, marshal_readiness,
  marshal_record,
}
use boxwarden.Session.Decode.Valid.{
  IsReadyIn, IsV1, IsV2, IsValid, drifted, ending, generation_in_complete, idle, launching,
  readiness_in_complete, serving,
}
use boxwarden.Session.Types.{
  BackendRef, IntendedState, Mode, ReadinessRecord, ReadinessStatus, SessionRecord, mode_of,
  mode_text, state_of, state_text, status_of, status_text,
}

mode_of-mode_text : (m : Mode) → is_valid_mode m ≡ true → mode_of (mode_text m) ≡ m
unfolding mode_of mode_text eqb
mode_of-mode_text Mode.clean h = refl
mode_of-mode_text Mode.quarantine h = refl
mode_of-mode_text (Mode.other _) h = cc

state_of-state_text : (s : IntendedState) → valid_state s ≡ true → state_of (state_text s) ≡ s
unfolding state_of state_text valid_state eqb
state_of-state_text (IntendedState.other _) h = cc
state_of-state_text _ h = refl

status_of-status_text :
    {t : ReadinessStatus} {s : IntendedState} {g : Bytes}
    → IsReadyIn t s g
    → status_of (status_text t) ≡ t
unfolding status_of status_text eqb
status_of-status_text (idle _) = refl
status_of-status_text ending = refl
status_of-status_text launching = refl
status_of-status_text serving = refl
status_of-status_text drifted = refl

-- The facts of a valid record of either version, as the tests of the reader ask for them.
record Passes (coerce : Bytes → Bytes) (r : SessionRecord) : Type 0 where
  text : IsText coerce r
  domain_parses : parse_domain r.domain ≡ ok r.domain
  name_parses : parse_name r.name ≡ ok r.name
  id_valid : valid_uuid r.id ≡ true
  mode_known : is_valid_mode r.mode ≡ true
  state_known : valid_state r.intended_state ≡ true
  backend_back : decode_backend (marshal_backend coerce r.backend) ≡ ok r.backend
  mode_back : mode_of (mode_text r.mode) ≡ r.mode
  state_back : state_of (state_text r.intended_state) ≡ r.intended_state

module _ (coerce : Bytes → Bytes) (d n i : Bytes) (m : Mode) (s : IntendedState)
    (b : BackendRef) where
  abbrev v1 : Bytes → SessionRecord
  v1 g = record {
    version = 1;
    domain = d;
    name = n;
    id = i;
    mode = m;
    intended_state = s;
    backend = b;
    golden_revision = g;
    recipe_intent_digest = [];
    start_generation = [];
    readiness = no_readiness;
  }

  decode-marshal_v1 :
      (g : Bytes) → Passes coerce (v1 g) → decode_record (marshal_record coerce (v1 g)) ≡ ok (v1 g)
  unfolding decode_record marshal_record eqb
  decode-marshal_v1 [] p = ground arith
  decode-marshal_v1 (c ∷ cs) p = ground arith

  module _ (g : Bytes) (rd : ReadinessRecord) where
    abbrev v2 : Bytes → Bytes → SessionRecord
    v2 it gen = record {
      version = 2;
      domain = d;
      name = n;
      id = i;
      mode = m;
      intended_state = s;
      backend = b;
      golden_revision = g;
      recipe_intent_digest = it;
      start_generation = gen;
      readiness = rd;
    }

    decode-marshal_v2 :
        (it gen : Bytes)
        → Passes coerce (v2 it gen)
        → (c : ℕ) (cs : Bytes) → g ≡ c ∷ cs
        → valid_backend_object_id g ≡ true
        → decode_readiness (marshal_readiness coerce rd) ≡ ok rd
        → (it ≡ []) ⊎ (lower_sha256 it ≡ true)
        → validate_start_generation (v2 it gen) ≡ ok tt
        → validate_readiness (v2 it gen) ≡ ok tt
        → decode_record (marshal_record coerce (v2 it gen)) ≡ ok (v2 it gen)
    unfolding decode_record marshal_record eqb
    decode-marshal_v2 [] [] p c cs hc hg hr hi hs hv = ground arith
    decode-marshal_v2 _ _ p c cs hc hg hr hi hs hv = ground arith

object_id-cons :
    (g : Bytes) → valid_backend_object_id g ≡ true → (c : ℕ) × (cs : Bytes) × (g ≡ c ∷ cs)
unfolding valid_backend_object_id
object_id-cons [] h = cc
object_id-cons (c ∷ cs) h = (c, cs, refl)

IsValid-Passes :
    (coerce : Bytes → Bytes) (r : SessionRecord) → IsText coerce r → IsValid r → Passes coerce r
IsValid-Passes coerce r t v = record {
  text = t;
  domain_parses = v.domain_parses;
  name_parses = v.name_parses;
  id_valid = v.id_valid;
  mode_known = v.mode_known;
  state_known = v.state_known;
  backend_back =
      decode-marshal_backend coerce r.backend t.kind_text t.object_text v.backend_tart
        v.backend_object;
  mode_back = mode_of-mode_text r.mode v.mode_known;
  state_back = state_of-state_text r.intended_state v.state_known;
}

IsV2-validates :
    (r : SessionRecord)
    → IsValid r
    → IsV2 r
    → (validate_start_generation r ≡ ok tt) × (validate_readiness r ≡ ok tt)
unfolding validate_start_generation validate_readiness
IsV2-validates r v w = ground (
  arith,
  generation_in_complete r.intended_state r.start_generation v.state_known w.generation,
  readiness_in_complete w.readiness_fits,
)

v1_eq :
    (r : SessionRecord)
    → IsV1 r
    → v1 (λ s. s) r.domain r.name r.id r.mode r.intended_state r.backend r.golden_revision ≡ r
v1_eq r w = ground arith

v2_eq :
    (r : SessionRecord)
    → IsV2 r
    → v2
        (λ s. s)
        r.domain
        r.name
        r.id
        r.mode
        r.intended_state
        r.backend
        r.golden_revision
        r.readiness
        r.recipe_intent_digest
        r.start_generation
      ≡ r
v2_eq r w = ground arith

-- Reading back what was written of a valid record whose texts are UTF-8 gives that record.
pub decode_record-marshal_record :
    (coerce : Bytes → Bytes) (r : SessionRecord)
    → IsText coerce r
    → IsValid r
    → decode_record (marshal_record coerce r) ≡ ok r
decode_record-marshal_record coerce r t v = elim v.versioned [
  | inl w ↦
      subst (λ x. decode_record (marshal_record coerce x) ≡ ok x) (v1_eq r w)
        (decode-marshal_v1 coerce r.domain r.name r.id r.mode r.intended_state r.backend
          r.golden_revision (rw (v1_eq r w) (IsValid-Passes coerce r t v)))
  | inr w ↦
      let (c, cs, e) = object_id-cons r.golden_revision w.golden in
      let (hs, hv) = IsV2-validates r v w in
      subst (λ x. decode_record (marshal_record coerce x) ≡ ok x) (v2_eq r w)
        (decode-marshal_v2 coerce r.domain r.name r.id r.mode r.intended_state r.backend
          r.golden_revision r.readiness r.recipe_intent_digest r.start_generation
          (rw (v2_eq r w) (IsValid-Passes coerce r t v)) c cs e w.golden
          (decode-marshal_readiness coerce r.readiness t.status_is_text t.diagnostic_text
            (status_of-status_text w.readiness_fits))
          w.intent (rw (v2_eq r w) hs) (rw (v2_eq r w) hv))
]
