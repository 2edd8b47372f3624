-- ===== src/Session/Decode/Sound.antt =====
-- Whatever document is read, a record that comes out is one that the schema admits.
use boxwarden.Prelude.{
  Bytes, Option-cases, [], arith, bind-eq-ok, eqb_iff, false, inl, inr, ok, refl, true, ℕ, ◌==◌,
  ◌||◌, ◌≡◌, ◌≢◌, ◌⊎◌,
}
use boxwarden.Ident.{parse_domain, parse_name, valid_backend_object_id, valid_uuid}
use boxwarden.Ident.Names.{parse_domain_self, parse_name_self}
use boxwarden.Json.{Json, decode_object-keeps, str}
use boxwarden.Session.Decode.{
  Field, Reading, check_common, check_v2, decode_backend, decode_record, decode_record_field,
  field_of, finish_backend, finish_record, is_valid_mode, no_readiness, no_reading, set_field,
  valid_state, validate_readiness, validate_start_generation,
}
use boxwarden.Session.Decode.Valid.{IsV2, IsValid, generation_in_sound, readiness_in_sound}
use boxwarden.Session.Types.{BackendRef, SessionRecord, tart}

-- What the loop keeps of the fields that the checks behind it do not look at again.
record Kept (p : Reading) : Type 0 where
  domain_parses : p.got_domain ≡ true → parse_domain p.rec.domain ≡ ok p.rec.domain
  name_parses : p.got_name ≡ true → parse_name p.rec.name ≡ ok p.rec.name
  backend_tart : p.got_backend ≡ true → p.rec.backend.kind ≡ tart
  backend_object : p.got_backend ≡ true → valid_backend_object_id p.rec.backend.object_id ≡ true
  no_intent : p.got_intent ≡ false → p.rec.recipe_intent_digest ≡ []
  no_generation : p.got_generation ≡ false → p.rec.start_generation ≡ []
  readiness_zero : p.got_readiness ≡ false → p.rec.readiness ≡ no_readiness

no_reading-Kept : Kept no_reading
no_reading-Kept = record {
  domain_parses = λ e. cc;
  name_parses = λ e. cc;
  backend_tart = λ e. cc;
  backend_object = λ e. cc;
  no_intent = λ e. refl;
  no_generation = λ e. refl;
  readiness_zero = λ e. refl;
}

decode_backend-valid :
    (v : Json) {b : BackendRef}
    → decode_backend v ≡ ok b
    → (b.kind ≡ tart) × (valid_backend_object_id b.object_id ≡ true)
unfolding decode_backend
decode_backend-valid v {b} e =
    let (t, got, fin) = bind-eq-ok _ finish_backend e in ground (arith, eqb_iff t.0.kind tart)

-- The text that a string field reads.
abbrev text_in : Json → Bytes
text_in (str s) = s
text_in _ = []

set_field-Kept : (f : Field) (v : Json) (p q : Reading) → Kept p → set_field f v p ≡ ok q → Kept q
unfolding set_field
set_field-Kept Field.version v p q h e = ground arith
set_field-Kept Field.domain v p q h e =
    let d = parse_domain_self (text_in v) in ground (arith, d q.rec.domain)
set_field-Kept Field.name v p q h e =
    let n = parse_name_self (text_in v) in ground (arith, n q.rec.name)
set_field-Kept Field.id v p q h e = ground arith
set_field-Kept Field.mode v p q h e = ground arith
set_field-Kept Field.intended_state v p q h e = ground arith
set_field-Kept Field.backend v p q h e = ground (arith, decode_backend-valid v {b = q.rec.backend})
set_field-Kept Field.golden_revision v p q h e = ground arith
set_field-Kept Field.recipe_intent_digest v p q h e = ground arith
set_field-Kept Field.start_generation v p q h e = ground arith
set_field-Kept Field.readiness v p q h e = ground arith

decode_record_field-Kept :
    (k : Bytes) (v : Json) (p q : Reading) → Kept p → decode_record_field k v p ≡ ok q → Kept q
unfolding decode_record_field
decode_record_field-Kept k v p q h e = elim (Option-cases (field_of k)) [
  | inl unknown ↦ cc (rw (unknown, decode_record_field) at e)
  | inr (f, known) ↦ set_field-Kept f v p q h (rw (known, decode_record_field) at e)
]

version_split : (n : ℕ) → (n == 1 || n == 2) ≡ true → (n ≡ 1) ⊎ (n ≡ 2)
version_split n h = ground arith

check_common-facts :
    (p : Reading)
    → Kept p
    → check_common p ≡ true
    → (parse_domain p.rec.domain ≡ ok p.rec.domain)
      × (parse_name p.rec.name ≡ ok p.rec.name)
      × (valid_uuid p.rec.id ≡ true)
      × (is_valid_mode p.rec.mode ≡ true)
      × (valid_state p.rec.intended_state ≡ true)
      × (p.rec.backend.kind ≡ tart)
      × (valid_backend_object_id p.rec.backend.object_id ≡ true)
      × ((p.rec.version ≡ 1) ⊎ (p.rec.version ≡ 2))
unfolding check_common
check_common-facts p h e = ground (arith, version_split p.rec.version)

check_v2-IsV2 : (p : Reading) → Kept p → p.rec.version ≡ 2 → check_v2 p ≡ ok tt → IsV2 p.rec
unfolding check_v2 validate_start_generation validate_readiness
check_v2-IsV2 p h two e = record {
  version_is = two;
  golden = ground arith;
  intent = ground arith;
  generation = generation_in_sound p.rec.intended_state p.rec.start_generation (ground arith);
  diagnostic_bounded = ground arith;
  readiness_fits =
      readiness_in_sound p.rec.readiness.status p.rec.intended_state p.rec.start_generation
        (ground arith);
}

finish_record-versioned :
    (p : Reading) {r : SessionRecord}
    → Kept p
    → finish_record p ≡ ok r
    → (p.rec ≡ r)
      × (check_common p ≡ true)
      × (((p.rec.version ≡ 1)
            × (p.got_generation ≡ false)
            × (p.got_readiness ≡ false)
            × (p.got_intent ≡ false))
          ⊎ ((p.rec.version ≢ 1) × (check_v2 p ≡ ok tt)))
unfolding finish_record
finish_record-versioned p h e = ground arith

not_one : (n : ℕ) → (n ≡ 1) ⊎ (n ≡ 2) → n ≢ 1 → n ≡ 2
not_one n h k = ground arith

finish_record-IsValid :
    (p : Reading) {r : SessionRecord} → Kept p → finish_record p ≡ ok r → IsValid r
finish_record-IsValid p {r} h e =
    let (e_rec, common, rest) = finish_record-versioned p h e in
    let (d, n, i, m, s, bk, bo, v) = check_common-facts p h common in
    rw (← e_rec) (record {
      domain_parses = d;
      name_parses = n;
      id_valid = i;
      mode_known = m;
      state_known = s;
      backend_tart = bk;
      backend_object = bo;
      versioned = elim rest [
        | inl (one, g, rd, it) ↦ inl (record {
          version_is = one;
          no_intent = h.no_intent it;
          no_generation = h.no_generation g;
          readiness_zero = h.readiness_zero rd;
        })
        | inr (ne, c) ↦ inr (check_v2-IsV2 p h (not_one p.rec.version v ne) c)
      ];
    })

-- A record is read from a document, hostile or not, only if it is valid: parsed names, a
-- lower-case UUID, a known mode and state, a Tart object, and then either version 1 with no field
-- of version 2, or version 2 with a golden revision, a digest that is absent or a SHA-256, a
-- generation exactly in the active states, a diagnostic of at most 1024 bytes, and a readiness
-- status that fits the state.
pub decode_record-IsValid : (d : Json) {r : SessionRecord} → decode_record d ≡ ok r → IsValid r
unfolding decode_record
decode_record-IsValid d e =
    let (p, loop, fin) = bind-eq-ok _ finish_record e in
    finish_record-IsValid p
      (decode_object-keeps decode_record_field Kept decode_record_field-Kept d no_reading p
        no_reading-Kept loop)
      fin
