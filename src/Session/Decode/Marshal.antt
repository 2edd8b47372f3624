-- ===== src/Session/Decode/Marshal.antt =====
-- marshalRecord of internal/session/store.go, and that the reader takes back what it writes.
-- encoding/json replaces what is not UTF-8 in a text: `coerce` is what a text has become when it
-- was written and read.
use boxwarden.Prelude.{Bytes, [], arith, codes, eqb, if◌then◌else◌, not, ok, true, ◌==◌, ◌∷◌, ◌≡◌}
use boxwarden.Ident.{valid_backend_object_id}
use boxwarden.Json.{Json, Members, end, member, num, obj, str}
use boxwarden.Session.Decode.{decode_backend, decode_readiness, decode_readiness_field}
use boxwarden.Session.Types.{
  BackendRef, ReadinessRecord, SessionRecord, mode_text, state_text, status_of, status_text, tart,
}

-- A field with `omitempty`.
abbrev pub omit_empty : Bytes → Bytes → Members → Members
omit_empty k [] ms = ms
omit_empty k (c ∷ cs) ms = member k (str (c ∷ cs)) ms

module _ (coerce : Bytes → Bytes) where
  unfoldable pub marshal_backend : BackendRef → Json
  marshal_backend b = obj (
      member (codes "kind") (str (coerce b.kind))
        (member (codes "object_id") (str (coerce b.object_id)) end))

  unfoldable pub marshal_readiness : ReadinessRecord → Json
  unfolding status_text
  marshal_readiness r = obj (
      member (codes "status") (str (coerce (status_text r.status)))
        (member (codes "diagnostic") (str (coerce r.diagnostic)) end))

  -- The fields that both versions have, in front of the rest.
  unfoldable pub marshal_common : SessionRecord → Members → Json
  unfolding mode_text state_text marshal_backend
  marshal_common r rest = obj (
      member (codes "version") (num r.version) (
        member (codes "domain") (str (coerce r.domain)) (
          member (codes "name") (str (coerce r.name)) (
            member (codes "id") (str (coerce r.id)) (
              member (codes "mode") (str (coerce (mode_text r.mode))) (
                member (codes "intended_state") (str (coerce (state_text r.intended_state))) (
                  member (codes "backend") (marshal_backend r.backend)
                    (omit_empty (codes "golden_revision") (coerce r.golden_revision) rest))))))))

  unfoldable pub marshal_record : SessionRecord → Json
  unfolding marshal_common marshal_readiness
  marshal_record r =
      if not (r.version == 1)
      then marshal_common r (
          omit_empty (codes "recipe_intent_digest") (coerce r.recipe_intent_digest) (
            omit_empty (codes "start_generation") (coerce r.start_generation)
              (member (codes "readiness") (marshal_readiness r.readiness) end)))
      else marshal_common r end

  -- Every text of the record is UTF-8.
  pub record IsText (r : SessionRecord) : Type 0 where
    pub domain_text : coerce r.domain ≡ r.domain
    pub name_text : coerce r.name ≡ r.name
    pub id_text : coerce r.id ≡ r.id
    pub mode_is_text : coerce (mode_text r.mode) ≡ mode_text r.mode
    pub state_is_text : coerce (state_text r.intended_state) ≡ state_text r.intended_state
    pub kind_text : coerce r.backend.kind ≡ r.backend.kind
    pub object_text : coerce r.backend.object_id ≡ r.backend.object_id
    pub golden_text : coerce r.golden_revision ≡ r.golden_revision
    pub intent_text : coerce r.recipe_intent_digest ≡ r.recipe_intent_digest
    pub generation_text : coerce r.start_generation ≡ r.start_generation
    pub status_is_text : coerce (status_text r.readiness.status) ≡ status_text r.readiness.status
    pub diagnostic_text : coerce r.readiness.diagnostic ≡ r.readiness.diagnostic

  pub decode-marshal_backend :
      (b : BackendRef)
      → coerce b.kind ≡ b.kind
      → coerce b.object_id ≡ b.object_id
      → b.kind ≡ tart
      → valid_backend_object_id b.object_id ≡ true
      → decode_backend (marshal_backend b) ≡ ok b
  unfolding decode_backend marshal_backend eqb
  decode-marshal_backend b hk ho k o = ground arith

  pub decode-marshal_readiness :
      (r : ReadinessRecord)
      → coerce (status_text r.status) ≡ status_text r.status
      → coerce r.diagnostic ≡ r.diagnostic
      → status_of (status_text r.status) ≡ r.status
      → decode_readiness (marshal_readiness r) ≡ ok r
  unfolding decode_readiness_field decode_readiness marshal_readiness eqb
  decode-marshal_readiness r hs hd k = rw (hs, hd, k)
