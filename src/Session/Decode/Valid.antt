-- ===== src/Session/Decode/Valid.antt =====
-- The session records that the versioned schema admits.
use boxwarden.Prelude.{
  Bytes, [], arith, inl, inr, is_empty, length, ok, refl, true, ◌∷◌, ◌≡◌, ◌≤◌, ◌⊎◌,
}
use boxwarden.Ident.{lower_sha256, parse_domain, parse_name, valid_backend_object_id, valid_uuid}
use boxwarden.Session.Decode.{
  generation_in, is_running, is_starting, is_stopping, is_valid_mode, no_readiness, readiness_in,
  valid_state,
}
use boxwarden.Session.Types.{IntendedState, ReadinessStatus, SessionRecord, tart}

-- The states in which a generation of the backend is owned.
pub data IsActive : IntendedState → Type 0 where
  starting : IsActive IntendedState.starting
  running : IsActive IntendedState.running
  stopping : IsActive IntendedState.stopping

-- Which readiness status may stand beside which state and generation.
pub data IsReadyIn : ReadinessStatus → IntendedState → Bytes → Type 0 where
  idle : {s : IntendedState} {g : Bytes} → g ≡ [] → IsReadyIn ReadinessStatus.not_ready s g
  ending : {g : Bytes} → IsReadyIn ReadinessStatus.not_ready IntendedState.stopping g
  launching : {g : Bytes} → IsReadyIn ReadinessStatus.starting IntendedState.starting g
  serving : {g : Bytes} → IsReadyIn ReadinessStatus.ready IntendedState.running g
  drifted : {g : Bytes} → IsReadyIn ReadinessStatus.drift IntendedState.running g

pub record IsV1 (r : SessionRecord) : Type 0 where
  pub version_is : r.version ≡ 1
  pub no_intent : r.recipe_intent_digest ≡ []
  pub no_generation : r.start_generation ≡ []
  pub readiness_zero : r.readiness ≡ no_readiness

pub record IsV2 (r : SessionRecord) : Type 0 where
  pub version_is : r.version ≡ 2
  pub golden : valid_backend_object_id r.golden_revision ≡ true
  pub intent : (r.recipe_intent_digest ≡ []) ⊎ (lower_sha256 r.recipe_intent_digest ≡ true)
  pub generation :
      (IsActive r.intended_state × (valid_uuid r.start_generation ≡ true))
      ⊎ ((IsActive r.intended_state → ⊥) × (r.start_generation ≡ []))
  pub diagnostic_bounded : length r.readiness.diagnostic ≤ 1024
  pub readiness_fits : IsReadyIn r.readiness.status r.intended_state r.start_generation

pub record IsValid (r : SessionRecord) : Type 0 where
  pub domain_parses : parse_domain r.domain ≡ ok r.domain
  pub name_parses : parse_name r.name ≡ ok r.name
  pub id_valid : valid_uuid r.id ≡ true
  pub mode_known : is_valid_mode r.mode ≡ true
  pub state_known : valid_state r.intended_state ≡ true
  pub backend_tart : r.backend.kind ≡ tart
  pub backend_object : valid_backend_object_id r.backend.object_id ≡ true
  pub versioned : IsV1 r ⊎ IsV2 r

is_empty-eq : (s : Bytes) → is_empty s ≡ true → s ≡ []
is_empty-eq [] h = refl
is_empty-eq (_ ∷ _) h = cc

-- The two switches of the source decide the two descriptions.
pub generation_in_sound :
    (s : IntendedState) (g : Bytes)
    → generation_in s g ≡ true
    → (IsActive s × (valid_uuid g ≡ true)) ⊎ ((IsActive s → ⊥) × (g ≡ []))
unfolding generation_in
generation_in_sound IntendedState.starting g h = inl (starting, h)
generation_in_sound IntendedState.running g h = inl (running, h)
generation_in_sound IntendedState.stopping g h = inl (stopping, h)
generation_in_sound IntendedState.creating g h = inr (elim [ ], is_empty-eq g h)
generation_in_sound IntendedState.stopped g h = inr (elim [ ], is_empty-eq g h)
generation_in_sound IntendedState.deleting g h = inr (elim [ ], is_empty-eq g h)
generation_in_sound IntendedState.failed g h = inr (elim [ ], is_empty-eq g h)
generation_in_sound (IntendedState.other _) g h = inr (elim [ ], is_empty-eq g h)

pub generation_in_complete :
    (s : IntendedState) (g : Bytes)
    → valid_state s ≡ true
    → (IsActive s × (valid_uuid g ≡ true)) ⊎ ((IsActive s → ⊥) × (g ≡ []))
    → generation_in s g ≡ true
unfolding generation_in valid_state
generation_in_complete IntendedState.starting g v (inl (a, h)) = h
generation_in_complete IntendedState.running g v (inl (a, h)) = h
generation_in_complete IntendedState.stopping g v (inl (a, h)) = h
generation_in_complete IntendedState.creating g v (inl (a, h)) = elim a [ ]
generation_in_complete IntendedState.stopped g v (inl (a, h)) = elim a [ ]
generation_in_complete IntendedState.deleting g v (inl (a, h)) = elim a [ ]
generation_in_complete IntendedState.failed g v (inl (a, h)) = elim a [ ]
generation_in_complete (IntendedState.other _) g v (inl (a, h)) = cc
generation_in_complete IntendedState.starting g v (inr (n, h)) = absurd (n starting)
generation_in_complete IntendedState.running g v (inr (n, h)) = absurd (n running)
generation_in_complete IntendedState.stopping g v (inr (n, h)) = absurd (n stopping)
generation_in_complete IntendedState.creating g v (inr (n, h)) = rw h
generation_in_complete IntendedState.stopped g v (inr (n, h)) = rw h
generation_in_complete IntendedState.deleting g v (inr (n, h)) = rw h
generation_in_complete IntendedState.failed g v (inr (n, h)) = rw h
generation_in_complete (IntendedState.other _) g v (inr (n, h)) = cc

is_starting-eq : (s : IntendedState) → is_starting s ≡ true → s ≡ IntendedState.starting
is_starting-eq IntendedState.starting h = refl
is_starting-eq _ h = cc

is_running-eq : (s : IntendedState) → is_running s ≡ true → s ≡ IntendedState.running
is_running-eq IntendedState.running h = refl
is_running-eq _ h = cc

is_stopping-eq : (s : IntendedState) → is_stopping s ≡ true → s ≡ IntendedState.stopping
is_stopping-eq IntendedState.stopping h = refl
is_stopping-eq _ h = cc

pub readiness_in_sound :
    (t : ReadinessStatus) (s : IntendedState) (g : Bytes)
    → readiness_in t s g ≡ true
    → IsReadyIn t s g
unfolding readiness_in
readiness_in_sound ReadinessStatus.not_ready s [] h = idle refl
readiness_in_sound ReadinessStatus.not_ready s (c ∷ cs) h = rw (is_stopping-eq s h) ending
readiness_in_sound ReadinessStatus.starting s g h = rw (is_starting-eq s h) launching
readiness_in_sound ReadinessStatus.ready s g h = rw (is_running-eq s h) serving
readiness_in_sound ReadinessStatus.drift s g h = rw (is_running-eq s h) drifted
readiness_in_sound (ReadinessStatus.other _) s g h = cc

pub readiness_in_complete :
    {t : ReadinessStatus} {s : IntendedState} {g : Bytes}
    → IsReadyIn t s g
    → readiness_in t s g ≡ true
unfolding readiness_in
readiness_in_complete (idle e) = rw e
readiness_in_complete (ending {g}) = ground arith
readiness_in_complete launching = refl
readiness_in_complete serving = refl
readiness_in_complete drifted = refl
