-- ===== src/Session/Create.antt =====
-- create of internal/session/create.go, with reserveIntent, reconcileCreating, loadStoppedRevision,
-- requireStoppedGolden and validateCreatingIdentity. The tests that no dependency is missing, and
-- the hooks of the tests, are left out.
-- A base of internal/golden/record.go, as far as creation reads it.
pub mod Created
pub mod Fresh
pub mod Existing
use boxwarden.Prelude.{
  Bool, Bytes, Option, Outcome, [], bind, eqb, false, guard, if◌then◌else◌, is_empty, none, not, ok,
  same, some, true, ◌&&◌, ◌||◌,
}
use boxwarden.Backend.{Observation, is_stopped_object, is_unknown_object}
use boxwarden.Ident.{
  lower_sha256, object_id_for, parse_domain, parse_name, valid_backend_object_id, valid_uuid,
}
use boxwarden.Ident.Hex.{new_id}
use boxwarden.Session.Decode.{is_stopped}
use boxwarden.Session.Outside.{Outside}
use boxwarden.Session.Rebuild.Registry.{require_no_rebuild, require_unreserved_backend_object}
use boxwarden.Session.Stop.{observe_exact}
use boxwarden.Session.Store.{is_creating, load_record, save_record}
use boxwarden.Session.Types.{
  BackendRef, IntendedState, Mode, Mode-discrete, ReadinessStatus, SessionRecord, tart,
}
use boxwarden.World.{M, World, asks, fail, find_file, json_name, lift, pure, ◌>>=◌, ◌>>◌}

pub record Golden : Type 0 where
  pub revision : Bytes
  pub backend : BackendRef

-- What creation takes from outside, beside the session locks and the observer: the registry of
-- bases and its lock (internal/golden), recipe intents, the two mutations of the backend, and
-- random bytes.
pub record Creating : Type 0 where
  pub outside : Outside
  pub load_recipe_intent : Bytes → World → Outcome (Unit {0})
  pub acquire_golden : M (Unit {0})
  pub release_golden : M (Unit {0})
  pub load_current : World → Outcome Golden
  pub load_revision : Bytes → World → Outcome Golden
  pub clone : Bytes → Bytes → M (Unit {0})
  pub randomize_mac : Bytes → M (Unit {0})
  pub random : M Bytes

-- The record of a session that need not exist: a file that is missing is no error.
unfoldable pub load_existing : Bytes → Bytes → World → Outcome (Option SessionRecord)
load_existing d name w = elim (find_file (json_name name) w.sessions) [
  | none ↦ ok none
  | some _ ↦ bind (load_record d name w) (λ r. ok (some r))
]

unfoldable pub has_creating_identity : SessionRecord → Bool
unfolding object_id_for
has_creating_identity r =
    not (is_empty r.golden_revision)
    && eqb r.backend.kind tart
    && eqb r.backend.object_id (object_id_for r.domain r.id)

abbrev pub is_mode : Mode → Bool
is_mode Mode.clean = true
is_mode Mode.quarantine = true
is_mode (Mode.other _) = false

module _ (s : Creating) (domain_id : Bytes) where
  unfoldable pub at_rest : Bytes → M (Unit {0})
  unfolding observe_exact
  at_rest object_id = do
    o ← observe_exact s.outside domain_id object_id
    lift (guard (o.exists && is_stopped_object o.state))

  unfoldable pub require_stopped_golden : Golden → M (Unit {0})
  unfolding at_rest
  require_stopped_golden g = do
    lift (guard (eqb g.backend.kind tart && eqb g.backend.object_id g.revision))
    at_rest g.backend.object_id

  -- No lookup of a current base where a revision is named.
  abbrev pub select_golden : Bytes → World → Outcome Golden
  select_golden revision w =
      if is_empty revision then s.load_current w else s.load_revision revision w

  abbrev pub creating_record : Bytes → Mode → Bytes → Bytes → Bytes → SessionRecord
  creating_record name mode id revision digest = record {
    version = 2;
    domain = domain_id;
    name = name;
    id = id;
    mode = mode;
    intended_state = IntendedState.creating;
    backend = record { kind = tart; object_id = object_id_for domain_id id };
    golden_revision = revision;
    recipe_intent_digest = digest;
    start_generation = [];
    readiness = record { status = ReadinessStatus.not_ready; diagnostic = [] };
  }

  -- Under the lock of the bases: the identity is new and free, and the intent is written.
  unfoldable pub reserve_identity : Bytes → Mode → Bytes → Bytes → M SessionRecord
  unfolding observe_exact
  reserve_identity name mode revision digest = do
    source ← s.random
    id ← lift (new_id source)
    lift (guard (valid_uuid id))
    lift (guard (valid_backend_object_id (object_id_for domain_id id)))
    asks (require_unreserved_backend_object domain_id name (object_id_for domain_id id))
    o ← observe_exact s.outside domain_id (object_id_for domain_id id)
    lift (guard (not (o.exists || not (is_unknown_object o.state))))
    save_record s.outside.coerce domain_id (creating_record name mode id revision digest)
    pure (creating_record name mode id revision digest)

  unfoldable pub reserve_intent : Bytes → Mode → Bytes → Bytes → M SessionRecord
  unfolding require_stopped_golden reserve_identity
  reserve_intent name mode revision digest = do
    s.acquire_golden
    selected ← asks (select_golden revision)
    require_stopped_golden selected
    r ← reserve_identity name mode selected.revision digest
    s.release_golden
    pure r

  unfoldable pub load_stopped_revision : Bytes → M Golden
  unfolding require_stopped_golden
  load_stopped_revision revision = do
    s.acquire_golden
    selected ← asks (s.load_revision revision)
    require_stopped_golden selected
    s.release_golden
    pure selected

  unfoldable pub clone_into : SessionRecord → M (Unit {0})
  unfolding load_stopped_revision
  clone_into r = do
    selected ← load_stopped_revision r.golden_revision
    s.clone selected.backend.object_id r.backend.object_id

  -- An object that an earlier attempt has cloned is used as it is.
  unfoldable pub ensure_cloned : SessionRecord → Observation → M (Unit {0})
  unfolding clone_into
  ensure_cloned r o =
      if not o.exists && is_unknown_object o.state
      then clone_into r
      else if o.exists && is_stopped_object o.state
      then pure tt
      else fail

  abbrev pub as_created : SessionRecord → SessionRecord
  as_created r = record r { intended_state = IntendedState.stopped }

  abbrev pub check_intent : Bytes → M (Unit {0})
  check_intent digest = if is_empty digest then pure tt else asks (s.load_recipe_intent digest)

  unfoldable pub reconcile_creating : SessionRecord → M SessionRecord
  unfolding ensure_cloned at_rest observe_exact
  reconcile_creating r = do
    check_intent r.recipe_intent_digest
    o ← observe_exact s.outside domain_id r.backend.object_id
    ensure_cloned r o
    s.randomize_mac r.backend.object_id
    at_rest r.backend.object_id
    save_record s.outside.coerce r.domain (as_created r)
    pure (as_created r)

  -- The record is written again, since an earlier write may not have been synced.
  unfoldable pub persist_again : Bytes → SessionRecord → M SessionRecord
  persist_again name r = do
    save_record s.outside.coerce r.domain r
    asks (load_record domain_id name)

  unfoldable pub create_stopped : Bytes → SessionRecord → M SessionRecord
  unfolding at_rest persist_again
  create_stopped name r = at_rest r.backend.object_id >> persist_again name r

  unfoldable pub create_again : Bytes → SessionRecord → M SessionRecord
  unfolding has_creating_identity persist_again reconcile_creating
  create_again name r = do
    lift (guard (has_creating_identity r))
    again ← persist_again name r
    reconcile_creating again

  -- The existing session is the one that is asked for.
  unfoldable pub is_requested : SessionRecord → Mode → Bytes → Bytes → Bool
  is_requested r mode revision digest =
      same Mode-discrete r.mode mode
      && (is_empty revision || eqb r.golden_revision revision)
      && eqb r.recipe_intent_digest digest

  unfoldable pub create_existing :
      Bytes → Mode → Bytes → Bytes → Bool → SessionRecord → M SessionRecord
  unfolding is_requested create_stopped create_again
  create_existing name mode revision digest fresh_only r = do
    lift (guard (not fresh_only && is_requested r mode revision digest))
    if is_stopped r.intended_state
        then create_stopped name r
        else if is_creating r.intended_state
        then create_again name r
        else fail

  unfoldable pub create_found :
      Bytes → Mode → Bytes → Bytes → Bool → Option SessionRecord → M SessionRecord
  unfolding reserve_intent reconcile_creating create_existing
  create_found name mode revision digest fresh_only none =
      reserve_intent name mode revision digest >>= reconcile_creating
  create_found name mode revision digest fresh_only (some r) =
      create_existing name mode revision digest fresh_only r

  unfoldable pub create_locked : Bytes → Mode → Bytes → Bytes → Bool → M SessionRecord
  unfolding load_existing create_found
  create_locked name mode revision digest fresh_only = do
    check_intent digest
    asks (require_no_rebuild domain_id name)
    found ← asks (load_existing domain_id name)
    create_found name mode revision digest fresh_only found

  -- The deferred release: its error is the error of a run that had none.
  unfoldable pub create : Bytes → Mode → Bytes → Bytes → Bool → M SessionRecord
  unfolding create_locked
  create raw_name mode revision digest fresh_only = do
    parsed ← lift (parse_domain domain_id)
    lift (guard (eqb parsed domain_id))
    name ← lift (parse_name raw_name)
    lift (guard (is_mode mode))
    s.outside.acquire_session domain_id name
    r ← create_locked name mode revision digest fresh_only
    s.outside.release_session
    pure r

  -- The entry points: without a base, with one, with a recipe intent, and for a new name only.
  unfoldable pub create_current : Bytes → Mode → M SessionRecord
  unfolding create
  create_current raw_name mode = create raw_name mode [] [] false

  unfoldable pub create_from_revision : Bytes → Mode → Bytes → Bool → M SessionRecord
  unfolding create
  create_from_revision raw_name mode revision fresh_only = do
    lift (guard (valid_backend_object_id revision))
    create raw_name mode revision [] fresh_only

  unfoldable pub create_from_revision_with_intent :
      Bytes → Mode → Bytes → Bytes → Bool → M SessionRecord
  unfolding create
  create_from_revision_with_intent raw_name mode revision digest fresh_only = do
    lift (guard (valid_backend_object_id revision))
    lift (guard (lower_sha256 digest))
    create raw_name mode revision digest fresh_only
