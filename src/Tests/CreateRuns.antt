-- ===== src/Tests/CreateRuns.antt =====
-- Creating a session from the current base.
use boxwarden.Prelude.{
  Bytes, List, Outcome, [], ap, codes, eqb, false, if◌then◌else◌, ok, ok-injective, refl, sym, ◌∷◌,
  ◌≡◌,
}
use boxwarden.Backend.{ObjectState, Observation}
use boxwarden.Ident.{object_id_for}
use boxwarden.Ident.Hex.{new_id}
use boxwarden.Session.Create.{Creating, Golden, create_locked, reserve_identity}
use boxwarden.Session.Create.Created.{Created, Goldens}
use boxwarden.Session.Create.Existing.{create_locked-Created}
use boxwarden.Session.Create.Fresh.{Fresh, reserve_identity-Fresh}
use boxwarden.Session.Rebuild.Registry.{require_unreserved_backend_object}
use boxwarden.Session.Types.{
  BackendRef-discrete, IntendedState, Mode, Mode-discrete, SessionRecord, tart,
}
use boxwarden.Tests.LifecycleRuns.{calm}
use boxwarden.Tests.Outside.{seen_stopped, transition_code}
use boxwarden.Tests.Sample.{dev, empty_world, session_code, stopped_dev, work}
use boxwarden.Tests.Volumes.{volume_code}
use boxwarden.World.{Fate, World}

abbrev base : Bytes
base = codes "golden-1"

-- The base is stopped; a session's object is there once the clone has left its trace in the fates.
abbrev sees : Bytes → List Fate → Observation
sees id [] =
    if eqb id base
    then record seen_stopped { object_id = id }
    else record { object_id = id; exists = false; state = ObjectState.unknown; diagnostic = [] }
sees id (_ ∷ _) = record seen_stopped { object_id = id }

abbrev bytes_16 : Bytes
bytes_16 = 1 ∷ 2 ∷ 3 ∷ 4 ∷ 5 ∷ 6 ∷ 7 ∷ 8 ∷ 9 ∷ 10 ∷ 11 ∷ 12 ∷ 13 ∷ 14 ∷ 15 ∷ 16 ∷ []

abbrev golden_1 : Golden
golden_1 = record { revision = base; backend = record { kind = tart; object_id = base } }

abbrev pub cloner : Creating
cloner = record {
  outside = record calm { observe = λ id w. (ok (sees id w.fates), w) };
  load_recipe_intent = λ digest w. ok tt;
  acquire_golden = λ w. (ok tt, w);
  release_golden = λ w. (ok tt, w);
  load_current = λ w. ok golden_1;
  load_revision = λ r w. ok (record golden_1 { revision = r });
  clone = λ from to w. (ok tt, record w { fates = Fate.durable ∷ [] });
  randomize_mac = λ id w. (ok tt, w);
  random = λ w. (ok bytes_16, w);
}

cloner-Goldens : Goldens cloner
cloner-Goldens = record {
  revision_is = λ revision w g h. ap (λ x. x.revision) (sym (ok-injective _ _ h));
}

abbrev new_uuid : Bytes
new_uuid = codes "01020304-0506-4708-890a-0b0c0d0e0f10"

abbrev created_dev : SessionRecord
created_dev = record stopped_dev {
  id = new_uuid;
  backend = record {
    kind = tart;
    object_id = codes "boxwarden-work-0102030405064708890a0b0c0d0e0f10";
  };
}

abbrev creating_dev : Outcome SessionRecord × World
creating_dev = create_locked cloner work dev Mode.clean [] [] false empty_world

creating_runs : creating_dev.0 ≡ ok created_dev
unfolding session_code volume_code transition_code create_locked object_id_for new_id Mode-discrete
    BackendRef-discrete require_unreserved_backend_object
creating_runs = refl

create_locked-Created_example : Created cloner work dev Mode.clean [] [] created_dev creating_dev.1
create_locked-Created_example =
    create_locked-Created cloner work dev Mode.clean [] [] cloner-Goldens false created_dev
      empty_world creating_dev.1 (ap (λ o. (o, creating_dev.1)) creating_runs)

abbrev reserving_dev : Outcome SessionRecord × World
reserving_dev = reserve_identity cloner work dev Mode.clean base [] empty_world

abbrev reserved_dev : SessionRecord
reserved_dev = record created_dev { intended_state = IntendedState.creating }

reserving_runs : reserving_dev.0 ≡ ok reserved_dev
unfolding session_code volume_code transition_code create_locked object_id_for new_id Mode-discrete
    BackendRef-discrete require_unreserved_backend_object reserve_identity
reserving_runs = refl

reserve_identity-Fresh_example :
    Fresh cloner work dev Mode.clean base [] reserved_dev empty_world reserving_dev.1
reserve_identity-Fresh_example =
    reserve_identity-Fresh cloner work dev Mode.clean base [] reserved_dev empty_world
      reserving_dev.1 (ap (λ o. (o, reserving_dev.1)) reserving_runs)
