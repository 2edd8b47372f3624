-- ===== src/Tests/LifecycleRuns.antt =====
-- Stopping and deleting sessions.
use boxwarden.Prelude.{Bytes, Outcome, [], ap, false, ok, refl, true, ◌∷◌, ◌≡◌, ◌⊎◌}
use boxwarden.Backend.{ObjectState, Observation}
use boxwarden.Ident.{valid_uuid}
use boxwarden.Json.{Json}
use boxwarden.Session.Decode.Marshal.{marshal_record}
use boxwarden.Session.Delete.{delete_locked, reserve_deletion}
use boxwarden.Session.Delete.Deleted.{Deleted, delete_locked-Deleted}
use boxwarden.Session.Delete.Reserved.{Gates}
use boxwarden.Session.Outside.{Outside}
use boxwarden.Session.Rebuild.Registry.{load_rebuild_journal, require_no_rebuild}
use boxwarden.Session.Stop.{finish_stopped, persist_stopping, stop, stop_locked}
use boxwarden.Session.Stop.Finished.{Settled, StoppedAt, finish_stopped-Settled}
use boxwarden.Session.Stop.Stopped.{IsStopped, Live, stop_locked-IsStopped}
use boxwarden.Session.Store.{load_record}
use boxwarden.Session.Types.{IntendedState, ReadinessStatus, SessionRecord}
use boxwarden.Tests.Outside.{seen_stopped}
use boxwarden.Tests.Sample.{dev, empty_world, plain, session_code, stopped_dev, uuid_b, work}
use boxwarden.World.{Dir, World, find_file, json_name, put_file}

-- Everything succeeds at once, and every object is seen stopped.
abbrev pub calm : Outside
calm = record {
  observe = λ id w. (ok (record seen_stopped { object_id = id }), w);
  acquire_transition = λ d n w. (ok tt, w);
  acquire_session = λ d n w. (ok tt, w);
  release_session = λ w. (ok tt, w);
  release_transition = λ w. (ok tt, w);
  quiesced = λ r w. (ok true, w);
  stop_generation = λ r w. (ok [], w);
  release_uses = λ r w. (ok tt, w);
  delete_object = λ id w. (ok tt, w);
  delete_gate = λ r k w. k w;
  finalize = λ r w. (ok tt, w);
  coerce = plain;
}

abbrev stopping_dev : SessionRecord
stopping_dev = record stopped_dev {
  intended_state = IntendedState.stopping;
  start_generation = uuid_b;
}

abbrev sessions_of : SessionRecord → World
sessions_of r = record empty_world { sessions = (json_name r.name, marshal_record plain r) ∷ [] }

abbrev finishing : Outcome SessionRecord × World
finishing = finish_stopped calm work dev stopping_dev [] (sessions_of stopping_dev)

finish-runs : finishing.0 ≡ ok stopped_dev
unfolding session_code finish_stopped find_file put_file
finish-runs = refl

abbrev running_dev : SessionRecord
running_dev = record stopping_dev {
  intended_state = IntendedState.running;
  readiness = record { status = ReadinessStatus.ready; diagnostic = [] };
}

-- A running session is stopped from its start to its end.
stop-runs : (stop calm work dev (sessions_of running_dev)).0 ≡ ok stopped_dev
unfolding session_code stop find_file put_file
stop-runs = refl

finish_stopped-Settled_example :
    ((calm.release_uses stopping_dev (sessions_of stopping_dev)).0 ≡ ok tt)
    × StoppedAt calm work dev stopping_dev (sessions_of stopping_dev)
    × Settled calm work stopping_dev stopped_dev [] (sessions_of stopping_dev) finishing.1
finish_stopped-Settled_example =
    finish_stopped-Settled calm work dev [] stopping_dev (sessions_of stopping_dev) finishing.1
      stopped_dev (ap (λ o. (o, finishing.1)) finish-runs)

abbrev stopping_live : Outcome SessionRecord × World
stopping_live = stop_locked calm work dev (sessions_of running_dev)

stop_locked-runs : stopping_live.0 ≡ ok stopped_dev
unfolding session_code stop_locked find_file put_file
stop_locked-runs = refl

stop_locked-IsStopped_example :
    (old : SessionRecord) × (load_record work dev (sessions_of running_dev) ≡ ok old)
    × ((old.intended_state ≡ IntendedState.stopped)
        ⊎ (Live calm work old.intended_state × (valid_uuid old.start_generation ≡ true)))
    × IsStopped calm work old stopped_dev
stop_locked-IsStopped_example =
    stop_locked-IsStopped calm work dev (sessions_of running_dev) stopping_live.1 stopped_dev
      (ap (λ o. (o, stopping_live.1)) stop_locked-runs)

abbrev marking : Outcome SessionRecord × World
marking = persist_stopping calm work running_dev (sessions_of running_dev)

marking-runs : marking.0 ≡ ok stopping_dev
unfolding session_code persist_stopping find_file put_file
marking-runs = refl

calm-Gates : Gates calm
calm-Gates = record { gate_runs = λ r k w h. (w, h, refl); release_keeps = λ w. refl }

abbrev deleting_dev : SessionRecord
deleting_dev = record stopped_dev { intended_state = IntendedState.deleting }

abbrev reserving_deletion : Outcome SessionRecord × World
reserving_deletion = reserve_deletion calm work dev stopped_dev (sessions_of stopped_dev)

reserve_deletion-runs : reserving_deletion.0 ≡ ok deleting_dev
unfolding session_code reserve_deletion find_file put_file
reserve_deletion-runs = refl

-- An object that nothing but the deleter removes: it is seen while a volume is there, for the test.
abbrev seen_in : Bytes → Dir → Observation
seen_in id [] = record {
  object_id = id;
  exists = false;
  state = ObjectState.unknown;
  diagnostic = [];
}
seen_in id (x ∷ d) = record seen_stopped { object_id = id }

abbrev removing : Outside
removing = record calm {
  observe = λ id w. (ok (seen_in id w.workspaces), w);
  delete_object = λ id w. (ok tt, record w { workspaces = [] });
}

abbrev beside_object : World
beside_object = record (sessions_of stopped_dev) { workspaces = (dev, Json.null) ∷ [] }

delete-runs : (delete_locked removing work dev beside_object).0 ≡ ok tt
unfolding session_code delete_locked find_file put_file load_rebuild_journal require_no_rebuild
delete-runs = refl

delete_locked-Deleted_example :
    Deleted removing work dev beside_object (delete_locked removing work dev beside_object).1
delete_locked-Deleted_example =
    delete_locked-Deleted removing work
      (record { gate_runs = λ r k w h. (w, h, refl); release_keeps = λ w. refl }) dev beside_object
      (delete_locked removing work dev beside_object).1
      (ap (λ o. (o, (delete_locked removing work dev beside_object).1)) delete-runs)
