-- ===== src/Tests/DeletionRuns.antt =====
-- A whole deletion with its gate and finalizer.
-- The object is gone once the deleter has left its trace in the fates of the coming writes.
use boxwarden.Prelude.{Bytes, List, Outcome, [], ap, arith, err, false, ok, refl, true, ◌∷◌, ◌≡◌}
use boxwarden.Backend.{ObjectState, Observation}
use boxwarden.Runtime.{wired}
use boxwarden.Runtime.Deletion.{Releases, delete_locked_complete, wired-Gates}
use boxwarden.Services.{Services}
use boxwarden.Session.Decode.Marshal.{marshal_record}
use boxwarden.Session.Delete.{as_deleting, delete_locked}
use boxwarden.Session.Delete.Deleted.{Deleted}
use boxwarden.Session.Delete.Reserved.{Gates}
use boxwarden.Session.Outside.{Outside}
use boxwarden.Session.Store.{load_session}
use boxwarden.Session.Types.{SessionRecord}
use boxwarden.Tests.Outside.{batch_code, quiet, seen_stopped, transition_code, with_session}
use boxwarden.Tests.Sample.{dev, plain, session_code, stopped_dev, work}
use boxwarden.Tests.Volumes.{attached_volume, volume_code}
use boxwarden.Workspace.Attached.Selected.{Each}
use boxwarden.Workspace.Batch.{attached_volumes}
use boxwarden.Workspace.Batch.Finalize.{finalize_locked}
use boxwarden.Workspace.Batch.Finalized.{Detached, finalize_locked-Detached}
use boxwarden.Workspace.Batch.Loops.{Holds, Kept}
use boxwarden.Workspace.Decode.Marshal.{IsText}
use boxwarden.Workspace.Transition.Stopped.{Watches}
use boxwarden.World.{Fate, World, json_name}

abbrev pub seen_by : List Fate → Bytes → Observation
seen_by [] id = record seen_stopped { object_id = id }
seen_by (_ ∷ _) id = record {
  object_id = id;
  exists = false;
  state = ObjectState.unknown;
  diagnostic = [];
}

abbrev watching : Services
watching = record quiet { observe = λ id w. (ok (seen_by w.fates id), w) }

abbrev pub deleter : Outside
deleter = record {
  observe = λ id w. (ok (seen_by w.fates id), w);
  acquire_transition = λ d n w. (ok tt, w);
  acquire_session = λ d n w. (ok tt, w);
  release_session = λ w. (ok tt, w);
  release_transition = λ w. (ok tt, w);
  quiesced = λ r w. (ok true, w);
  stop_generation = λ r w. (ok [], w);
  release_uses = λ r w. (ok tt, w);
  delete_object = λ id w. (ok tt, record w { fates = Fate.durable ∷ [] });
  delete_gate = λ r k. k;
  finalize = λ r w. (ok tt, w);
  coerce = plain;
}

watching-Releases : Releases watching deleter
watching-Releases = record {
  batch_sessions = λ w. refl;
  batch_volumes = λ w. refl;
  session_kept = λ w. refl;
}

wired-Gates_example : Gates (wired watching work deleter)
wired-Gates_example = wired-Gates watching work deleter watching-Releases

abbrev deleting : Outcome (Unit {0}) × World
deleting = delete_locked (wired watching work deleter) work dev (with_session attached_volume)

deleting_runs : deleting.0 ≡ ok tt
unfolding session_code volume_code transition_code batch_code delete_locked
deleting_runs = refl

delete_locked_complete_example :
    (g : Deleted (wired watching work deleter) work dev (with_session attached_volume) deleting.1)
    × (load_session work dev deleting.1 ≡ err)
    × (attached_volumes watching work g.deleting deleting.1 ≡ ok [])
delete_locked_complete_example =
    delete_locked_complete watching work deleter watching-Releases dev
      (with_session attached_volume) deleting.1 (ap (λ o. (o, deleting.1)) deleting_runs)

abbrev deleting_dev : SessionRecord
deleting_dev = as_deleting deleter work stopped_dev

abbrev marked_world : World
marked_world = record (with_session attached_volume) {
  sessions = (json_name dev, marshal_record plain deleting_dev) ∷ [];
  fates = Fate.durable ∷ [];
}

abbrev finishing : Outcome (Unit {0}) × World
finishing = finalize_locked watching work deleting_dev (attached_volume ∷ []) marked_world

finishing_runs : finishing.0 ≡ ok tt
unfolding session_code volume_code transition_code batch_code
finishing_runs = refl

watching-Watches : Watches watching
watching-Watches = record { volumes_kept = λ id w. refl }

attached-IsText_here : IsText plain attached_volume
attached-IsText_here = record {
  domain_text = refl;
  volume_text = refl;
  format_text = refl;
  filesystem_text = refl;
  state_is_text = refl;
  attachment_text = (refl, refl, refl);
  use_text = tt;
  pending_text = tt;
  disk_fits = (omega arith, omega arith);
}

finalize_locked-Detached_example :
    Each
      (λ r.
        Holds watching work (Detached watching work (attached_volume ∷ [])) r.volume_id finishing.1)
      (attached_volume ∷ [])
    × ((v : Bytes)
        → Kept watching work
            (Detached watching work (attached_volume ∷ []))
            v
            marked_world
            finishing.1)
finalize_locked-Detached_example =
    finalize_locked-Detached watching work watching-Watches deleting_dev (attached_volume ∷ [])
      marked_world finishing.1 (attached-IsText_here, tt)
      (ap (λ o. (o, finishing.1)) finishing_runs)
