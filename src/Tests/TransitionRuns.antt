-- ===== src/Tests/TransitionRuns.antt =====
-- Transitions of volumes, and the reconciliation of sessions.
use boxwarden.Prelude.{
  Bytes, Option, Outcome, [], ap, arith, codes, length, none, ok, refl, some, true, ◌↔◌, ◌∷◌, ◌≡◌,
  ◌≤◌,
}
use boxwarden.Backend.{Consistency, ObjectState, reconcile, reconcile_iff}
use boxwarden.Session.Store.{load_session}
use boxwarden.Session.Types.{IntendedState, SessionRecord}
use boxwarden.Tests.Outside.{
  dev_use, quiet, seen_stopped, transition_code, used_volume, with_session,
}
use boxwarden.Tests.Sample.{dev, plain, session_code, uuid_a, work}
use boxwarden.Tests.Volumes.{attached_volume, free_volume, volume_code}
use boxwarden.Workspace.Attached.{list_session_attachments}
use boxwarden.Workspace.Attached.Selected.{
  AllApart, Each, OfSession, list_session_attachments-OfSession,
}
use boxwarden.Workspace.Bindings.{load_record}
use boxwarden.Workspace.Decode.Marshal.{AttachmentText, IsText, UseText}
use boxwarden.Workspace.Transition.{
  attach_locked, detach_locked, release_use_locked, reserve_use_locked,
}
use boxwarden.Workspace.Transition.Granted.{
  Found, Written, attach_locked-Written, detach_locked-Written, reserve_use_locked-Written,
}
use boxwarden.Workspace.Transition.Released.{Ended, release_use_locked-Written}
use boxwarden.Workspace.Transition.Stopped.{SeenStopped, Watches}
use boxwarden.Workspace.Types.{Attachment, Use, WorkspaceRecord}
use boxwarden.World.{World}

reconcile_iff_example : (reconcile IntendedState.stopped seen_stopped ≡ Consistency.consistent) ↔ (
    (IntendedState.stopped ≡ IntendedState.stopped)
    × (true ≡ true)
    × (ObjectState.stopped ≡ ObjectState.stopped))
reconcile_iff_example = reconcile_iff IntendedState.stopped seen_stopped

quiet-Watches : Watches quiet
quiet-Watches = record { volumes_kept = λ id w. refl }

abbrev src_mount : Bytes
src_mount = codes "/home/boxwarden/workspaces/src"

abbrev attaching : Outcome WorkspaceRecord × World
attaching = attach_locked quiet work uuid_a dev src_mount (with_session free_volume)

attach-runs : attaching.0 ≡ ok attached_volume
unfolding session_code volume_code transition_code
attach-runs = refl

volume-IsText :
    (a : Option Attachment) (u : Option Use)
    → AttachmentText plain a
    → UseText plain u
    → IsText plain (record free_volume { attachment = a; in_use = u })
volume-IsText a u h k = record {
  domain_text = refl;
  volume_text = refl;
  format_text = refl;
  filesystem_text = refl;
  state_is_text = refl;
  attachment_text = h;
  use_text = k;
  pending_text = tt;
  disk_fits = (omega arith, omega arith);
}

attach_locked-Written_example :
    (old : WorkspaceRecord) × (t : SessionRecord) × Found quiet work uuid_a dev
      (with_session free_volume)
      old
      t
    × (old.attachment ≡ none)
    × (attached_volume ≡ record old {
      attachment = some (record { session_id = t.id; session_name = dev; mount_path = src_mount });
    })
    × Written work attached_volume (with_session free_volume) attaching.1
attach_locked-Written_example =
    attach_locked-Written quiet work quiet-Watches uuid_a dev src_mount (with_session free_volume)
      attaching.1 attached_volume
      (volume-IsText attached_volume.attachment none (refl, refl, refl) tt)
      (ap (λ o. (o, attaching.1)) attach-runs)

abbrev detaching : Outcome WorkspaceRecord × World
detaching = detach_locked quiet work uuid_a dev (with_session attached_volume)

detach-runs : detaching.0 ≡ ok free_volume
unfolding session_code volume_code transition_code
detach-runs = refl

detach_locked-Written_example :
    (old : WorkspaceRecord) × (t : SessionRecord) × Found quiet work uuid_a dev
      (with_session attached_volume)
      old
      t
    × (a : Attachment) × (old.attachment ≡ some a)
    × (a.session_name ≡ dev)
    × (a.session_id ≡ t.id)
    × (free_volume ≡ record old { attachment = none })
    × Written work free_volume (with_session attached_volume) detaching.1
detach_locked-Written_example =
    detach_locked-Written quiet work quiet-Watches uuid_a dev (with_session attached_volume)
      detaching.1 free_volume (volume-IsText none none tt tt)
      (ap (λ o. (o, detaching.1)) detach-runs)

abbrev dev_attachment : Attachment
dev_attachment = record { session_id = uuid_a; session_name = dev; mount_path = src_mount }

abbrev reserving : Outcome WorkspaceRecord × World
reserving =
    reserve_use_locked quiet work uuid_a dev_use dev_attachment (with_session attached_volume)

reserve-runs : reserving.0 ≡ ok used_volume
unfolding session_code volume_code transition_code
reserve-runs = refl

reserve_use_locked-Written_example :
    (old : WorkspaceRecord) × (t : SessionRecord) × Found quiet work uuid_a dev
      (with_session attached_volume)
      old
      t
    × (old.attachment ≡ some dev_attachment)
    × (t.id ≡ uuid_a)
    × (t.backend.object_id ≡ dev_use.backend_object)
    × (used_volume ≡ record old { in_use = some dev_use })
    × Written work used_volume (with_session attached_volume) reserving.1
reserve_use_locked-Written_example =
    reserve_use_locked-Written quiet work quiet-Watches uuid_a dev_use dev_attachment
      (with_session attached_volume) reserving.1 used_volume
      (volume-IsText used_volume.attachment used_volume.in_use (refl, refl, refl)
        (refl, refl, refl))
      (ap (λ o. (o, reserving.1)) reserve-runs)

abbrev releasing : Outcome WorkspaceRecord × World
releasing = release_use_locked quiet work uuid_a dev_use dev_attachment (with_session used_volume)

release-runs : releasing.0 ≡ ok attached_volume
unfolding session_code volume_code transition_code
release-runs = refl

release_use_locked-Written_example :
    (old : WorkspaceRecord) × (owner : SessionRecord) × (a : Attachment) × (load_record work uuid_a
        (with_session used_volume)
      ≡ ok old)
    × (old.attachment ≡ some a)
    × (a.session_name ≡ dev)
    × (a.session_id ≡ uuid_a)
    × (old.in_use ≡ some dev_use)
    × (old.pending ≡ none)
    × (load_session work dev (with_session used_volume) ≡ ok owner)
    × Ended quiet work owner dev_attachment dev_use
    × SeenStopped quiet work dev_use.backend_object (with_session used_volume)
    × (attached_volume ≡ record old { in_use = none })
    × Written work attached_volume (with_session used_volume) releasing.1
release_use_locked-Written_example =
    release_use_locked-Written quiet work quiet-Watches uuid_a dev_use dev_attachment
      (with_session used_volume) releasing.1 attached_volume
      (volume-IsText attached_volume.attachment none (refl, refl, refl) tt)
      (ap (λ o. (o, releasing.1)) release-runs)

listing :
    list_session_attachments work uuid_a dev (with_session attached_volume)
    ≡ ok (attached_volume ∷ [])
unfolding session_code volume_code transition_code
listing = refl

list_session_attachments-OfSession_example :
    (length (attached_volume ∷ []) ≤ 4)
    × Each (OfSession work uuid_a dev) (attached_volume ∷ [])
    × AllApart (attached_volume ∷ [])
list_session_attachments-OfSession_example =
    list_session_attachments-OfSession work uuid_a dev (with_session attached_volume)
      (attached_volume ∷ []) listing
