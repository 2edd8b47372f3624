-- ===== src/Tests/BatchRuns.antt =====
-- Batches over all volumes of a session.
use boxwarden.Prelude.{Bytes, Option, Outcome, [], ap, arith, none, ok, refl, ◌↔◌, ◌∷◌, ◌≡◌, ◌⊎◌}
use boxwarden.Session.Store.{load_session}
use boxwarden.Session.Types.{SessionRecord}
use boxwarden.Tests.Outside.{batch_code, quiet, transition_code, used_volume, with_session}
use boxwarden.Tests.Sample.{dev, plain, session_code, stopped_dev, uuid_a, uuid_b, work}
use boxwarden.Tests.Volumes.{attached_volume, creating_volume, free_volume, volume_code, volumes}
use boxwarden.Workspace.Attached.Selected.{Each}
use boxwarden.Workspace.Batch.{attached_volumes}
use boxwarden.Workspace.Batch.Gate.{rebuild_gate_locked}
use boxwarden.Workspace.Batch.Gated.{Gated, rebuild_gate_locked-Gated}
use boxwarden.Workspace.Batch.Loops.{Holds, Kept}
use boxwarden.Workspace.Batch.Ordered.{Looks, Ordered, StartText, prepare_locked-Ordered}
use boxwarden.Workspace.Batch.Promote.{promote_locked}
use boxwarden.Workspace.Batch.Promoted.{Promoted, promote_locked-Promoted}
use boxwarden.Workspace.Batch.Release.{release_uses_locked}
use boxwarden.Workspace.Batch.Released.{Cleared, Releasable, release_uses_locked-Cleared}
use boxwarden.Workspace.Batch.Start.{as_starting, prepare_locked, use_of, verify_uses_locked}
use boxwarden.Workspace.Batch.Started.{Started, prepare_locked-Started}
use boxwarden.Workspace.Batch.Verified.{Verified, verify_uses_locked_iff}
use boxwarden.Workspace.Decode.Marshal.{IsText, UseText}
use boxwarden.Workspace.Transition.Stopped.{SeenStopped, Watches}
use boxwarden.Workspace.Types.{Use, WorkspaceRecord}
use boxwarden.World.{Fate, World}

quiet-Watches_batch : Watches quiet
quiet-Watches_batch = record { volumes_kept = λ id w. refl }

quiet-Looks : Looks quiet
quiet-Looks = record { sessions_kept = λ id w. refl }

volume-IsText_batch :
    (u : Option Use) → UseText plain u → IsText plain (record attached_volume { in_use = u })
volume-IsText_batch u k = record {
  domain_text = refl;
  volume_text = refl;
  format_text = refl;
  filesystem_text = refl;
  state_is_text = refl;
  attachment_text = (refl, refl, refl);
  use_text = k;
  pending_text = tt;
  disk_fits = (omega arith, omega arith);
}

abbrev clearing : Outcome (Unit {0}) × World
clearing = release_uses_locked quiet work stopped_dev (used_volume ∷ []) (with_session used_volume)

clearing_runs : clearing.0 ≡ ok tt
unfolding session_code volume_code transition_code batch_code
clearing_runs = refl

release_uses_locked-Cleared_example :
    (load_session work dev (with_session used_volume) ≡ ok stopped_dev)
    × (attached_volumes quiet work stopped_dev (with_session used_volume) ≡ ok (used_volume ∷ []))
    × SeenStopped quiet work stopped_dev.backend.object_id (with_session used_volume)
    × Each (Releasable quiet work stopped_dev) (used_volume ∷ [])
    × Each
        (λ r.
          (r.in_use ≡ none)
          ⊎ Holds quiet work (Cleared quiet work (used_volume ∷ [])) r.volume_id clearing.1)
        (used_volume ∷ [])
    × ((v : Bytes)
        → Kept quiet work
            (Cleared quiet work (used_volume ∷ []))
            v
            (with_session used_volume)
            clearing.1)
release_uses_locked-Cleared_example =
    release_uses_locked-Cleared quiet work quiet-Watches_batch stopped_dev (used_volume ∷ [])
      (with_session used_volume) clearing.1
      (volume-IsText_batch used_volume.in_use (refl, refl, refl), tt)
      (ap (λ o. (o, clearing.1)) clearing_runs)

abbrev marking : World → Outcome (Unit {0}) × World
marking w = (ok tt, record w { sessions = [] })

abbrev gating : Outcome (Unit {0}) × World
gating =
    rebuild_gate_locked quiet work stopped_dev (attached_volume ∷ []) marking
      (with_session attached_volume)

gating_runs : gating.0 ≡ ok tt
unfolding session_code volume_code transition_code batch_code
gating_runs = refl

rebuild_gate_locked-Gated_example :
    Gated quiet work stopped_dev
      (attached_volume ∷ [])
      marking
      (with_session attached_volume)
      gating.1
rebuild_gate_locked-Gated_example =
    rebuild_gate_locked-Gated quiet work stopped_dev (attached_volume ∷ []) marking
      (with_session attached_volume) gating.1 (ap (λ o. (o, gating.1)) gating_runs)

abbrev starting_dev : Outcome SessionRecord × World
starting_dev =
    prepare_locked quiet work stopped_dev uuid_b none (attached_volume ∷ [])
      (with_session attached_volume)

starting_runs : starting_dev.0 ≡ ok (as_starting quiet work stopped_dev uuid_b)
unfolding session_code volume_code transition_code batch_code
starting_runs = refl

attached-StartText : StartText quiet work stopped_dev uuid_b (attached_volume ∷ [])
unfolding use_of
attached-StartText = ((volume-IsText_batch none tt, tt), (refl, refl, refl))

prepare_locked-Started_example :
    (as_starting quiet work stopped_dev uuid_b ≡ as_starting quiet work stopped_dev uuid_b)
    × Started quiet work stopped_dev uuid_b none
        (attached_volume ∷ [])
        (with_session attached_volume)
        starting_dev.1
prepare_locked-Started_example =
    prepare_locked-Started quiet work stopped_dev uuid_b quiet-Watches_batch none
      (attached_volume ∷ []) (as_starting quiet work stopped_dev uuid_b)
      (with_session attached_volume) starting_dev.1 attached-StartText
      (ap (λ o. (o, starting_dev.1)) starting_runs)

-- The second write, that of the session record, is refused.
abbrev refusing_world : World
refusing_world = record (with_session attached_volume) { fates = Fate.durable ∷ Fate.refused ∷ [] }

prepare_locked-Ordered_example :
    Ordered quiet work stopped_dev uuid_b
      (attached_volume ∷ [])
      refusing_world
      (prepare_locked quiet work stopped_dev uuid_b none (attached_volume ∷ []) refusing_world).1
prepare_locked-Ordered_example =
    prepare_locked-Ordered quiet work stopped_dev uuid_b quiet-Watches_batch quiet-Looks none
      (attached_volume ∷ []) refusing_world attached-StartText

abbrev running_dev : SessionRecord
running_dev = as_starting quiet work stopped_dev uuid_b

verify_uses_locked_iff_example :
    (verify_uses_locked quiet work running_dev starting_dev.1 ≡ (ok tt, starting_dev.1))
    ↔ Verified quiet work running_dev starting_dev.1
verify_uses_locked_iff_example = verify_uses_locked_iff quiet work running_dev starting_dev.1

-- A session that was prepared is verified.
verified_start : verify_uses_locked quiet work running_dev starting_dev.1 ≡ (ok tt, starting_dev.1)
unfolding session_code volume_code transition_code batch_code
verified_start = refl

abbrev promoting : Outcome WorkspaceRecord × World
promoting = promote_locked quiet work uuid_a (volumes creating_volume)

promoting_runs : promoting.0 ≡ ok free_volume
unfolding session_code volume_code transition_code batch_code
promoting_runs = refl

free-IsText : IsText plain free_volume
free-IsText = record {
  domain_text = refl;
  volume_text = refl;
  format_text = refl;
  filesystem_text = refl;
  state_is_text = refl;
  attachment_text = tt;
  use_text = tt;
  pending_text = tt;
  disk_fits = (omega arith, omega arith);
}

promote_locked-Promoted_example :
    Promoted quiet work uuid_a free_volume (volumes creating_volume) promoting.1
promote_locked-Promoted_example =
    promote_locked-Promoted quiet work uuid_a free_volume (volumes creating_volume) promoting.1
      free-IsText (ap (λ o. (o, promoting.1)) promoting_runs)
