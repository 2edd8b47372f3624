-- ===== src/Tests/DriverRuns.antt =====
-- A rebuild from its cloned candidate on.
use boxwarden.Prelude.{Outcome, [], ap, none, ok, ok-injective, refl, subst, sym, ◌∙◌, ◌∷◌, ◌≡◌}
use boxwarden.Session.Decode.Marshal.{marshal_record}
use boxwarden.Session.Rebuild.Driver.{
  Rebuilding, as_candidate, commit_cutover, cutover_locked, in_phase, retire_old_locked,
  verify_old_pin,
}
use boxwarden.Session.Rebuild.Driver.Complete.{Retired, retire_old_locked-Retired}
use boxwarden.Session.Rebuild.Driver.Execute.{execute_prepared}
use boxwarden.Session.Rebuild.Driver.Frozen.{OnFrozen, execute_prepared-Frozen}
use boxwarden.Session.Rebuild.Driver.Ordered.{CutFirst, Still, cutover_locked-Ordered}
use boxwarden.Session.Rebuild.Driver.Retired.{Observes}
use boxwarden.Session.Rebuild.Journal.{RebuildJournal, RebuildPhase}
use boxwarden.Session.Rebuild.Marshal.{IsText}
use boxwarden.Session.Rebuild.Registry.{load_present}
use boxwarden.Session.Start.{reconcile_ready, seen_at_rest, start_binding, start_session}
use boxwarden.Session.Supervised.{Binding-discrete}
use boxwarden.Session.Types.{
  BackendRef-discrete, IntendedState, Mode-discrete, ReadinessStatus, SessionRecord, tart,
}
use boxwarden.Tests.CreateRuns.{cloner}
use boxwarden.Tests.DeletionRuns.{deleter}
use boxwarden.Tests.Outside.{batch_code, transition_code}
use boxwarden.Tests.Sample.{dev, plain, session_code, stopped_dev, uuid_b, work}
use boxwarden.Tests.StartRuns.{supervised}
use boxwarden.Tests.Volumes.{cloned_rebuild, rebuilding, volume_code}
use boxwarden.Workspace.Batch.Start.{prepare_session_start}
use boxwarden.World.{World, json_name}

abbrev driving : Rebuilding
driving = record {
  supervised = supervised;
  creating = cloner;
  gate = λ r k. k;
  pin_digest = λ j w. (ok none, w);
}

driving-Still : Still driving
driving-Still = record {
  observe_sessions = λ id w. refl;
  observe_rebuilds = λ id w. refl;
  pin_sessions = λ j w. refl;
  pin_rebuilds = λ j w. refl;
}

abbrev before_cutover : World
before_cutover = record (rebuilding cloned_rebuild) {
  sessions = (json_name dev, marshal_record plain stopped_dev) ∷ [];
}

abbrev cutting : Outcome SessionRecord × World
cutting = cutover_locked driving work dev none before_cutover

cutting_over : cutting.0 ≡ ok (as_candidate stopped_dev cloned_rebuild)
unfolding session_code volume_code transition_code cutover_locked seen_at_rest verify_old_pin
    commit_cutover load_present
cutting_over = refl

cloned_present : load_present work dev before_cutover ≡ ok cloned_rebuild
unfolding volume_code load_present
cloned_present = refl

cutover-IsText : IsText plain (in_phase cloned_rebuild RebuildPhase.cutover)
cutover-IsText = record {
  domain_text = refl;
  name_text = refl;
  id_text = refl;
  operation_text = refl;
  phase_is_text = refl;
  old_text = refl;
  old_revision_text = refl;
  old_intent_text = refl;
  candidate_text = refl;
  candidate_revision_text = refl;
  candidate_intent_text = refl;
  pin_text = refl;
}

cutover_locked-Ordered_example : CutFirst driving work dev before_cutover cutting.1
cutover_locked-Ordered_example =
    cutover_locked-Ordered driving work dev driving-Still none before_cutover (λ j h.
      subst (λ k. IsText plain (in_phase k RebuildPhase.cutover))
        (ok-injective cloned_rebuild j (sym cloned_present ∙ h)) cutover-IsText)

abbrev ready_rebuild : RebuildJournal
ready_rebuild = record cloned_rebuild { phase = RebuildPhase.ready }

abbrev retiring_driver : Rebuilding
retiring_driver = record driving {
  supervised = record supervised { outside = deleter; verify_uses = λ r w. (ok tt, w) };
  creating = record cloner {
    outside = deleter;
    load_revision =
        λ r w. ok (record { revision = r; backend = record { kind = tart; object_id = r } });
  };
}

retiring_driver-Observes : Observes retiring_driver
retiring_driver-Observes = record {
  observe_kept = λ id w. refl;
  verify_kept = λ r w. refl;
  snapshot_kept = λ b w. refl;
  now_kept = λ w. refl;
}

abbrev ready_candidate : SessionRecord
ready_candidate = record (as_candidate stopped_dev cloned_rebuild) {
  intended_state = IntendedState.running;
  start_generation = uuid_b;
  readiness = record { status = ReadinessStatus.ready; diagnostic = [] };
}

abbrev before_retirement : World
before_retirement = record (rebuilding ready_rebuild) {
  sessions = (json_name dev, marshal_record plain ready_candidate) ∷ [];
}

abbrev retirement : Outcome SessionRecord × World
retirement = retire_old_locked retiring_driver work dev none before_retirement

retiring_old : retirement.0 ≡ ok ready_candidate
unfolding session_code volume_code transition_code retire_old_locked reconcile_ready start_binding
    Binding-discrete load_present
retiring_old = refl

ready_present : load_present work dev before_retirement ≡ ok ready_rebuild
unfolding volume_code load_present
ready_present = refl

retiring-IsText : IsText plain (in_phase ready_rebuild RebuildPhase.retiring)
retiring-IsText = record {
  domain_text = refl;
  name_text = refl;
  id_text = refl;
  operation_text = refl;
  phase_is_text = refl;
  old_text = refl;
  old_revision_text = refl;
  old_intent_text = refl;
  candidate_text = refl;
  candidate_revision_text = refl;
  candidate_intent_text = refl;
  pin_text = refl;
}

retire_old_locked-Retired_example :
    Retired retiring_driver work dev before_retirement ready_candidate retirement.1
retire_old_locked-Retired_example =
    retire_old_locked-Retired retiring_driver work dev retiring_driver-Observes none
      before_retirement
      (λ j h.
        subst (λ k. IsText plain (in_phase k RebuildPhase.retiring))
          (ok-injective ready_rebuild j (sym ready_present ∙ h)) retiring-IsText)
      ready_candidate retirement.1 (ap (λ o. (o, retirement.1)) retiring_old)

-- A prepared rebuild from the cutover to the end.
abbrev rebuilt : Outcome SessionRecord × World
rebuilt = execute_prepared retiring_driver work dev cloned_rebuild before_cutover

rebuilding_dev : rebuilt.0 ≡ ok ready_candidate
unfolding session_code volume_code transition_code batch_code execute_prepared start_session
    reconcile_ready start_binding Binding-discrete Mode-discrete BackendRef-discrete load_present
    prepare_session_start
rebuilding_dev = refl

execute_prepared-Frozen_example : OnFrozen retiring_driver work cloned_rebuild ready_candidate
execute_prepared-Frozen_example =
    execute_prepared-Frozen retiring_driver work dev cloned_rebuild ready_candidate before_cutover
      rebuilt.1 (ap (λ o. (o, rebuilt.1)) rebuilding_dev)
