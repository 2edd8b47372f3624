-- ===== src/Tests/StartRuns.antt =====
-- A start with the real preparation and release of workspace uses.
use boxwarden.Prelude.{Outcome, [], ap, none, ok, refl, true, ◌≡◌}
use boxwarden.Runtime.{wired}
use boxwarden.Session.Start.{start_binding, start_locked}
use boxwarden.Session.Start.Accepted.{Accepted}
use boxwarden.Session.Start.Sound.{start_locked-Accepted}
use boxwarden.Session.Supervised.{Binding, Binding-discrete, Snapshot, Supervised}
use boxwarden.Session.Types.{
  BackendRef-discrete, IntendedState, Mode-discrete, ReadinessStatus, SessionRecord,
}
use boxwarden.Tests.LifecycleRuns.{calm}
use boxwarden.Tests.Outside.{batch_code, quiet, transition_code, with_session}
use boxwarden.Tests.Sample.{dev, session_code, stopped_dev, uuid_b, work}
use boxwarden.Tests.Volumes.{attached_volume, volume_code}
use boxwarden.Workspace.Batch.Release.{release_session_uses}
use boxwarden.Workspace.Batch.Start.{prepare_session_start, verify_session_uses}
use boxwarden.World.{World}

abbrev healthy : Binding → Snapshot
healthy b = record {
  binding = b;
  backend_running = true;
  serial_healthy = true;
  pin_present = true;
  certificate_current = true;
  probe_ok = true;
  zone_matches = true;
  observed_at = 5;
}

abbrev pub supervised : Supervised
supervised = record {
  outside = record (wired quiet work calm) { release_uses = release_session_uses quiet work };
  load_recipe_intent = λ digest w. ok tt;
  admit_prerequisites = λ w. (ok tt, w);
  verify_uses = verify_session_uses quiet work;
  prepare_start = prepare_session_start quiet work;
  snapshot = λ b w. (ok (healthy b), w);
  ready = λ b w. (ok (healthy b), w);
  start_exact = λ b name w. (ok (healthy b), w);
  stop_exact = λ b w. (ok tt, w);
  new_generation = λ w. (ok uuid_b, w);
  now = λ w. (ok 7, w);
}

abbrev started_dev : SessionRecord
started_dev = record stopped_dev {
  intended_state = IntendedState.running;
  start_generation = uuid_b;
  readiness = record { status = ReadinessStatus.ready; diagnostic = [] };
}

abbrev starting : Outcome SessionRecord × World
starting = start_locked supervised work dev none (with_session attached_volume)

starting_up : starting.0 ≡ ok started_dev
unfolding session_code volume_code transition_code batch_code start_locked release_session_uses
    prepare_session_start start_binding Binding-discrete Mode-discrete BackendRef-discrete
starting_up = refl

start_locked-Accepted_example : Accepted supervised work started_dev starting.1
start_locked-Accepted_example =
    start_locked-Accepted supervised work dev started_dev none (with_session attached_volume)
      starting.1 (ap (λ o. (o, starting.1)) starting_up)
