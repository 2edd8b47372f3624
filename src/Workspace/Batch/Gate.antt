-- ===== src/Workspace/Batch/Gate.antt =====
-- The gates that a rebuild and a deletion are reserved behind: internal/workspacex/rebuild_gate.go and
-- WithStoppedDeleteGate of internal/workspacex/delete.go.
use boxwarden.Prelude.{Bool, Bytes, List, Outcome, eqb, guard, is_empty, ◌&&◌, ◌==◌}
use boxwarden.Ident.{valid_backend_object_id, valid_session_name, valid_uuid}
use boxwarden.Services.{Services}
use boxwarden.Session.Decode.{is_stopped}
use boxwarden.Session.Rebuild.Registry.{require_no_rebuild}
use boxwarden.Session.Types.{SessionRecord, tart}
use boxwarden.Workspace.Batch.{
  admit_retained_volume, attached_volumes, each_ok, enter_batch, is_retained, reload_attachments,
  reload_session,
}
use boxwarden.Workspace.Transition.{observed_stopped}
use boxwarden.Workspace.Types.{WorkspaceRecord}
use boxwarden.World.{M, asks, lift, ◌>>=◌, ◌>>◌}

module _ (s : Services) (domain_id : Bytes) where
  unfoldable pub is_gate_binding : SessionRecord → Bool
  is_gate_binding e =
      eqb e.domain domain_id
      && e.version == 2
      && is_stopped e.intended_state
      && eqb e.backend.kind tart
      && valid_uuid e.id
      && valid_session_name e.name
      && valid_backend_object_id e.backend.object_id
      && is_empty e.start_generation

  abbrev pub check_retained : SessionRecord → WorkspaceRecord → Outcome (Unit {0})
  check_retained expected r = guard (is_retained s domain_id expected r)

  unfoldable pub rebuild_gate_locked :
      SessionRecord → List WorkspaceRecord → M (Unit {0}) → M (Unit {0})
  rebuild_gate_locked expected initial reserve = do
    reload_session s domain_id expected
    asks (require_no_rebuild domain_id expected.name)
    attached ← reload_attachments s domain_id expected initial
    observed_stopped s domain_id expected.backend.object_id
    lift (each_ok (check_retained expected) attached)
    reserve

  unfoldable pub with_stopped_rebuild_gate : SessionRecord → M (Unit {0}) → M (Unit {0})
  unfolding is_gate_binding rebuild_gate_locked
  with_stopped_rebuild_gate expected reserve = do
    lift (guard (is_gate_binding expected))
    initial ← enter_batch s domain_id expected
    rebuild_gate_locked expected initial reserve
    s.release_locks

  -- What a deletion runs inside the gate: every volume is still the formatted one.
  unfoldable pub admit_then : SessionRecord → M (Unit {0}) → M (Unit {0})
  admit_then expected reserve = do
    attached ← asks (attached_volumes s domain_id expected)
    asks (λ w. each_ok (λ r. admit_retained_volume s domain_id r w) attached)
    reserve

  unfoldable pub with_stopped_delete_gate : SessionRecord → M (Unit {0}) → M (Unit {0})
  unfolding with_stopped_rebuild_gate admit_then
  with_stopped_delete_gate expected reserve =
      with_stopped_rebuild_gate expected (admit_then expected reserve)
