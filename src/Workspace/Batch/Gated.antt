-- ===== src/Workspace/Batch/Gated.antt =====
-- What stands when a gate runs its callback.
use boxwarden.Prelude.{Bytes, List, ap, arith, guard-eq-ok, none, ok, some, true, ◌≡◌, ◌≢◌}
use boxwarden.Services.{Services}
use boxwarden.Session.Rebuild.Registry.{require_no_rebuild}
use boxwarden.Session.Store.{load_session}
use boxwarden.Session.Types.{SessionRecord}
use boxwarden.Workspace.Attached.Selected.{Each}
use boxwarden.Workspace.Batch.{
  admit_retained_volume, attached_volumes, each_ok, enter_batch, is_retained,
}
use boxwarden.Workspace.Batch.Checked.{
  Each-map, each_ok-Each, observed_stopped-passed, reload_attachments-passed, reload_session-passed,
}
use boxwarden.Workspace.Batch.Gate.{
  admit_then, check_retained, is_gate_binding, rebuild_gate_locked, with_stopped_rebuild_gate,
}
use boxwarden.Workspace.Transition.Granted.{attachment_facts}
use boxwarden.Workspace.Transition.Stopped.{SeenStopped}
use boxwarden.Workspace.Types.{Attachment, State, WorkspaceRecord}
use boxwarden.World.{M, World}
use boxwarden.World.Runs.{guard-passed, then_with-eq-ok}

module _ (s : Services) (d : Bytes) where
  -- An idle volume that is attached to exactly this session.
  pub record Retained (e : SessionRecord) (r : WorkspaceRecord) : Type 0 where
    pub available : r.state ≡ State.available
    pub has_disk : r.disk ≢ none
    pub settled : r.pending ≡ none
    pub unused : r.in_use ≡ none
    pub binding : Attachment
    pub attachment_is : r.attachment ≡ some binding
    pub id_is : binding.session_id ≡ e.id
    pub name_is : binding.session_name ≡ e.name

  pub is_retained-Retained :
      (e : SessionRecord) (r : WorkspaceRecord) → is_retained s d e r ≡ true → Retained e r
  unfolding is_retained
  is_retained-Retained e r h =
      let (a, there, name_is, id_is) =
        attachment_facts s d r.attachment e.name e.id (ground arith) (ground arith) in
      record {
        available = ground arith;
        has_disk = ground arith;
        settled = ground arith;
        unused = ground arith;
        binding = a;
        attachment_is = there;
        id_is = id_is;
        name_is = name_is;
      }

  -- The callback has run behind the checks, as the last step.
  pub record Gated (e : SessionRecord) (initial : List WorkspaceRecord) (reserve : M (Unit {0}))
      (w w' : World) : Type 0 where
    pub loads : load_session d e.name w ≡ ok e
    pub no_rebuild : require_no_rebuild d e.name w ≡ ok tt
    pub lists : attached_volumes s d e w ≡ ok initial
    pub seen : SeenStopped s d e.backend.object_id w
    pub retained : Each (Retained e) initial
    pub runs : reserve (s.observe e.backend.object_id w).1 ≡ (ok tt, w')

  -- A gate that succeeds, once it has the locks, has run its callback, successfully and last,
  -- while the session was unchanged and without a rebuild, its backend object seen stopped, and its
  -- volumes unchanged and idle.
  pub rebuild_gate_locked-Gated :
      (e : SessionRecord) (initial : List WorkspaceRecord) (reserve : M (Unit {0})) (w w' : World)
      → rebuild_gate_locked s d e initial reserve w ≡ (ok tt, w')
      → Gated e initial reserve w w'
  unfolding rebuild_gate_locked
  rebuild_gate_locked-Gated e initial reserve w w' h =
      let (loads_e, h1) = reload_session-passed s d e _ h in
      let (_, free, h2) = then_with-eq-ok (require_no_rebuild d e.name w, w) _ h1 in
      let (lists_e, h3) = reload_attachments-passed s d e initial _ h2 in
      let (seen_e, h4) = observed_stopped-passed s d e.backend.object_id _ h3 in
      let w1 = (s.observe e.backend.object_id w).1 in
      let (_, checked, h5) = then_with-eq-ok (each_ok (check_retained s d e) initial, w1) _ h4 in
      record {
        loads = loads_e;
        no_rebuild = free;
        lists = lists_e;
        seen = seen_e;
        retained =
            Each-map _ (Retained e) initial
              (λ r k. is_retained-Retained e r (guard-eq-ok (is_retained s d e r) k))
              (each_ok-Each (check_retained s d e) initial checked);
        runs = h5;
      }

  -- The whole gate: the locks, the gate under them, and the release of the locks.
  pub record Passed (e : SessionRecord) (reserve : M (Unit {0})) (w' : World) : Type 0 where
    pub initial : List WorkspaceRecord
    pub locked : World
    pub behind : World
    pub gated : Gated e initial reserve locked behind
    pub releases : s.release_locks behind ≡ (ok tt, w')

  pub with_stopped_rebuild_gate-Passed :
      (e : SessionRecord) (reserve : M (Unit {0})) (w w' : World)
      → with_stopped_rebuild_gate s d e reserve w ≡ (ok tt, w')
      → Passed e reserve w'
  unfolding with_stopped_rebuild_gate
  with_stopped_rebuild_gate-Passed e reserve w w' h =
      let (_, h1) = guard-passed (is_gate_binding s d e) _ h in
      let (rs, _, h2) = then_with-eq-ok (enter_batch s d e w) _ h1 in
      let w1 = (enter_batch s d e w).1 in
      let (_, ran, h3) = then_with-eq-ok (rebuild_gate_locked s d e rs reserve w1) _ h2 in
      let w2 = (rebuild_gate_locked s d e rs reserve w1).1 in
      record {
        initial = rs;
        locked = w1;
        behind = w2;
        gated = rebuild_gate_locked-Gated e rs reserve w1 w2 (ap (λ o. (o, w2)) ran);
        releases = h3;
      }

  -- Inside the gate of a deletion, every volume of the session is admitted first.
  pub admit_then-runs :
      (e : SessionRecord) (reserve : M (Unit {0})) (w w' : World)
      → admit_then s d e reserve w ≡ (ok tt, w')
      → (rs : List WorkspaceRecord) × (attached_volumes s d e w ≡ ok rs)
        × Each (λ r. admit_retained_volume s d r w ≡ ok tt) rs
        × (reserve w ≡ (ok tt, w'))
  unfolding admit_then
  admit_then-runs e reserve w w' h =
      let (rs, listed, h1) = then_with-eq-ok (attached_volumes s d e w, w) _ h in
      let (_, checked, h2) =
        then_with-eq-ok (each_ok (λ r. admit_retained_volume s d r w) rs, w) _ h1 in
      (rs, listed, each_ok-Each (λ r. admit_retained_volume s d r w) rs checked, h2)
