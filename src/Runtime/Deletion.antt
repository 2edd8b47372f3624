-- ===== src/Runtime/Deletion.antt =====
-- A deletion with its real gate and finalizer.
-- Releasing locks leaves session records and volumes alone.
use boxwarden.Prelude.{Bytes, [], ap, err, ok, sym, ◌∙◌, ◌≡◌}
use boxwarden.Runtime.{wired}
use boxwarden.Services.{Services}
use boxwarden.Session.Delete.{delete_locked}
use boxwarden.Session.Delete.Deleted.{Deleted, delete_locked-Deleted}
use boxwarden.Session.Delete.Reserved.{Gates, sessions_load}
use boxwarden.Session.Outside.{Outside}
use boxwarden.Session.Store.{load_session}
use boxwarden.Session.Store.Atomic.{load_record-name}
use boxwarden.Session.Types.{SessionRecord}
use boxwarden.Workspace.Batch.{attached_volumes, enter_batch}
use boxwarden.Workspace.Batch.Finalize.{
  finalize_deleted_session, finalize_locked, is_deleted_binding,
}
use boxwarden.Workspace.Batch.Finalized.{finalize_locked-Finishes, lists-same}
use boxwarden.Workspace.Batch.Gate.{admit_then, with_stopped_delete_gate}
use boxwarden.Workspace.Batch.Gated.{admit_then-runs, with_stopped_rebuild_gate-Passed}
use boxwarden.World.{M, World}
use boxwarden.World.Runs.{guard-passed, then_with-eq-ok}

pub record Releases (s : Services) (o : Outside) : Type 0 where
  pub batch_sessions : (w : World) → (s.release_locks w).1.sessions ≡ w.sessions
  pub batch_volumes : (w : World) → (s.release_locks w).1.workspaces ≡ w.workspaces
  pub session_kept : (w : World) → (o.release_session w).1.sessions ≡ w.sessions

module _ (s : Services) (d : Bytes) (o : Outside) (releases : Releases s o) where
  gate_runs :
      (r : SessionRecord) (reserve : M (Unit {0})) (w : World)
      → (with_stopped_delete_gate s d r reserve w).0 ≡ ok tt
      → (w1 : World) × ((reserve w1).0 ≡ ok tt)
        × ((with_stopped_delete_gate s d r reserve w).1.sessions ≡ (reserve w1).1.sessions)
  unfolding with_stopped_delete_gate
  gate_runs r reserve w h =
      let w' = (with_stopped_delete_gate s d r reserve w).1 in
      let p =
        with_stopped_rebuild_gate-Passed s d r (admit_then s d r reserve) w w'
          (ap (λ x. (x, w')) h) in
      let w1 = (s.observe r.backend.object_id p.locked).1 in
      let (_, _, _, ran) = admit_then-runs s d r reserve w1 p.behind p.gated.runs in
      (
        w1,
        ap (λ x. x.0) ran,
        sym (ap (λ x. x.1.sessions) p.releases)
            ∙ releases.batch_sessions p.behind
            ∙ sym (ap (λ x. x.1.sessions) ran),
      )

  -- The gate of deletion keeps the contract that deletion relies on: when it succeeds, it has run
  -- its callback, successfully, and no session record was written behind it. Releasing locks
  -- leaves session records and volumes alone.
  pub wired-Gates : Gates (wired s d o)
  wired-Gates = record { gate_runs = gate_runs; release_keeps = releases.session_kept }

  finalize-gone :
      (e : SessionRecord) (w w' : World)
      → finalize_deleted_session s d e w ≡ (ok tt, w')
      → (load_session d e.name w' ≡ err) × (attached_volumes s d e w' ≡ ok [])
  unfolding finalize_deleted_session
  finalize-gone e w w' h =
      let (_, h1) = guard-passed (is_deleted_binding s d e) _ h in
      let (rs, _, h2) = then_with-eq-ok (enter_batch s d e w) _ h1 in
      let w1 = (enter_batch s d e w).1 in
      let (_, ran, h3) = then_with-eq-ok (finalize_locked s d e rs w1) _ h2 in
      let w2 = (finalize_locked s d e rs w1).1 in
      let f = finalize_locked-Finishes s d e rs w1 w2 (ap (λ x. (x, w2)) ran) in
      let sessions_is = sym (ap (λ x. x.1.sessions) h3) ∙ releases.batch_sessions w2 in
      let volumes_is = sym (ap (λ x. x.1.workspaces) h3) ∙ releases.batch_volumes w2 in
      (
        sessions_load (wired s d o) d e.name w2 w' sessions_is ∙ f.record_gone,
        lists-same s d e w2 w' volumes_is ∙ f.none_left,
      )

  -- A deletion that succeeds is complete: there was a session with the name, it was marked, its
  -- backend object was seen gone, and then the name loads no session and no volume is attached to
  -- it. Releasing locks leaves session records and volumes alone.
  pub delete_locked_complete :
      (name : Bytes) (w w' : World)
      → delete_locked (wired s d o) d name w ≡ (ok tt, w')
      → (g : Deleted (wired s d o) d name w w') × (load_session d name w' ≡ err)
        × (attached_volumes s d g.deleting w' ≡ ok [])
  delete_locked_complete name w w' h =
      let g = delete_locked-Deleted (wired s d o) d wired-Gates name w w' h in
      let (gone, none_left) = finalize-gone g.deleting g.gone_in w' g.finalized in
      let name_is = g.marks.name_kept ∙ load_record-name d name g.old w g.loads_old in
      (g, ap (λ n. load_session d n w') (sym name_is) ∙ gone, none_left)
