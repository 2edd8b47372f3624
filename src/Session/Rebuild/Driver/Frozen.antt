-- ===== src/Session/Rebuild/Driver/Frozen.antt =====
-- The driver with a frozen candidate: what it ends in.
use boxwarden.Prelude.{
  Bytes, Option, ap, arith, eqb, eqb_iff, inl, inr, is_empty, none, not, ok, ok-injective, refl,
  same, some, subst, sym, true, ◌&&◌, ◌||◌, ◌≡◌,
}
use boxwarden.Backend.{is_running_intent, is_stopped_object}
use boxwarden.Ident.{parse_domain, parse_name, valid_backend_object_id}
use boxwarden.Session.Create.{check_intent}
use boxwarden.Session.Decode.{is_stopped}
use boxwarden.Session.Rebuild.Driver.{
  Rebuilding, coerce, delete_old, finish_retiring, has_candidate, is_of_session, is_phase_cloned,
  is_phase_ready, is_prepared, is_ready_candidate, mark_retiring, outside, retire_old,
  retire_old_locked, with_locks,
}
use boxwarden.Session.Rebuild.Driver.Execute.{
  drive, drive_cutover, drive_ready, execute, execute_found, execute_prepared, is_ready_record,
  prepare_or_keep, settle_found, settle_prepared,
}
use boxwarden.Session.Rebuild.Driver.Retired.{reconcile_ready-candidate}
use boxwarden.Session.Rebuild.Journal.{RebuildJournal, validate_rebuild_journal}
use boxwarden.Session.Rebuild.Registry.{
  is_retiring, load_present, load_rebuild_journal, remove_rebuild_journal, require_no_rebuild,
}
use boxwarden.Session.Start.{
  as_ready, is_bootstrapped, is_converged, is_fresh, persist_ready, reconcile_ready, seen_at_rest,
  start_binding,
}
use boxwarden.Session.Stop.{observe_exact}
use boxwarden.Session.Store.{load_record, save_record}
use boxwarden.Session.Types.{SessionRecord, SessionRecord-discrete, tart}
use boxwarden.World.{M, World, sync_directory}
use boxwarden.World.Runs.{fail-never, guard-passed, if-runs, then_with-eq-ok}

module _ (s : Rebuilding) (d : Bytes) where
  -- The session is on the system of the frozen candidate, stopped or ready.
  pub record OnFrozen (e : RebuildJournal) (q : SessionRecord) : Type 0 where
    pub session_is : q.id ≡ e.session_id
    pub backend_is : q.backend ≡ record { kind = tart; object_id = e.candidate_backend }
    pub revision_is : q.golden_revision ≡ e.candidate_revision
    pub intent_is : q.recipe_intent_digest ≡ e.candidate_intent_digest
    pub settled : (is_stopped q.intended_state || is_ready_record s d q) ≡ true

  frozen :
      (e : RebuildJournal) (q : SessionRecord)
      → (is_of_session q e && has_candidate q e) ≡ true
      → (is_stopped q.intended_state || is_ready_record s d q) ≡ true
      → OnFrozen e q
  unfolding has_candidate
  frozen e q there settled =
      let kind_is = (eqb_iff q.backend.kind tart).0 (ground arith) in
      let object_is = (eqb_iff q.backend.object_id e.candidate_backend).0 (ground arith) in
      record {
        session_is = (eqb_iff q.id e.session_id).0 (ground arith);
        backend_is = rw (sym kind_is, sym object_is) refl;
        revision_is = (eqb_iff q.golden_revision e.candidate_revision).0 (ground arith);
        intent_is = (eqb_iff q.recipe_intent_digest e.candidate_intent_digest).0 (ground arith);
        settled = settled;
      }

  -- A journal that is prepared for has the system of the frozen candidate.
  prepared_candidate :
      (e j : RebuildJournal) (q : SessionRecord)
      → is_prepared (some e) j ≡ true
      → is_ready_candidate q j ≡ true
      → OnFrozen e q
  unfolding is_prepared is_ready_candidate has_candidate
  prepared_candidate e j q prepared candidate =
      let id_is = (eqb_iff j.session_id e.session_id).0 (ground arith) in
      let object_is = (eqb_iff j.candidate_backend e.candidate_backend).0 (ground arith) in
      let revision_is = (eqb_iff j.candidate_revision e.candidate_revision).0 (ground arith) in
      let intent_is =
        (eqb_iff j.candidate_intent_digest e.candidate_intent_digest).0 (ground arith) in
      frozen e q (rw (sym id_is, sym object_is, sym revision_is, sym intent_is) (ground arith))
        (ground arith)

  reconcile_ready-Frozen :
      (r q : SessionRecord) (e : RebuildJournal) (w w' : World)
      → (is_of_session r e && has_candidate r e) ≡ true
      → reconcile_ready s.supervised d r w ≡ (ok q, w')
      → OnFrozen e q
  unfolding reconcile_ready persist_ready has_candidate
  reconcile_ready-Frozen r q e w w' candidate h =
      let (x, _, h1) = then_with-eq-ok (s.supervised.snapshot (start_binding r) w) _ h in
      let (t, _, h2) = then_with-eq-ok (s.supervised.now _) _ h1 in
      let (_, h3) = guard-passed (is_fresh t r x && is_bootstrapped x && is_converged x) _ h2 in
      let next = as_ready s.supervised d r in
      let (_, _, last) = then_with-eq-ok (save_record (coerce s d) r.domain next _) _ h3 in
      subst (OnFrozen e) (ok-injective next q (ap (λ p. p.0) last))
        (frozen e next (ground arith) refl)

  settle_found-Frozen :
      (e : RebuildJournal) (r q : SessionRecord) (w w' : World)
      → settle_found s d e r w ≡ (ok q, w')
      → OnFrozen e q
  unfolding settle_found
  settle_found-Frozen e r q w w' h =
      let (candidate, h1) = guard-passed (is_of_session r e && has_candidate r e) _ h in
      elim (if-runs (is_stopped r.intended_state) _ _ h1) [
        | inl (stopped, h2) ↦
            let (_, _, last) =
              then_with-eq-ok (seen_at_rest s.supervised d r.backend.object_id w) _ h2 in
            subst (OnFrozen e) (ok-injective r q (ap (λ p. p.0) last))
              (frozen e r candidate (ground arith))
        | inr (_, h2) ↦ elim (if-runs (is_running_intent r.intended_state) _ _ h2) [
          | inl (_, h3) ↦
              let (_, _, h4) = then_with-eq-ok (s.supervised.verify_uses r w) _ h3 in
              reconcile_ready-Frozen r q e _ w' candidate h4
          | inr (_, h3) ↦ fail-never h3 (OnFrozen e q)
        ]
      ]

  finish_retiring-Kept :
      (name : Bytes) (a q : SessionRecord) (k : RebuildJournal) (w w' : World)
      → finish_retiring s d name a k w ≡ (ok q, w')
      → a ≡ q
  unfolding finish_retiring
  finish_retiring-Kept name a q k w w' h =
      let held = s.supervised.outside.acquire_session d name w in
      let (_, _, h1) = then_with-eq-ok held _ h in
      let (c, _, h2) = then_with-eq-ok (load_record d name held.1, held.1) _ h1 in
      let (_, h3) = guard-passed (same SessionRecord-discrete c a) _ h2 in
      let (_, _, last) = then_with-eq-ok (remove_rebuild_journal k held.1) _ h3 in
      ok-injective a q (ap (λ p. p.0) last)

  retire_old_locked-Frozen :
      (name : Bytes) (e : RebuildJournal) (q : SessionRecord) (w w' : World)
      → retire_old_locked s d name (some e) w ≡ (ok q, w')
      → OnFrozen e q
  unfolding retire_old_locked
  retire_old_locked-Frozen name e q w w' h =
      let (j, _, h1) = then_with-eq-ok (load_present d name w, w) _ h in
      let (_, h2) = guard-passed (is_phase_ready j.phase || is_retiring j.phase) _ h1 in
      let (prepared, h3) = guard-passed (is_prepared (some e) j) _ h2 in
      let (r, _, h4) = then_with-eq-ok (load_record d name w, w) _ h3 in
      let (candidate, h5) = guard-passed (is_ready_candidate r j) _ h4 in
      let verified = s.supervised.verify_uses r w in
      let (_, _, h6) = then_with-eq-ok verified _ h5 in
      let fresh = reconcile_ready s.supervised d r verified.1 in
      let (a, reconciled, h7) = then_with-eq-ok fresh _ h6 in
      let (old, _, h8) =
        then_with-eq-ok (observe_exact (outside s d) d j.old_backend fresh.1) _ h7 in
      let (_, h9) = guard-passed (not (old.exists && not (is_stopped_object old.state))) _ h8 in
      let (k, _, h10) = then_with-eq-ok (mark_retiring s d j old _) _ h9 in
      let (_, _, h11) = then_with-eq-ok (delete_old s d k old _) _ h10 in
      subst (OnFrozen e) (finish_retiring-Kept name a q k _ w' h11) (
        prepared_candidate e j a prepared (
          reconcile_ready-candidate s d name r a j verified.1 fresh.1 candidate
            (ap (λ o. (o, fresh.1)) reconciled)))

  -- The locks of a phase leave its result as it is.
  with_locks-result :
      {A : Type 0} (P : A → Type 0) (raw_name : Bytes) (m : Bytes → M A) (a : A) (w w' : World)
      → ((name : Bytes) (b : A) (v v' : World) → m name v ≡ (ok b, v') → P b)
      → with_locks s d raw_name m w ≡ (ok a, w')
      → P a
  with_locks-result {A} P raw_name m a w w' within h =
      let o = s.supervised.outside in
      let (parsed, _, h1) = then_with-eq-ok (parse_domain d, w) _ h in
      let (_, h2) = guard-passed (eqb parsed d) _ h1 in
      let (name, _, h3) = then_with-eq-ok (parse_name raw_name, w) _ h2 in
      let (_, _, h4) = then_with-eq-ok (o.acquire_transition d name w) _ h3 in
      let (_, _, h5) = then_with-eq-ok (o.acquire_session d name _) _ h4 in
      let v = (o.acquire_session d name (o.acquire_transition d name w).1).1 in
      let (b, ran, h6) = then_with-eq-ok (m name v) _ h5 in
      let (_, _, h7) = then_with-eq-ok (o.release_session (m name v).1) _ h6 in
      let (_, _, last) = then_with-eq-ok (o.release_transition _) _ h7 in
      subst P (ok-injective b a (ap (λ p. p.0) last))
        (within name b v (m name v).1 (ap (λ x. (x, (m name v).1)) ran))

  retire_old-Frozen :
      (raw_name : Bytes) (e : RebuildJournal) (q : SessionRecord) (w w' : World)
      → retire_old s d raw_name (some e) w ≡ (ok q, w')
      → OnFrozen e q
  unfolding retire_old
  retire_old-Frozen raw_name e q w w' h =
      with_locks-result (OnFrozen e) raw_name (λ name. retire_old_locked s d name (some e)) q w w'
        (λ name. retire_old_locked-Frozen name e) h

  settle_prepared-Frozen :
      (name : Bytes) (e : RebuildJournal) (q : SessionRecord) (w w' : World)
      → settle_prepared s d name e w ≡ (ok q, w')
      → OnFrozen e q
  unfolding settle_prepared
  settle_prepared-Frozen name e q w w' h =
      let o = s.supervised.outside in
      let (_, _, h1) = then_with-eq-ok (o.acquire_transition d name w) _ h in
      let (_, _, h2) = then_with-eq-ok (o.acquire_session d name _) _ h1 in
      let v = (o.acquire_session d name (o.acquire_transition d name w).1).1 in
      let (_, _, h3) = then_with-eq-ok (require_no_rebuild d name v, v) _ h2 in
      let (_, _, h4) = then_with-eq-ok (sync_directory v) _ h3 in
      let u = (sync_directory v).1 in
      let (r, _, h5) = then_with-eq-ok (load_record d name u, u) _ h4 in
      let settling = settle_found s d e r u in
      let (a, settles, h6) = then_with-eq-ok settling _ h5 in
      let (_, _, h7) = then_with-eq-ok (o.release_session settling.1) _ h6 in
      let (_, _, last) = then_with-eq-ok (o.release_transition _) _ h7 in
      subst (OnFrozen e) (ok-injective a q (ap (λ p. p.0) last))
        (settle_found-Frozen e r a u settling.1 (ap (λ x. (x, settling.1)) settles))

  drive-Frozen :
      (name : Bytes) (r : SessionRecord) (revision digest : Bytes) (e : RebuildJournal)
      → (found : Option RebuildJournal) (q : SessionRecord) (w w' : World)
      → drive s d name r revision digest (some e) found w ≡ (ok q, w')
      → OnFrozen e q
  unfolding drive
  drive-Frozen name r revision digest e found q w w' h =
      let (_, _, h1) = then_with-eq-ok (check_intent s.creating d digest w) _ h in
      let (_, h2) = guard-passed (valid_backend_object_id revision) _ h1 in
      let (j, _, h3) =
        then_with-eq-ok (prepare_or_keep s d name revision digest (some e) found _) _ h2 in
      let (k, _, h4) = then_with-eq-ok (drive_cutover s d name j (some e) _) _ h3 in
      let (_, _, h5) = then_with-eq-ok (drive_ready s d name k r (some e) _) _ h4 in
      retire_old-Frozen name e q _ w' h5

  execute_found-Frozen :
      (name : Bytes) (r : SessionRecord) (revision digest : Bytes) (e : RebuildJournal)
      → (found : Option RebuildJournal) (q : SessionRecord) (w w' : World)
      → execute_found s d name r revision digest (some e) found w ≡ (ok q, w')
      → OnFrozen e q
  unfolding execute_found
  execute_found-Frozen name r revision digest e none q w w' h =
      settle_prepared-Frozen name e q w w' h
  execute_found-Frozen name r revision digest e (some j) q w w' h =
      let (_, h1) = guard-passed (is_prepared (some e) j) _ h in
      let (_, h2) =
        guard-passed
          (is_empty revision
            || eqb revision j.candidate_revision && eqb digest j.candidate_intent_digest)
          _ h1 in
      drive-Frozen name r j.candidate_revision j.candidate_intent_digest e (some j) q _ w' h2

  -- A prepared rebuild that succeeds, by whichever of its ways, and whatever others have done
  -- between its locks, returns the session of the frozen journal on exactly its candidate: the
  -- backend object, the base revision and the recipe intent are the candidate's, and the session is
  -- stopped, or running and ready.
  pub execute_prepared-Frozen :
      (raw_name : Bytes) (e : RebuildJournal) (q : SessionRecord) (w w' : World)
      → execute_prepared s d raw_name e w ≡ (ok q, w')
      → OnFrozen e q
  unfolding execute_prepared execute
  execute_prepared-Frozen raw_name e q w w' h =
      let (_, _, h1) = then_with-eq-ok (validate_rebuild_journal e, w) _ h in
      let (_, h2) =
        guard-passed (eqb e.domain d && eqb e.session_name raw_name && is_phase_cloned e.phase) _
          h1 in
      let (name, _, h3) = then_with-eq-ok (parse_name raw_name, w) _ h2 in
      let (r, _, h4) = then_with-eq-ok (load_record d name w, w) _ h3 in
      let (found, _, h5) = then_with-eq-ok (load_rebuild_journal d name w, w) _ h4 in
      execute_found-Frozen name r e.candidate_revision e.candidate_intent_digest e found q w w' h5
