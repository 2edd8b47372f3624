-- ===== src/Session/Rebuild/Driver/Complete.antt =====
-- A whole retirement, once it has the locks.
use boxwarden.Prelude.{Bytes, Option, ap, not, ok, subst, sym, true, ◌&&◌, ◌||◌, ◌∙◌, ◌≡◌}
use boxwarden.Backend.{Observation, is_stopped_object}
use boxwarden.Session.Rebuild.Driver.{
  Rebuilding, coerce, delete_old, finish_retiring, in_phase, is_phase_ready, is_prepared,
  is_ready_candidate, mark_retiring, outside, retire_old_locked,
}
use boxwarden.Session.Rebuild.Driver.Ordered.{load_present-identity, load_present-same}
use boxwarden.Session.Rebuild.Driver.Retired.{
  Gone, Marked, Observes, delete_old-Gone, finish_retiring-Free, mark_retiring-on-record,
  observe_exact-rebuilds, reconcile_ready-ReadyOn, reconcile_ready-candidate,
  reconcile_ready-rebuilds,
}
use boxwarden.Session.Rebuild.Journal.{RebuildJournal, RebuildPhase}
use boxwarden.Session.Rebuild.Marshal.{IsText}
use boxwarden.Session.Rebuild.Registry.{is_retiring, load_present, require_no_rebuild}
use boxwarden.Session.Start.{reconcile_ready}
use boxwarden.Session.Start.Accepted.{ReadyOn}
use boxwarden.Session.Stop.{observe_exact}
use boxwarden.Session.Store.{load_record}
use boxwarden.Session.Types.{SessionRecord}
use boxwarden.World.{M, World, then_with, ◌>>◌}
use boxwarden.World.Runs.{guard-passed, then_with-eq-ok}

module _ (s : Rebuilding) (d name : Bytes) where
  pub record Retired (w : World) (q : SessionRecord) (w' : World) : Type 0 where
    pub journal : RebuildJournal
    pub found : load_present d name w ≡ ok journal
    pub ready_in : World
    pub is_candidate : is_ready_candidate q journal ≡ true
    pub ready : ReadyOn s.supervised d q ready_in
    pub marked : Marked s d name journal
    pub gone : Gone s d name journal.old_backend
    pub free : require_no_rebuild d name w' ≡ ok tt
    pub on_record : load_record d name w' ≡ ok q

  record Finished (j : RebuildJournal) (a q : SessionRecord) (w' : World) : Type 0 where
    same_session : a ≡ q
    marked : Marked s d name j
    gone : Gone s d name j.old_backend
    free : require_no_rebuild d name w' ≡ ok tt
    on_record : load_record d name w' ≡ ok q

  finish_deleted :
      (j : RebuildJournal) (a q : SessionRecord) (old : Observation) (v w' : World)
      → j.domain ≡ d
      → j.session_name ≡ name
      → load_present d name v ≡ ok (in_phase j RebuildPhase.retiring)
      → let k = in_phase j RebuildPhase.retiring in
        then_with (delete_old s d k old v) (λ _. finish_retiring s d name a k) ≡ (ok q, w')
        → Finished j a q w'
  finish_deleted j a q old v w' domain_is name_is on_record h =
      let k = in_phase j RebuildPhase.retiring in
      let deletion = delete_old s d k old v in
      let (_, deletes, h1) = then_with-eq-ok deletion (λ _. finish_retiring s d name a k) h in
      let (a_is, free, loaded) =
        finish_retiring-Free s d name a q k deletion.1 w' domain_is name_is h1 in
      record {
        same_session = a_is;
        marked = record { old = old; asked_from = v; on_record = on_record; deleted = deletes };
        gone = delete_old-Gone s d name k old v deletion.1 (ap (λ o. (o, deletion.1)) deletes);
        free = free;
        on_record = loaded;
      }

  finish_marked :
      (j : RebuildJournal) (a q : SessionRecord) (old : Observation) (w v w' : World)
      → IsText (coerce s d) (in_phase j RebuildPhase.retiring)
      → load_present d name w ≡ ok j
      → load_present d name v ≡ ok j
      → (is_phase_ready j.phase || is_retiring j.phase) ≡ true
      → then_with
          (mark_retiring s d j old v)
          (λ k. delete_old s d k old >> finish_retiring s d name a k)
        ≡ (ok q, w')
      → Finished j a q w'
  finish_marked j a q old w v w' text found loads phase h =
      let mark = mark_retiring s d j old v in
      let rest : RebuildJournal → M SessionRecord =
        λ k. delete_old s d k old >> finish_retiring s d name a k in
      let (k, marks, h1) = then_with-eq-ok mark rest h in
      let (k_is, on_record) = mark_retiring-on-record s d name j k old v text loads phase marks in
      let (domain_is, name_is) = load_present-identity d name w j found in
      finish_deleted j a q old mark.1 w' domain_is name_is (on_record ∙ ap ok k_is)
        (ap (λ y. rest y mark.1) (sym k_is) ∙ h1)

  -- A retirement that succeeds, once it has the locks, was of a rebuild whose journal loads. The
  -- session that it returns is the ready candidate of the journal, by the fresh word of its owner.
  -- The journal was on record as retiring when the deletion was asked for, the old object was seen
  -- absent behind it, no journal is left, and the session is what the name loads. The observer, the
  -- verification of uses, the supervisor's snapshots and the clock leave the journals alone, and the
  -- retiring journal is text.
  pub retire_old_locked-Retired :
      Observes s
      → (prepared : Option RebuildJournal) (w : World)
      → ((j : RebuildJournal)
          → load_present d name w ≡ ok j
          → IsText (coerce s d) (in_phase j RebuildPhase.retiring))
      → (q : SessionRecord) (w' : World) → retire_old_locked s d name prepared w ≡ (ok q, w')
      → Retired w q w'
  unfolding retire_old_locked
  retire_old_locked-Retired observes prepared w text q w' h =
      let (j, loads, h1) = then_with-eq-ok (load_present d name w, w) _ h in
      let (phase, h2) = guard-passed (is_phase_ready j.phase || is_retiring j.phase) _ h1 in
      let (_, h3) = guard-passed (is_prepared prepared j) _ h2 in
      let (r, _, h4) = then_with-eq-ok (load_record d name w, w) _ h3 in
      let (candidate, h5) = guard-passed (is_ready_candidate r j) _ h4 in
      let verified = s.supervised.verify_uses r w in
      let (_, _, h6) = then_with-eq-ok verified _ h5 in
      let fresh = reconcile_ready s.supervised d r verified.1 in
      let (a, reconciled, h7) = then_with-eq-ok fresh _ h6 in
      let reconciles : fresh ≡ (ok a, fresh.1) = ap (λ o. (o, fresh.1)) reconciled in
      let seen = observe_exact (outside s d) d j.old_backend fresh.1 in
      let (old, saw, h8) = then_with-eq-ok seen _ h7 in
      let (_, h9) = guard-passed (not (old.exists && not (is_stopped_object old.state))) _ h8 in
      let kept : load_present d name seen.1 ≡ ok j =
        load_present-same d name w seen.1 (
          observe_exact-rebuilds s d name observes j.old_backend old fresh.1 saw
          ∙ reconcile_ready-rebuilds s d name observes r verified.1
          ∙ observes.verify_kept r w)
        ∙ loads in
      let e = finish_marked j a q old w seen.1 w' (text j loads) loads kept phase h9 in
      record {
        journal = j;
        found = loads;
        ready_in = fresh.1;
        is_candidate =
            subst (λ y. is_ready_candidate y j ≡ true) e.same_session
              (reconcile_ready-candidate s d name r a j verified.1 fresh.1 candidate reconciles);
        ready =
            subst (λ y. ReadyOn s.supervised d y fresh.1) e.same_session
              (reconcile_ready-ReadyOn s d name r a verified.1 fresh.1 reconciles);
        marked = e.marked;
        gone = e.gone;
        free = e.free;
        on_record = e.on_record;
      }
