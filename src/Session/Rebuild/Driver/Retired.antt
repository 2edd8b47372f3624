-- ===== src/Session/Rebuild/Driver/Retired.antt =====
-- The steps of the retirement of an old system, and what stands behind each.
use boxwarden.Prelude.{
  Bytes, ap, arith, guard, if◌then◌else◌, inl, inr, not, ok, ok-injective, refl, same, same-eq,
  subst, sym, true, ◌&&◌, ◌||◌, ◌∙◌, ◌≡◌,
}
use boxwarden.Backend.{Observation, is_exact, is_unknown_object, shows_absent}
use boxwarden.Session.Rebuild.Create.{is_retiring-eq, remove_rebuild_journal-Frees}
use boxwarden.Session.Rebuild.Driver.{
  Rebuilding, coerce, delete_old, finish_retiring, has_candidate, in_phase, is_phase_ready,
  is_ready_candidate, mark_retiring, outside,
}
use boxwarden.Session.Rebuild.Driver.Ordered.{load_present-identity}
use boxwarden.Session.Rebuild.Journal.{
  Journal-discrete, RebuildJournal, RebuildPhase, validate_rebuild_journal,
}
use boxwarden.Session.Rebuild.Lands.{advance_rebuild_journal-lands}
use boxwarden.Session.Rebuild.Marshal.{IsText}
use boxwarden.Session.Rebuild.Registry.{
  advance_rebuild_journal, is_retiring, load_present, remove_rebuild_journal, require_no_rebuild,
}
use boxwarden.Session.Start.{
  as_ready, is_bootstrapped, is_converged, is_fresh, persist_ready, reconcile_ready, start_binding,
}
use boxwarden.Session.Start.Accepted.{ReadyOn, Reported, persist_ready-ReadyOn}
use boxwarden.Session.Stop.{observe_exact}
use boxwarden.Session.Store.{load_record, save_record}
use boxwarden.Session.Store.Atomic.{load_record-same_sessions}
use boxwarden.Session.Store.Saved.{save_record-Effect}
use boxwarden.Session.Supervised.{Binding}
use boxwarden.Session.Types.{SessionRecord, SessionRecord-discrete}
use boxwarden.World.{World, json_name, pure}
use boxwarden.World.Files.{remove_file-rebuilds}
use boxwarden.World.Runs.{guard-passed, guard_last, if-runs, then_with-eq-ok, then_with-leaves}

pub record Observes (s : Rebuilding) : Type 0 where
  pub observe_kept :
      (id : Bytes) (w : World) → (s.supervised.outside.observe id w).1.rebuilds ≡ w.rebuilds
  pub verify_kept :
      (r : SessionRecord) (w : World) → (s.supervised.verify_uses r w).1.rebuilds ≡ w.rebuilds
  pub snapshot_kept :
      (b : Binding) (w : World) → (s.supervised.snapshot b w).1.rebuilds ≡ w.rebuilds
  pub now_kept : (w : World) → (s.supervised.now w).1.rebuilds ≡ w.rebuilds

module _ (s : Rebuilding) (d name : Bytes) where
  pub record Gone (id : Bytes) : Type 0 where
    pub seen_from : World
    pub seen : Observation
    pub told : (s.supervised.outside.observe id seen_from).0 ≡ ok seen
    pub absent : shows_absent id seen ≡ true

  -- Before the deletion was asked for, the journal was on record as retiring.
  pub record Marked (j : RebuildJournal) : Type 0 where
    pub old : Observation
    pub asked_from : World
    pub on_record : load_present d name asked_from ≡ ok (in_phase j RebuildPhase.retiring)
    pub deleted : (delete_old s d (in_phase j RebuildPhase.retiring) old asked_from).0 ≡ ok tt

  observe_exact-told :
      (id : Bytes) (o : Observation) (w : World)
      → (observe_exact (outside s d) d id w).0 ≡ ok o
      → ((s.supervised.outside.observe id w).0 ≡ ok o)
        × (is_exact id o ≡ true)
        × ((observe_exact (outside s d) d id w).1 ≡ (s.supervised.outside.observe id w).1)
  unfolding observe_exact
  observe_exact-told id o w h =
      let w' = (observe_exact (outside s d) d id w).1 in
      let run : observe_exact (outside s d) d id w ≡ (ok o, w') = ap (λ x. (x, w')) h in
      let (seen, told, h1) = then_with-eq-ok (s.supervised.outside.observe id w) _ run in
      let (exact, last) = guard-passed (is_exact id seen) _ h1 in
      let o_is : seen ≡ o = ok-injective seen o (ap (λ p. p.0) last) in
      (told ∙ ap ok o_is, ap (is_exact id) (sym o_is) ∙ exact, sym (ap (λ p. p.1) last))

  pub delete_old-Gone :
      (j : RebuildJournal) (old : Observation) (w w' : World)
      → delete_old s d j old w ≡ (ok tt, w')
      → Gone j.old_backend
  unfolding delete_old is_exact shows_absent
  delete_old-Gone j old w w' h =
      let (_, _, h1) = then_with-eq-ok (s.supervised.outside.release_session w) _ h in
      let (_, _, h2) =
        then_with-eq-ok
          ((if old.exists then s.supervised.outside.delete_object j.old_backend else pure tt)
            (s.supervised.outside.release_session w).1)
          _ h1 in
      let (o, seen, h3) = then_with-eq-ok (observe_exact (outside s d) d j.old_backend _) _ h2 in
      let (told, exact, _) = observe_exact-told j.old_backend o _ seen in
      let (absent, _) = guard_last (not (o.exists || not (is_unknown_object o.state))) h3 in
      record { seen_from = _; seen = o; told = told; absent = ground arith }

  remove_rebuild_journal-sessions :
      (j : RebuildJournal) (w : World) → (remove_rebuild_journal j w).1.sessions ≡ w.sessions
  unfolding remove_rebuild_journal
  remove_rebuild_journal-sessions j w =
      let Q : World → Type 0 = λ v. v.sessions ≡ w.sessions in
      then_with-leaves Q (validate_rebuild_journal j, w) _ refl
        (λ _ _.
          then_with-leaves Q (guard (is_retiring j.phase), w) _ refl
            (λ _ _.
              then_with-leaves Q (load_present j.domain j.session_name w, w) _ refl
                (λ c _.
                  then_with-leaves Q (guard (same Journal-discrete c j), w) _ refl
                    (λ _ _. (remove_file-rebuilds (json_name j.session_name) w).sessions_kept))))

  -- The journal is on record as retiring behind the mark.
  pub mark_retiring-on-record :
      (j k : RebuildJournal) (old : Observation) (w : World)
      → IsText (coerce s d) (in_phase j RebuildPhase.retiring)
      → load_present d name w ≡ ok j
      → (is_phase_ready j.phase || is_retiring j.phase) ≡ true
      → (mark_retiring s d j old w).0 ≡ ok k
      → (k ≡ in_phase j RebuildPhase.retiring)
        × (load_present d name (mark_retiring s d j old w).1 ≡ ok k)
  unfolding mark_retiring
  mark_retiring-on-record j k old w text loads phase h =
      let next = in_phase j RebuildPhase.retiring in
      let w' = (mark_retiring s d j old w).1 in
      let run : mark_retiring s d j old w ≡ (ok k, w') = ap (λ x. (x, w')) h in
      elim (if-runs (is_phase_ready j.phase) _ (pure j) run) [
        | inr (not_ready, last) ↦
            let there : j.phase ≡ RebuildPhase.retiring = is_retiring-eq j.phase (ground arith) in
            let k_is : j ≡ k = ok-injective j k (ap (λ p. p.0) last) in
            (
              sym k_is ∙ ap (in_phase j) there,
              ap (load_present d name) (sym (ap (λ p. p.1) last)) ∙ loads ∙ ap ok k_is,
            )
        | inl (_, h1) ↦
            let (_, h2) = guard-passed old.exists _ h1 in
            let step = advance_rebuild_journal (coerce s d) j next w in
            let (_, done, last) = then_with-eq-ok step _ h2 in
            let k_is : next ≡ k = ok-injective next k (ap (λ p. p.0) last) in
            let (domain_is, name_is) = load_present-identity d name w j loads in
            (
              sym k_is,
              ap (load_present d name) (sym (ap (λ p. p.1) last))
                  ∙ ap (λ n. load_present d n step.1) (sym name_is)
                  ∙ ap (λ n. load_present n j.session_name step.1) (sym domain_is)
                  ∙ advance_rebuild_journal-lands (coerce s d) j next w text done
                  ∙ ap ok k_is,
            )
      ]

  pub finish_retiring-Free :
      (q' q : SessionRecord) (j : RebuildJournal) (w w' : World)
      → j.domain ≡ d
      → j.session_name ≡ name
      → finish_retiring s d name q' j w ≡ (ok q, w')
      → (q' ≡ q) × (require_no_rebuild d name w' ≡ ok tt) × (load_record d name w' ≡ ok q)
  unfolding finish_retiring
  finish_retiring-Free q' q j w w' domain_is name_is h =
      let held = s.supervised.outside.acquire_session d name w in
      let (_, _, h1) = then_with-eq-ok held _ h in
      let (c, loads, h2) = then_with-eq-ok (load_record d name held.1, held.1) _ h1 in
      let (unchanged, h3) = guard-passed (same SessionRecord-discrete c q') _ h2 in
      let step = remove_rebuild_journal j held.1 in
      let (_, removed, last) = then_with-eq-ok step _ h3 in
      let q_is : q' ≡ q = ok-injective q' q (ap (λ p. p.0) last) in
      let w_is : step.1 ≡ w' = ap (λ p. p.1) last in
      let c_is = same-eq SessionRecord-discrete c q' unchanged in
      (
        q_is,
        elim (remove_rebuild_journal-Frees j held.1) [
          | inl (failed, _) ↦ cc
          | inr (_, _, freed, _) ↦
              ap (require_no_rebuild d name) (sym w_is)
              ∙ ap (λ n. require_no_rebuild d n step.1) (sym name_is)
              ∙ ap (λ n. require_no_rebuild n j.session_name step.1) (sym domain_is)
              ∙ freed
        ],
        ap (load_record d name) (sym w_is)
            ∙ load_record-same_sessions d name held.1 step.1
                (remove_rebuild_journal-sessions j held.1)
            ∙ loads
            ∙ ap ok (c_is ∙ q_is),
      )

  module _ (observes : Observes s) where
    pub observe_exact-rebuilds :
        (id : Bytes) (o : Observation) (w : World)
        → (observe_exact (outside s d) d id w).0 ≡ ok o
        → (observe_exact (outside s d) d id w).1.rebuilds ≡ w.rebuilds
    observe_exact-rebuilds id o w h =
        let (_, _, w_is) = observe_exact-told id o w h in
        ap (λ v. v.rebuilds) w_is ∙ observes.observe_kept id w

    pub reconcile_ready-rebuilds :
        (r : SessionRecord) (w : World)
        → (reconcile_ready s.supervised d r w).1.rebuilds ≡ w.rebuilds
    unfolding reconcile_ready persist_ready
    reconcile_ready-rebuilds r w =
        let Q : World → Type 0 = λ v. v.rebuilds ≡ w.rebuilds in
        let snap = s.supervised.snapshot (start_binding r) w in
        let seen : Q snap.1 = observes.snapshot_kept (start_binding r) w in
        let now = s.supervised.now snap.1 in
        let timed : Q now.1 = observes.now_kept snap.1 ∙ seen in
        let next = as_ready s.supervised d r in
        let saved = save_record (coerce s d) r.domain next now.1 in
        let kept : Q saved.1 =
          (save_record-Effect (coerce s d) r.domain next now.1).rebuilds_kept ∙ timed in
        then_with-leaves Q snap _ seen (λ x _. then_with-leaves Q now _ timed (λ t _.
          then_with-leaves Q (guard (is_fresh t r x && is_bootstrapped x && is_converged x), now.1)
            _ timed (λ _ _. then_with-leaves Q saved _ kept (λ _ _. kept))))

  pub reconcile_ready-candidate :
      (r q : SessionRecord) (j : RebuildJournal) (w w' : World)
      → is_ready_candidate r j ≡ true
      → reconcile_ready s.supervised d r w ≡ (ok q, w')
      → is_ready_candidate q j ≡ true
  unfolding reconcile_ready persist_ready is_ready_candidate has_candidate
  reconcile_ready-candidate r q j w w' candidate h =
      let (x, _, h1) = then_with-eq-ok (s.supervised.snapshot (start_binding r) w) _ h in
      let (t, _, h2) = then_with-eq-ok (s.supervised.now _) _ h1 in
      let (_, h3) = guard-passed (is_fresh t r x && is_bootstrapped x && is_converged x) _ h2 in
      let next = as_ready s.supervised d r in
      let (_, _, last) = then_with-eq-ok (save_record (coerce s d) r.domain next _) _ h3 in
      subst (λ y. is_ready_candidate y j ≡ true) (ok-injective next q (ap (λ p. p.0) last))
        (ground arith)

  pub reconcile_ready-ReadyOn :
      (r q : SessionRecord) (w w' : World)
      → reconcile_ready s.supervised d r w ≡ (ok q, w')
      → ReadyOn s.supervised d q w'
  unfolding reconcile_ready
  reconcile_ready-ReadyOn r q w w' h =
      let (x, seen_x, h1) = then_with-eq-ok (s.supervised.snapshot (start_binding r) w) _ h in
      persist_ready-ReadyOn s.supervised d r q x _ w' (Reported.by_snapshot w seen_x) h1
