-- ===== src/Workspace/Batch/Started.antt =====
-- What stands when a session is published as starting.
use boxwarden.Prelude.{
  Bytes, List, Option, ap, arith, bind-eq-ok, else-eq-ok, eqb, eqb_iff, guard, guard-eq-ok, is_some,
  none, not, ok, ok-injective, refl, same, same-eq, some, subst, sym, true, ◌&&◌, ◌∙◌, ◌≡◌, ◌≢◌,
}
use boxwarden.Services.{Qualification, Services}
use boxwarden.Session.Rebuild.Journal.{Journal-discrete, RebuildJournal, RebuildPhase}
use boxwarden.Session.Rebuild.Registry.{load_present, load_rebuild_journal, require_no_rebuild}
use boxwarden.Session.Store.{load_session, save_record, upgrade_record_for_store}
use boxwarden.Session.Store.Atomic.{
  load_record-same_sessions, load_record-save_record, save_record-others,
}
use boxwarden.Session.Store.Saved.{save_record-Effect}
use boxwarden.Session.Types.{SessionRecord}
use boxwarden.Workspace.Attached.Selected.{Each}
use boxwarden.Workspace.Batch.{attached_volumes, each_ok, is_disk, request_of}
use boxwarden.Workspace.Batch.Checked.{
  Each-map, each_ok-Each, observed_stopped-passed, reload_attachments-passed, reload_session-passed,
}
use boxwarden.Workspace.Batch.Loops.{
  Kept, Kept-after, Kept-before, write_volumes-Kept, write_volumes-sessions,
}
use boxwarden.Workspace.Batch.Ordered.{
  AllReserved, Reserved, StartText, all-Ready, all_reserved, moved, next, reserve_all,
}
use boxwarden.Workspace.Batch.Start.{
  as_starting, check_startable, commit_start, may_start, prepare_locked, rebuild_admits,
}
use boxwarden.Workspace.Bindings.{Mutation}
use boxwarden.Workspace.Transition.Stopped.{SeenStopped, Watches}
use boxwarden.Workspace.Types.{DiskIdentity, State, WorkspaceRecord, is_available}
use boxwarden.World.{World}
use boxwarden.World.Runs.{then_with-eq-ok}

module _ (s : Services) (d : Bytes) (e : SessionRecord) (generation : Bytes) where
  -- Idle, admitted by the formatter, and on the disk of its record.
  pub record Startable (w : World) (r : WorkspaceRecord) : Type 0 where
    pub available : r.state ≡ State.available
    pub unused : r.in_use ≡ none
    pub settled : r.pending ≡ none
    pub qualified : Qualification
    pub admits : s.admit (request_of s d r) w ≡ ok qualified
    pub disk_is : r.disk ≡ some qualified.identity

  is_disk-eq : (o : Option DiskIdentity) (q : DiskIdentity) → is_disk s d o q ≡ true → o ≡ some q
  is_disk-eq none q h = cc
  is_disk-eq (some p) q h =
      let device_is : p.device ≡ q.device = ground arith in
      let inode_is : p.inode ≡ q.inode = ground arith in
      ap (λ n. some (record p { device = n })) device_is
      ∙ ap (λ n. some (record q { inode = n })) inode_is

  startable : (w : World) (r : WorkspaceRecord) → check_startable s d w r ≡ ok tt → Startable w r
  unfolding check_startable
  startable w r h =
      let (idle, h1) =
        else-eq-ok
          (is_available r.state
            && is_some r.disk
            && not (is_some r.pending)
            && not (is_some r.in_use))
          _ h in
      let (q, admitted, h2) = bind-eq-ok (s.admit (request_of s d r) w) _ h1 in
      record {
        available = ground arith;
        unused = ground arith;
        settled = ground arith;
        qualified = q;
        admits = admitted;
        disk_is = is_disk-eq r.disk q.identity (guard-eq-ok (is_disk s d r.disk q.identity) h2);
      }

  -- The phases of a rebuild in which its candidate may start.
  pub data StartPhase : RebuildPhase → Type 0 where
    at_cutover : StartPhase RebuildPhase.cutover
    at_ready : StartPhase RebuildPhase.ready
    at_retiring : StartPhase RebuildPhase.retiring

  -- The session's name has no rebuild journal, or exactly the given one, and the session is its
  -- candidate.
  pub data Unhindered (w : World) : Option RebuildJournal → Type 0 where
    no_rebuild : load_rebuild_journal d e.name w ≡ ok none → Unhindered w none
    own_rebuild :
        (j : RebuildJournal)
        → load_present d e.name w ≡ ok j
        → StartPhase j.phase
        → j.session_id ≡ e.id
        → j.candidate_backend ≡ e.backend.object_id
        → j.candidate_revision ≡ e.golden_revision
        → Unhindered w (some j)

  may_start-StartPhase : (p : RebuildPhase) → may_start s d p ≡ true → StartPhase p
  may_start-StartPhase RebuildPhase.cutover h = at_cutover
  may_start-StartPhase RebuildPhase.ready h = at_ready
  may_start-StartPhase RebuildPhase.retiring h = at_retiring
  may_start-StartPhase _ h = cc

  unhindered :
      (rebuild : Option RebuildJournal) (w : World)
      → rebuild_admits s d e rebuild w ≡ ok tt
      → Unhindered w rebuild
  unfolding rebuild_admits require_no_rebuild
  unhindered none w h =
      let (found, loads, empty) = bind-eq-ok (load_rebuild_journal d e.name w) _ h in
      no_rebuild (loads ∙ ap ok (free found empty))
    where
      free : (o : Option RebuildJournal) → guard (not (is_some o)) ≡ ok tt → o ≡ none
      free none h = refl
      free (some j) h = cc
  unhindered (some j) w h =
      let (c, loads, tested) = bind-eq-ok (load_present d e.name w) _ h in
      let tests =
        guard-eq-ok
          (same Journal-discrete c j
            && may_start s d c.phase
            && eqb c.session_id e.id
            && eqb c.candidate_backend e.backend.object_id
            && eqb c.candidate_revision e.golden_revision)
          tested in
      let c_is : c ≡ j = same-eq Journal-discrete c j (ground arith) in
      let phase = may_start-StartPhase c.phase (ground arith) in
      own_rebuild j (loads ∙ ap ok c_is) (subst (λ k. StartPhase k.phase) c_is phase)
        (ap (λ k. k.session_id) (sym c_is) ∙ (eqb_iff c.session_id e.id).0 (ground arith))
        (ap (λ k. k.candidate_backend) (sym c_is)
          ∙ (eqb_iff c.candidate_backend e.backend.object_id).0 (ground arith))
        (ap (λ k. k.candidate_revision) (sym c_is)
          ∙ (eqb_iff c.candidate_revision e.golden_revision).0 (ground arith))

  -- What a start that is prepared has checked, and what it leaves.
  pub record Started (rebuild : Option RebuildJournal) (initial : List WorkspaceRecord)
      (w w' : World) : Type 0 where
    pub loads : load_session d e.name w ≡ ok e
    pub admits_rebuild : Unhindered w rebuild
    pub lists : attached_volumes s d e w ≡ ok initial
    pub seen : SeenStopped s d e.backend.object_id w
    pub idle : Each (Startable (s.observe e.backend.object_id w).1) initial
    pub reserved : AllReserved s d e generation initial w'
    pub published : load_session d e.name w' ≡ ok (as_starting s d e generation)
    pub others_kept : (v : Bytes) → Kept s d (Reserved s d e generation initial) v w w'
    pub sessions_kept :
        (n : Bytes)
        → e.name ≢ n
        → load_session d n w' ≡ load_session d n (s.observe e.backend.object_id w).1

  not_upgraded :
      upgrade_record_for_store (as_starting s d e generation) ≡ as_starting s d e generation
  unfolding upgrade_record_for_store
  not_upgraded = ground arith

  commit_start-commits :
      (initial : List WorkspaceRecord) (r : SessionRecord) (w w' : World)
      → StartText s d e generation initial
      → commit_start s d e generation initial w ≡ (ok r, w')
      → (r ≡ as_starting s d e generation)
        × AllReserved s d e generation initial w'
        × (load_session d e.name w' ≡ ok (as_starting s d e generation))
        × ((v : Bytes) → Kept s d (Reserved s d e generation initial) v w w')
        × ((n : Bytes) → e.name ≢ n → load_session d n w' ≡ load_session d n w)
  unfolding commit_start
  commit_start-commits initial r w w' text h =
      let (_, wrote, h1) = then_with-eq-ok (reserve_all s d e generation initial w) _ h in
      let w1 = (reserve_all s d e generation initial w).1 in
      let next_record = as_starting s d e generation in
      let (_, done, last) = then_with-eq-ok (save_record s.coerce d next_record w1) _ h1 in
      let w2 = (save_record s.coerce d next_record w1).1 in
      let kept = (save_record-Effect s.coerce d next_record w1).workspaces_kept in
      let w_is : w2 ≡ w' = ap (λ p. p.1) last in
      let (back, _) = load_record-save_record s.coerce d next_record w1 done in
      (
        sym (ok-injective next_record r (ap (λ p. p.0) last)),
        subst (AllReserved s d e generation initial) w_is (
            moved s d e generation initial initial w1 w2 kept
              (all_reserved s d e generation initial w text wrote)),
        subst (λ x. load_session d e.name x ≡ ok next_record) w_is (back ∙ ap ok not_upgraded),
        λ v.
            subst (λ x. Kept s d (Reserved s d e generation initial) v w x) w_is
              (Kept-before s d (Reserved s d e generation initial) v w w1 w2 kept (
                write_volumes-Kept s d (Reserved s d e generation initial) Mutation.reserve_use
                  (next s d e generation) initial w (all-Ready s d e generation initial text) v)),
        λ n apart.
            ap (load_session d n) (sym w_is)
            ∙ save_record-others s.coerce d n next_record w1 done apart
            ∙ load_record-same_sessions d n w w1 (
                write_volumes-sessions s d (Reserved s d e generation initial) Mutation.reserve_use
                  (next s d e generation) initial w),
      )

  -- The preparation of a start, once it has the locks, succeeds only if the session's record and
  -- list of volumes are unchanged, its backend object is seen stopped, and every volume is idle and
  -- admitted on the disk of its record. There is no rebuild journal of its name, or exactly the
  -- given one, in the phase cutover, ready or retiring, whose candidate this session is. Then every
  -- volume of the list carries the use of this start, every other volume loads as before, the name
  -- loads the session as starting under its generation, and every other session loads as it did
  -- when the backend had been seen. The observer leaves the volumes alone, and the texts are UTF-8.
  pub prepare_locked-Started :
      (watches : Watches s) (rebuild : Option RebuildJournal) (initial : List WorkspaceRecord)
      (r : SessionRecord) (w w' : World)
      → StartText s d e generation initial
      → prepare_locked s d e generation rebuild initial w ≡ (ok r, w')
      → (r ≡ as_starting s d e generation) × Started rebuild initial w w'
  unfolding prepare_locked
  prepare_locked-Started watches rebuild initial r w w' text h =
      let (loads_e, h1) = reload_session-passed s d e _ h in
      let (_, free, h2) = then_with-eq-ok (rebuild_admits s d e rebuild w, w) _ h1 in
      let (lists_e, h3) = reload_attachments-passed s d e initial _ h2 in
      let (seen_e, h4) = observed_stopped-passed s d e.backend.object_id _ h3 in
      let w1 = (s.observe e.backend.object_id w).1 in
      let (_, checked, h5) = then_with-eq-ok (each_ok (check_startable s d w1) initial, w1) _ h4 in
      let (r_is, volumes, session_is, kept, sessions) =
        commit_start-commits initial r w1 w' text h5 in
      (
        r_is,
        record {
          loads = loads_e;
          admits_rebuild = unhindered rebuild w free;
          lists = lists_e;
          seen = seen_e;
          idle =
              Each-map _ (Startable w1) initial (startable w1)
                (each_ok-Each (check_startable s d w1) initial checked);
          reserved = volumes;
          published = session_is;
          others_kept = λ v.
              Kept-after s d (Reserved s d e generation initial) v w w1 w'
                (watches.volumes_kept e.backend.object_id w) (kept v);
          sessions_kept = sessions;
        },
      )
