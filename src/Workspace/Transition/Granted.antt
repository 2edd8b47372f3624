-- ===== src/Workspace/Transition/Granted.antt =====
-- What a transition that succeeds has checked, and what it has written.
use boxwarden.Prelude.{
  Bool-cases, Bytes, Option, [], ap, arith, eqb, eqb_iff, inl, inr, is_some, length, ltb, none, not,
  ok, ok-injective, refl, same, same-eq, some, subst, sym, true, ◌&&◌, ◌∙◌, ◌≡◌, ◌⊎◌,
}
use boxwarden.Services.{Services}
use boxwarden.Session.Types.{SessionRecord}
use boxwarden.Workspace.Attached.{list_session_attachments, max_session_attachments}
use boxwarden.Workspace.Batch.Start.{use_of}
use boxwarden.Workspace.Bindings.{Mutation, load_record, save_record_transition}
use boxwarden.Workspace.Bindings.Load.{save-Effect}
use boxwarden.Workspace.Bindings.Step.{
  load-elsewhere, load_record-same, load_record-save_record_transition,
}
use boxwarden.Workspace.Decode.Marshal.{IsText}
use boxwarden.Workspace.Transition.{
  attach_locked, attached_id, attached_to, detach_locked, has_filesystem, is_idle,
  reserve_use_locked, stopped_session, write_record,
}
use boxwarden.Workspace.Transition.Stopped.{StoppedIn, Watches, stopped_session-StoppedIn}
use boxwarden.Workspace.Types.{Attachment, Attachment-discrete, State, Use, WorkspaceRecord}
use boxwarden.Workspace.Valid.{IsWorkspace}
use boxwarden.World.{World}
use boxwarden.World.Runs.{guard-passed, then_with-eq-ok}

-- The registry behind a successful write of `r`, where nothing but the observer ran before it.
pub record Written (d : Bytes) (r : WorkspaceRecord) (w w' : World) : Type 0 where
  pub is_valid : IsWorkspace d r
  pub reads_back : load_record d r.volume_id w' ≡ ok r
  pub others_kept : (u : Bytes) → (r.volume_id ≡ u) ⊎ (load_record d u w' ≡ load_record d u w)

module _ (s : Services) (d : Bytes) where
  pub written :
      (m : Mutation) (next r : WorkspaceRecord) (w0 w w' : World)
      → w.workspaces ≡ w0.workspaces
      → IsText s.coerce r
      → write_record s d m next w ≡ (ok r, w')
      → (r ≡ next) × Written d r w0 w'
  written m next r w0 w w' kept t h =
      let (_, done, last) =
        then_with-eq-ok (save_record_transition s.exports d next m [] s.coerce w) _ h in
      let next_is : next ≡ r = ok-injective next r (ap (λ p. p.0) last) in
      let text = subst (IsText s.coerce) (sym next_is) t in
      let w_is : (save_record_transition s.exports d next m [] s.coerce w).1 ≡ w' =
        ap (λ p. p.1) last in
      (
        sym next_is,
        subst (λ x. Written d x w0 w') next_is
            (subst (λ x. Written d next w0 x) w_is (saved m next w0 w kept text done)),
      )
    where
      saved :
          (m : Mutation) (next : WorkspaceRecord) (w0 w : World)
          → w.workspaces ≡ w0.workspaces
          → IsText s.coerce next
          → (save_record_transition s.exports d next m [] s.coerce w).0 ≡ ok tt
          → Written d next w0 (save_record_transition s.exports d next m [] s.coerce w).1
      saved m next w0 w kept text done =
          let after = (save_record_transition s.exports d next m [] s.coerce w).1 in
          let f = save-Effect s.exports d next m [] s.coerce w in
          let (back, valid) =
            load_record-save_record_transition s.exports d next m [] s.coerce w text done in
          record {
            is_valid = valid;
            reads_back = back;
            others_kept = λ u. elim (Bool-cases (eqb next.volume_id u)) [
              | inl e ↦ inl ((eqb_iff next.volume_id u).0 e)
              | inr e ↦ inr (elim f.workspaces_are [
                | inl (failed, _) ↦ cc
                | inr (changed, _, _) ↦
                    load-elsewhere s.coerce d next w after changed u
                      (λ x. cc (e, (eqb_iff next.volume_id u).1 x))
                    ∙ load_record-same d u w0 w kept
              ])
            ];
          }

  -- What all transitions of a stopped session have found.
  pub record Found (volume_id session_name : Bytes) (w : World) (old : WorkspaceRecord)
      (t : SessionRecord) : Type 0 where
    pub loads : load_record d volume_id w ≡ ok old
    pub available : old.state ≡ State.available
    pub unused : old.in_use ≡ none
    pub settled : old.pending ≡ none
    pub stopped_in : StoppedIn s d session_name w t

  idle-facts :
      (old : WorkspaceRecord)
      → is_idle old ≡ true
      → (old.state ≡ State.available) × (old.in_use ≡ none) × (old.pending ≡ none)
  unfolding is_idle
  idle-facts old h = ground arith

  found_stopped :
      (watches : Watches s) (name : Bytes) (w : World) (t : SessionRecord)
      → (stopped_session s d name w).0 ≡ ok t
      → StoppedIn s d name w t × ((stopped_session s d name w).1.workspaces ≡ w.workspaces)
  found_stopped watches name w t h =
      let (stopped, w_is) =
        stopped_session-StoppedIn s d name w _ t
          (ap (λ o. (o, (stopped_session s d name w).1)) h) in
      (stopped, ap (λ x. x.workspaces) w_is ∙ watches.volumes_kept t.backend.object_id w)

  pub attachment_facts :
      (o : Option Attachment) (n i : Bytes)
      → attached_to o n ≡ true
      → attached_id o i ≡ true
      → (a : Attachment) × (o ≡ some a) × (a.session_name ≡ n) × (a.session_id ≡ i)
  attachment_facts none n i h k = cc
  attachment_facts (some a) n i h k =
      (a, refl, (eqb_iff a.session_name n).0 h, (eqb_iff a.session_id i).0 k)

  -- Attaching, once it has the locks, succeeds only on an available volume that is attached, used
  -- and pending nowhere and on a session that is stopped, by its record, without a rebuild, and by
  -- the backend; the volume then loads as before but for the new attachment, and every other
  -- volume loads as before. The observer leaves the volumes alone, and the texts are UTF-8.
  pub attach_locked-Written :
      (watches : Watches s) (volume_id session_name mount_path : Bytes) (w w' : World)
      (r : WorkspaceRecord)
      → IsText s.coerce r
      → attach_locked s d volume_id session_name mount_path w ≡ (ok r, w')
      → (old : WorkspaceRecord) × (t : SessionRecord) × Found volume_id session_name w old t
        × (old.attachment ≡ none)
        × (r ≡ record old {
          attachment =
              some (record {
                session_id = t.id;
                session_name = session_name;
                mount_path = mount_path;
              });
        })
        × Written d r w w'
  unfolding attach_locked
  attach_locked-Written watches volume_id session_name mount_path w w' r text h =
      let (old, loads, h1) = then_with-eq-ok (load_record d volume_id w, w) _ h in
      let (tests, h2) = guard-passed (is_idle old && not (is_some old.attachment)) _ h1 in
      let (t, found, h3) = then_with-eq-ok (stopped_session s d session_name w) _ h2 in
      let (stopped, kept) = found_stopped watches session_name w t found in
      let w1 = (stopped_session s d session_name w).1 in
      let (attached, listed, h4) =
        then_with-eq-ok (list_session_attachments d t.id session_name w1, w1) _ h3 in
      let (_, h5) = guard-passed (ltb (length attached) max_session_attachments) _ h4 in
      let (_, h6) = guard-passed (not (has_filesystem old.filesystem_uuid attached)) _ h5 in
      let (state, use_of, pending) = idle-facts old (ground arith) in
      let (r_is, done) = written Mutation.attach _ r w w1 w' kept text h6 in
      (
        old,
        t,
        record {
          loads = loads;
          available = state;
          unused = use_of;
          settled = pending;
          stopped_in = stopped;
        },
        ground arith,
        r_is,
        done,
      )

  -- Detaching, once it has the locks, succeeds only on an idle volume of exactly this stopped
  -- session; the volume then loads as before but for the attachment, which is gone, and every
  -- other volume loads as before. The observer leaves the volumes alone, and the texts are UTF-8.
  pub detach_locked-Written :
      (watches : Watches s) (volume_id session_name : Bytes) (w w' : World) (r : WorkspaceRecord)
      → IsText s.coerce r
      → detach_locked s d volume_id session_name w ≡ (ok r, w')
      → (old : WorkspaceRecord) × (t : SessionRecord) × Found volume_id session_name w old t
        × (a : Attachment) × (old.attachment ≡ some a)
        × (a.session_name ≡ session_name)
        × (a.session_id ≡ t.id)
        × (r ≡ record old { attachment = none })
        × Written d r w w'
  unfolding detach_locked
  detach_locked-Written watches volume_id session_name w w' r text h =
      let (old, loads, h1) = then_with-eq-ok (load_record d volume_id w, w) _ h in
      let (tests, h2) =
        guard-passed (is_idle old && attached_to old.attachment session_name) _ h1 in
      let (t, found, h3) = then_with-eq-ok (stopped_session s d session_name w) _ h2 in
      let (stopped, kept) = found_stopped watches session_name w t found in
      let w1 = (stopped_session s d session_name w).1 in
      let (session_is, h4) = guard-passed (attached_id old.attachment t.id) _ h3 in
      let (state, use_of, pending) = idle-facts old (ground arith) in
      let (r_is, done) = written Mutation.detach _ r w w1 w' kept text h4 in
      let (a, there, name_is, id_is) =
        attachment_facts old.attachment session_name t.id (ground arith) session_is in
      (
        old,
        t,
        record {
          loads = loads;
          available = state;
          unused = use_of;
          settled = pending;
          stopped_in = stopped;
        },
        a,
        there,
        name_is,
        id_is,
        r_is,
        done,
      )

  -- Reserving a use, once it has the locks, succeeds only on an idle volume whose attachment is the
  -- one that was read before, of a stopped session with exactly the backend object of the use; the
  -- volume then loads as before but for the use, and every other volume loads as before. The
  -- observer leaves the volumes alone, and the texts are UTF-8.
  pub reserve_use_locked-Written :
      (watches : Watches s) (volume_id : Bytes) (requested : Use) (initial : Attachment)
      (w w' : World) (r : WorkspaceRecord)
      → IsText s.coerce r
      → reserve_use_locked s d volume_id requested initial w ≡ (ok r, w')
      → (old : WorkspaceRecord) × (t : SessionRecord) × Found volume_id initial.session_name w old t
        × (old.attachment ≡ some initial)
        × (t.id ≡ initial.session_id)
        × (t.backend.object_id ≡ requested.backend_object)
        × (r ≡ record old { in_use = some requested })
        × Written d r w w'
  unfolding reserve_use_locked
  reserve_use_locked-Written watches volume_id requested initial w w' r text h =
      let (old, loads, h1) = then_with-eq-ok (load_record d volume_id w, w) _ h in
      let (tests, h2) =
        guard-passed (is_idle old && same Attachment-discrete old.attachment (some initial)) _ h1 in
      let (t, found, h3) = then_with-eq-ok (stopped_session s d initial.session_name w) _ h2 in
      let (stopped, kept) = found_stopped watches initial.session_name w t found in
      let w1 = (stopped_session s d initial.session_name w).1 in
      let (session_is, h4) =
        guard-passed
          (eqb t.id initial.session_id && eqb t.backend.object_id requested.backend_object) _ h3 in
      let (state, use_of, pending) = idle-facts old (ground arith) in
      let (r_is, done) = written Mutation.reserve_use _ r w w1 w' kept text h4 in
      (
        old,
        t,
        record {
          loads = loads;
          available = state;
          unused = use_of;
          settled = pending;
          stopped_in = stopped;
        },
        same-eq Attachment-discrete old.attachment (some initial) (ground arith),
        (eqb_iff t.id initial.session_id).0 (ground arith),
        (eqb_iff t.backend.object_id requested.backend_object).0 (ground arith),
        r_is,
        done,
      )
