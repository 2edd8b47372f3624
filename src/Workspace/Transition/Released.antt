-- ===== src/Workspace/Transition/Released.antt =====
-- What the release of a use has checked.
use boxwarden.Prelude.{
  Bool, Bytes, Option, ap, arith, eqb, eqb_iff, false, inl, inr, is_some, none, not, ok, refl, same,
  same-eq, some, true, ◌&&◌, ◌||◌, ◌∙◌, ◌≡◌, ◌⊎◌,
}
use boxwarden.Services.{Services}
use boxwarden.Session.Decode.{is_stopped, is_stopping}
use boxwarden.Session.Store.{load_session}
use boxwarden.Session.Types.{IntendedState, SessionRecord, tart}
use boxwarden.Workspace.Bindings.{Mutation, load_record}
use boxwarden.Workspace.Decode.Marshal.{IsText}
use boxwarden.Workspace.Transition.{
  attached_id, attached_to, ends_use, observed_stopped, release_use_locked,
}
use boxwarden.Workspace.Transition.Granted.{Written, written}
use boxwarden.Workspace.Transition.Stopped.{SeenStopped, Watches, observed_stopped-SeenStopped}
use boxwarden.Workspace.Types.{Attachment, Use, Use-discrete, WorkspaceRecord}
use boxwarden.World.{World}
use boxwarden.World.Runs.{guard-passed, then_with-eq-ok}

module _ (s : Services) (d : Bytes) where
  -- The session is stopped, or is stopping the generation that used the volume.
  pub record Ended (r : SessionRecord) (a : Attachment) (u : Use) : Type 0 where
    pub identity : r.id ≡ a.session_id
    pub kind : r.backend.kind ≡ u.backend_kind
    pub object_is : r.backend.object_id ≡ u.backend_object
    pub intent :
        (r.intended_state ≡ IntendedState.stopped)
        ⊎ ((r.intended_state ≡ IntendedState.stopping) × (r.start_generation ≡ u.generation))

  intent_of :
      (i : IntendedState) (same_generation : Bool)
      → (is_stopped i || is_stopping i) ≡ true
      → not (is_stopping i && not same_generation) ≡ true
      → (i ≡ IntendedState.stopped) ⊎ ((i ≡ IntendedState.stopping) × (same_generation ≡ true))
  intent_of IntendedState.stopped g h k = inl refl
  intent_of IntendedState.stopping true h k = inr (refl, refl)
  intent_of IntendedState.stopping false h k = cc
  intent_of _ g h k = cc

  ends_use-Ended :
      (r : SessionRecord) (a : Attachment) (u : Use) → ends_use s d r a u ≡ true → Ended r a u
  unfolding ends_use
  ends_use-Ended r a u h = record {
    identity = (eqb_iff r.id a.session_id).0 (ground arith);
    kind = (eqb_iff r.backend.kind u.backend_kind).0 (ground arith);
    object_is = (eqb_iff r.backend.object_id u.backend_object).0 (ground arith);
    intent =
        elim (intent_of r.intended_state (eqb r.start_generation u.generation) (ground arith)
          (ground arith)) [
            | inl e ↦ inl e
            | inr (e, g) ↦ inr (e, (eqb_iff r.start_generation u.generation).0 g)
          ];
  }

  attached_both :
      (o : Option Attachment) (a : Attachment)
      → attached_to o a.session_name ≡ true
      → attached_id o a.session_id ≡ true
      → (b : Attachment) × (o ≡ some b)
        × (b.session_name ≡ a.session_name)
        × (b.session_id ≡ a.session_id)
  attached_both none a h k = cc
  attached_both (some b) a h k = (
    b,
    refl,
    (eqb_iff b.session_name a.session_name).0 h,
    (eqb_iff b.session_id a.session_id).0 k,
  )

  -- Releasing a use, once it has the locks, succeeds only on a volume with exactly this use that is
  -- still attached to the session that was read before; its owner is stopped, or is stopping
  -- exactly the generation of the use, and its backend object is seen stopped. The volume then
  -- loads as before but for the use, which is gone, and every other volume loads as before. The
  -- observer leaves the volumes alone, and the texts are UTF-8.
  pub release_use_locked-Written :
      (watches : Watches s) (volume_id : Bytes) (expected : Use) (initial : Attachment)
      (w w' : World) (r : WorkspaceRecord)
      → IsText s.coerce r
      → release_use_locked s d volume_id expected initial w ≡ (ok r, w')
      → (old : WorkspaceRecord) × (owner : SessionRecord) × (a : Attachment) × (load_record d
            volume_id w
          ≡ ok old)
        × (old.attachment ≡ some a)
        × (a.session_name ≡ initial.session_name)
        × (a.session_id ≡ initial.session_id)
        × (old.in_use ≡ some expected)
        × (old.pending ≡ none)
        × (load_session d initial.session_name w ≡ ok owner)
        × Ended owner initial expected
        × SeenStopped s d expected.backend_object w
        × (r ≡ record old { in_use = none })
        × Written d r w w'
  unfolding release_use_locked
  release_use_locked-Written watches volume_id expected initial w w' r text h =
      let (old, loaded, h1) = then_with-eq-ok (load_record d volume_id w, w) _ h in
      let (tests, h2) =
        guard-passed
          (attached_to old.attachment initial.session_name
            && attached_id old.attachment initial.session_id
            && same Use-discrete old.in_use (some expected)
            && not (is_some old.pending))
          _ h1 in
      let (_, h3) = guard-passed (eqb expected.backend_kind tart) _ h2 in
      let (owner, owns, h4) = then_with-eq-ok (load_session d initial.session_name w, w) _ h3 in
      let (ended, h5) = guard-passed (ends_use s d owner initial expected) _ h4 in
      let (_, found, h6) = then_with-eq-ok (observed_stopped s d expected.backend_object w) _ h5 in
      let w1 = (observed_stopped s d expected.backend_object w).1 in
      let (seen, w1_is) =
        observed_stopped-SeenStopped s d expected.backend_object w w1 (ap (λ o. (o, w1)) found) in
      let kept = ap (λ x. x.workspaces) w1_is ∙ watches.volumes_kept expected.backend_object w in
      let (r_is, done) = written s d Mutation.release_use _ r w w1 w' kept text h6 in
      let (a, there, name_is, id_is) =
        attached_both old.attachment initial (ground arith) (ground arith) in
      (
        old,
        owner,
        a,
        loaded,
        there,
        name_is,
        id_is,
        same-eq Use-discrete old.in_use (some expected) (ground arith),
        ground arith,
        owns,
        ends_use-Ended owner initial expected ended,
        seen,
        r_is,
        done,
      )
