-- ===== src/Session/Delete/Deleted.antt =====
-- The order of a deletion that succeeds.
use boxwarden.Prelude.{
  Bool, Bytes, ap, arith, eqb_iff, false, if◌then◌else◌, inl, inr, ok, refl, subst, sym, true, ◌≡◌,
  ◌⊎◌,
}
use boxwarden.Backend.{ObjectState, Observation, is_stopped_object, is_unknown_object}
use boxwarden.Session.Delete.{
  delete_backend, delete_locked, is_absent, is_deletable, reserve_deletion,
}
use boxwarden.Session.Delete.Reserved.{Gates, Marked, reserve_deletion-Marked}
use boxwarden.Session.Outside.{Outside}
use boxwarden.Session.Rebuild.Registry.{require_no_rebuild}
use boxwarden.Session.Store.{load_record}
use boxwarden.Session.Types.{SessionRecord}
use boxwarden.World.{World, pure}
use boxwarden.World.Runs.{guard-passed, guard_last, then_with-eq-ok}

module _ (s : Outside) (d : Bytes) where
  -- What was seen before and behind the call of the deleter, which is made only for an object that
  -- is there and stopped.
  pub record ObjectGone (object_id : Bytes) (w w' : World) : Type 0 where
    pub before : Observation
    pub seen_before : (s.observe object_id w).0 ≡ ok before
    pub before_is : before.object_id ≡ object_id
    pub between : World
    pub called :
        ((before.exists ≡ true)
          × (before.state ≡ ObjectState.stopped)
          × (s.delete_object object_id (s.observe object_id w).1 ≡ (ok tt, between)))
        ⊎ ((before.exists ≡ false)
            × (before.state ≡ ObjectState.unknown)
            × (between ≡ (s.observe object_id w).1))
    pub after : Observation
    pub seen_after : s.observe object_id between ≡ (ok after, w')
    pub object_is : after.object_id ≡ object_id
    pub is_gone : after.exists ≡ false

  call_if :
      (b : Bool) (object_id : Bytes) (w w1 : World)
      → (if b then s.delete_object object_id else pure tt) w ≡ (ok tt, w1)
      → ((b ≡ true) × (s.delete_object object_id w ≡ (ok tt, w1))) ⊎ ((b ≡ false) × (w1 ≡ w))
  call_if true object_id w w1 h = inl (refl, h)
  call_if false object_id w w1 h = inr (refl, sym (ap (λ p. p.1) h))

  is_stopped_object-eq : (o : ObjectState) → is_stopped_object o ≡ true → o ≡ ObjectState.stopped
  is_stopped_object-eq ObjectState.stopped h = refl
  is_stopped_object-eq _ h = cc

  is_unknown_object-eq : (o : ObjectState) → is_unknown_object o ≡ true → o ≡ ObjectState.unknown
  is_unknown_object-eq ObjectState.unknown h = refl
  is_unknown_object-eq _ h = cc

  delete_backend-ObjectGone :
      (object_id : Bytes) (w w' : World)
      → delete_backend s d object_id w ≡ (ok tt, w')
      → ObjectGone object_id w w'
  unfolding delete_backend is_absent is_deletable
  delete_backend-ObjectGone object_id w w' h =
      let (x, seen, h1) = then_with-eq-ok (s.observe object_id w) _ h in
      let w1 = (s.observe object_id w).1 in
      let (deletable, h2) = guard-passed (is_deletable s d object_id x) _ h1 in
      let step = (if x.exists then s.delete_object object_id else pure tt) w1 in
      let (_, called, h3) = then_with-eq-ok step _ h2 in
      let (y, seen_y, h4) = then_with-eq-ok (s.observe object_id step.1) _ h3 in
      let (absent, w_is) = guard_last (is_absent s d object_id y) h4 in
      record {
        before = x;
        seen_before = seen;
        before_is = (eqb_iff x.object_id object_id).0 (ground arith);
        between = step.1;
        called = elim (call_if x.exists object_id w1 step.1 (ap (λ o. (o, step.1)) called)) [
          | inl (there, ran) ↦ inl (there, is_stopped_object-eq x.state (ground arith), ran)
          | inr (gone, kept) ↦ inr (gone, is_unknown_object-eq x.state (ground arith), kept)
        ];
        after = y;
        seen_after =
            subst (λ z. s.observe object_id step.1 ≡ (ok y, z)) w_is
              (ap (λ o. (o, (s.observe object_id step.1).1)) seen_y);
        object_is = (eqb_iff y.object_id object_id).0 (ground arith);
        is_gone = ground arith;
      }

  -- A deletion in its order: the record, no rebuild, the durable mark, the object gone, and then
  -- the finalizer.
  pub record Deleted (name : Bytes) (w w' : World) : Type 0 where
    pub old : SessionRecord
    pub loads_old : load_record d name w ≡ ok old
    pub no_rebuild : require_no_rebuild d name w ≡ ok tt
    pub deleting : SessionRecord
    pub marked_in : World
    pub marks : Marked s d old deleting marked_in
    pub gone_in : World
    pub gone : ObjectGone deleting.backend.object_id marked_in gone_in
    pub finalized : s.finalize deleting gone_in ≡ (ok tt, w')

  -- A deletion that succeeds has loaded the record, found no rebuild, left a durable mark before
  -- the backend was asked, called the deleter only for an object that was there and stopped, seen
  -- the object gone behind it, and finalized last. The gate runs its callback, and releasing a
  -- lock leaves the session records alone.
  pub delete_locked-Deleted :
      (gates : Gates s) (name : Bytes) (w w' : World)
      → delete_locked s d name w ≡ (ok tt, w')
      → Deleted name w w'
  unfolding delete_locked
  delete_locked-Deleted gates name w w' h =
      let (r, loads_r, h1) = then_with-eq-ok (load_record d name w, w) _ h in
      let (_, free, h2) = then_with-eq-ok (require_no_rebuild d name w, w) _ h1 in
      let (marked, was_marked, h3) = then_with-eq-ok (reserve_deletion s d name r w) _ h2 in
      let w1 = (reserve_deletion s d name r w).1 in
      let (_, deleted, h4) =
        then_with-eq-ok (delete_backend s d marked.backend.object_id w1) _ h3 in
      let w2 = (delete_backend s d marked.backend.object_id w1).1 in
      record {
        old = r;
        loads_old = loads_r;
        no_rebuild = free;
        deleting = marked;
        marked_in = w1;
        marks = reserve_deletion-Marked s d gates name r marked w w1 (ap (λ o. (o, w1)) was_marked);
        gone_in = w2;
        gone = delete_backend-ObjectGone marked.backend.object_id w1 w2 (ap (λ o. (o, w2)) deleted);
        finalized = h4;
      }
