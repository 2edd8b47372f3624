-- ===== src/Session/Delete/Reserved.antt =====
-- What stands durably before a backend object is deleted.
use boxwarden.Prelude.{
  Bool-cases, Bytes, ap, arith, err, inl, inr, ok, ok-injective, refl, same, subst, sym, true, ◌∙◌,
  ◌≡◌,
}
use boxwarden.Session.Decode.{is_stopped}
use boxwarden.Session.Delete.{as_deleting, reserve_again, reserve_deletion, reserve_stopped}
use boxwarden.Session.Outside.{Outside}
use boxwarden.Session.Store.{is_deleting, load_record, save_record, upgrade_record_for_store}
use boxwarden.Session.Store.Atomic.{load_record-save_record}
use boxwarden.Session.Types.{IntendedState, SessionRecord, SessionRecord-discrete}
use boxwarden.World.{M, World, fail}
use boxwarden.World.Runs.{guard-passed, then_with-eq-ok}

-- The gate has run the callback when it succeeds, and nothing wrote a session record behind it; the
-- release of a lock leaves the session records alone.
pub record Gates (s : Outside) : Type 0 where
  pub gate_runs :
      (r : SessionRecord) (reserve : M (Unit {0})) (w : World)
      → (s.delete_gate r reserve w).0 ≡ ok tt
      → (w1 : World) × ((reserve w1).0 ≡ ok tt)
        × ((s.delete_gate r reserve w).1.sessions ≡ (reserve w1).1.sessions)
  pub release_keeps : (w : World) → (s.release_session w).1.sessions ≡ w.sessions

module _ (s : Outside) (d : Bytes) where
  pub sessions_load :
      (n : Bytes) (w w' : World) → w'.sessions ≡ w.sessions → load_record d n w' ≡ load_record d n w
  unfolding load_record
  sessions_load n w w' e = rw e refl

  not_upgraded :
      (r : SessionRecord) → is_deleting r.intended_state ≡ true → upgrade_record_for_store r ≡ r
  unfolding upgrade_record_for_store
  not_upgraded r h = ground arith

  saved_deleting :
      (r : SessionRecord) (w1 w' : World)
      → is_deleting r.intended_state ≡ true
      → (save_record s.coerce d r w1).0 ≡ ok tt
      → w'.sessions ≡ (save_record s.coerce d r w1).1.sessions
      → load_record d r.name w' ≡ ok r
  saved_deleting r w1 w' h done e =
      sessions_load r.name (save_record s.coerce d r w1).1 w' e
      ∙ (load_record-save_record s.coerce d r w1 done).0
      ∙ ap ok (not_upgraded r h)

  is_deleting-eq : (i : IntendedState) → is_deleting i ≡ true → i ≡ IntendedState.deleting
  is_deleting-eq IntendedState.deleting h = refl
  is_deleting-eq _ h = cc

  -- The session is marked for deletion, and nothing but the mark and the readiness has changed.
  pub record Marked (r deleting : SessionRecord) (w : World) : Type 0 where
    pub intent : deleting.intended_state ≡ IntendedState.deleting
    pub object_kept : deleting.backend ≡ r.backend
    pub name_kept : deleting.name ≡ r.name
    pub id_kept : deleting.id ≡ r.id
    pub durable_mark : load_record d r.name w ≡ ok deleting

  from_stopped :
      (gates : Gates s) (r deleting : SessionRecord) (w w' : World)
      → reserve_stopped s d r w ≡ (ok deleting, w')
      → Marked r deleting w'
  unfolding reserve_stopped
  from_stopped gates r deleting w w' h =
      let (_, gate, last) =
        then_with-eq-ok (s.delete_gate r (save_record s.coerce d (as_deleting s d r)) w) _ h in
      let (w1, done, kept) =
        gates.gate_runs r (save_record s.coerce d (as_deleting s d r)) w gate in
      let w_is = ap (λ p. p.1.sessions) last in
      subst (λ x. Marked r x w') (ok-injective (as_deleting s d r) deleting (ap (λ p. p.0) last))
        (record {
          intent = refl;
          object_kept = refl;
          name_kept = refl;
          id_kept = refl;
          durable_mark = saved_deleting (as_deleting s d r) w1 w' refl done (sym w_is ∙ kept);
        })

  from_again :
      (gates : Gates s) (name : Bytes) (r deleting : SessionRecord) (w w' : World)
      → is_deleting r.intended_state ≡ true
      → reserve_again s d name r w ≡ (ok deleting, w')
      → Marked r deleting w'
  unfolding reserve_again
  from_again gates name r deleting w w' i h =
      let (_, _, h1) = then_with-eq-ok (s.acquire_session d name w) _ h in
      let w1 = (s.acquire_session d name w).1 in
      let (current, found, h2) = then_with-eq-ok (load_record d name w1, w1) _ h1 in
      let (_, h3) = guard-passed (same SessionRecord-discrete current r) _ h2 in
      let (_, done, h4) = then_with-eq-ok (save_record s.coerce d r w1) _ h3 in
      let w2 = (save_record s.coerce d r w1).1 in
      let (_, _, last) = then_with-eq-ok (s.release_session w2) _ h4 in
      let w_is = ap (λ p. p.1.sessions) last in
      subst (λ x. Marked r x w') (ok-injective r deleting (ap (λ p. p.0) last))
        (record {
          intent = is_deleting-eq _ i;
          object_kept = refl;
          name_kept = refl;
          id_kept = refl;
          durable_mark = saved_deleting r w1 w' i done (sym w_is ∙ gates.release_keeps w2);
        })

  -- A deletion that goes on to the backend has left a durable mark: the name loads a record that is
  -- being deleted, with the identity and the backend object of the session. The gate runs its
  -- callback, and releasing a lock leaves the session records alone.
  pub reserve_deletion-Marked :
      (gates : Gates s) (name : Bytes) (r deleting : SessionRecord) (w w' : World)
      → reserve_deletion s d name r w ≡ (ok deleting, w')
      → Marked r deleting w'
  unfolding reserve_deletion
  reserve_deletion-Marked gates name r deleting w w' h =
      elim (Bool-cases (is_stopped r.intended_state)) [
        | inl e ↦ from_stopped gates r deleting w w' (rw (reserve_deletion, e) at h)
        | inr e ↦ elim (Bool-cases (is_deleting r.intended_state)) [
          | inl i ↦ from_again gates name r deleting w w' i (rw (reserve_deletion, e, i) at h)
          | inr i ↦ failed deleting w w' (rw (reserve_deletion, e, i) at h)
        ]
      ]
    where
      failed :
          (x : SessionRecord) (w w' : World)
          → fail {A = SessionRecord} w ≡ (ok x, w')
          → Marked r deleting w'
      failed x w w' h = let e : err ≡ ok x = ap (λ p. p.0) h in cc
