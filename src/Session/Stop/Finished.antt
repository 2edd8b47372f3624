-- ===== src/Session/Stop/Finished.antt =====
-- What a stop that succeeds has seen.
use boxwarden.Prelude.{
  Bool-cases, Bytes, ap, arith, eqb_iff, false, inl, inr, ok, ok-injective, same, same-eq, subst,
  sym, true, ◌&&◌, ◌∙◌, ◌≡◌, ◌⊎◌,
}
use boxwarden.Backend.{Observation, is_exact, is_stopped_object}
use boxwarden.Session.Decode.{is_stopped}
use boxwarden.Session.Decode.Valid.{IsValid}
use boxwarden.Session.Outside.{Outside}
use boxwarden.Session.Stop.{
  as_stopped, finish_stopped, observe_exact, persist_stopped, settle_stopped, with_diagnostic,
}
use boxwarden.Session.Store.{load_record, save_record, upgrade_record_for_store}
use boxwarden.Session.Store.Atomic.{load_record-save_record}
use boxwarden.Session.Types.{SessionRecord, SessionRecord-discrete}
use boxwarden.World.{World}
use boxwarden.World.Runs.{guard-passed, then_with-eq-ok}

module _ (s : Outside) (d : Bytes) where
  -- The session behind a finished stop, in the world where the lock is held again: its record is
  -- the one that was to be stopped, and its backend object is there and stopped.
  pub record StoppedAt (name : Bytes) (expected : SessionRecord) (w : World) : Type 0 where
    pub loads_it : load_record d name w ≡ ok expected
    pub answer : Observation
    pub observes : (s.observe expected.backend.object_id w).0 ≡ ok answer
    pub object_is : answer.object_id ≡ expected.backend.object_id
    pub is_there : answer.exists ≡ true
    pub state_is : is_stopped_object answer.state ≡ true

  abbrev pub after_release : World → World
  after_release w = (s.release_session w).1

  -- The world in which the lock is held again.
  abbrev pub locked_again : Bytes → SessionRecord → World → World
  locked_again name expected w =
      (s.acquire_session d name (s.release_uses expected (after_release w)).1).1

  -- What is left to be written, or nothing.
  abbrev pub Settled : SessionRecord → SessionRecord → Bytes → World → World → Type 0
  Settled expected r diagnostic w w' =
      ((is_stopped expected.intended_state ≡ true) × (r ≡ expected) × (w' ≡ w))
      ⊎ ((is_stopped expected.intended_state ≡ false)
          × (r ≡ as_stopped s d (with_diagnostic s d expected diagnostic))
          × (load_record expected.domain expected.name w' ≡ ok (upgrade_record_for_store r))
          × IsValid (upgrade_record_for_store r))

  settled :
      (expected r : SessionRecord) (diagnostic : Bytes) (w w' : World)
      → settle_stopped s d expected diagnostic w ≡ (ok r, w')
      → Settled expected r diagnostic w w'
  unfolding settle_stopped persist_stopped
  settled expected r diagnostic w w' h = elim (Bool-cases (is_stopped expected.intended_state)) [
    | inl e ↦
        let k = rw (settle_stopped, e) at h in
        inl (e, sym (ok-injective expected r (ap (λ p. p.0) k)), sym (ap (λ p. p.1) k))
    | inr e ↦
        let next = as_stopped s d (with_diagnostic s d expected diagnostic) in
        let k = rw (settle_stopped, e) at h in
        let (_, done, last) = then_with-eq-ok (save_record s.coerce expected.domain next w) _ k in
        let r_is : next ≡ r = ok-injective next r (ap (λ p. p.0) last) in
        let (loads_it, valid) = load_record-save_record s.coerce expected.domain next w done in
        inr (
          e,
          sym r_is,
          subst
              (λ x. load_record expected.domain expected.name w' ≡ ok (upgrade_record_for_store x))
              r_is
              (subst
                (λ x.
                  load_record expected.domain expected.name x ≡ ok (upgrade_record_for_store next))
                (ap (λ p. p.1) last) loads_it),
          subst (λ x. IsValid (upgrade_record_for_store x)) r_is valid,
        )
  ]

  observe_exact-facts :
      (object_id : Bytes) (w w' : World) (o : Observation)
      → observe_exact s d object_id w ≡ (ok o, w')
      → ((s.observe object_id w).0 ≡ ok o)
        × (o.object_id ≡ object_id)
        × (w' ≡ (s.observe object_id w).1)
  unfolding observe_exact is_exact
  observe_exact-facts object_id w w' o h =
      let (x, seen, h1) = then_with-eq-ok (s.observe object_id w) _ h in
      let (exact, h2) = guard-passed (is_exact object_id x) _ h1 in
      let x_is : x ≡ o = ok-injective x o (ap (λ p. p.0) h2) in
      (
        seen ∙ ap ok x_is,
        sym (ap (λ z. z.object_id) x_is) ∙ (eqb_iff x.object_id object_id).0 (ground arith),
        sym (ap (λ p. p.1) h2),
      )

  -- Finishing a stop succeeds only after the workspace uses have been released, with the session
  -- locked again, its record unchanged and its backend object there and stopped. A stopped session
  -- is then returned and nothing is written; otherwise the stopped record, without a generation,
  -- has been saved, is valid and is what the name loads.
  pub finish_stopped-Settled :
      (name diagnostic : Bytes) (expected : SessionRecord) (w w' : World) (r : SessionRecord)
      → finish_stopped s d name expected diagnostic w ≡ (ok r, w')
      → ((s.release_uses expected (after_release w)).0 ≡ ok tt)
        × StoppedAt name expected (locked_again name expected w)
        × Settled expected r diagnostic
            (s.observe expected.backend.object_id (locked_again name expected w)).1
            w'
  unfolding finish_stopped observe_exact is_exact
  finish_stopped-Settled name diagnostic expected w w' r h =
      let (_, _, h1) = then_with-eq-ok (s.release_session w) _ h in
      let (_, released, h2) = then_with-eq-ok (s.release_uses expected (after_release w)) _ h1 in
      let (_, _, h3) =
        then_with-eq-ok (s.acquire_session d name (s.release_uses expected (after_release w)).1) _
          h2 in
      let w3 = locked_again name expected w in
      let (current, found, h4) = then_with-eq-ok (load_record d name w3, w3) _ h3 in
      let (unchanged, h5) = guard-passed (same SessionRecord-discrete current expected) _ h4 in
      let current_is = same-eq SessionRecord-discrete current expected unchanged in
      let (o, exact, h6) = then_with-eq-ok (observe_exact s d current.backend.object_id w3) _ h5 in
      let (seen, fits, w4_is) =
        observe_exact-facts current.backend.object_id w3 _ o
          (ap (λ z. (z, (observe_exact s d current.backend.object_id w3).1)) exact) in
      let (stopped, h7) = guard-passed (o.exists && is_stopped_object o.state) _ h6 in
      (
        released,
        subst (λ c. StoppedAt name c w3) current_is
            (record {
              loads_it = found;
              answer = o;
              observes = seen;
              object_is = fits;
              is_there = ground arith;
              state_is = ground arith;
            }),
        subst (λ c. Settled c r diagnostic (s.observe c.backend.object_id w3).1 w') current_is
            (subst (λ x. Settled current r diagnostic x w') w4_is
              (settled current r diagnostic (observe_exact s d current.backend.object_id w3).1 w'
                h7)),
      )
