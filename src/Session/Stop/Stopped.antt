-- ===== src/Session/Stop/Stopped.antt =====
-- The whole of a stop: the durable intent, and the session that it returns.
use boxwarden.Prelude.{
  Bool, Bool-cases, Bytes, [], ap, arith, eqb, false, guard, if◌then◌else◌, inl, inr, is_empty, not,
  ok, ok-injective, refl, subst, sym, true, ◌&&◌, ◌||◌, ◌∙◌, ◌≡◌, ◌⊎◌,
}
use boxwarden.Backend.{Observation, is_running_object, is_stopped_object}
use boxwarden.Ident.{valid_uuid}
use boxwarden.Session.Decode.{is_stopped, is_stopping}
use boxwarden.Session.Outside.{Outside}
use boxwarden.Session.Stop.{
  as_stopping, can_stop, finish_stopped, observe_exact, persist_stopping, stop_active, stop_live,
  stop_locked, stop_quiet, stop_seen, write_stopping,
}
use boxwarden.Session.Stop.Finished.{finish_stopped-Settled}
use boxwarden.Session.Store.{load_record, save_record, upgrade_record_for_store}
use boxwarden.Session.Store.Atomic.{load_record-save_record}
use boxwarden.Session.Types.{IntendedState, SessionRecord, tart}
use boxwarden.World.{World, lift, ◌>>◌}
use boxwarden.World.Runs.{guard-passed, then_with-eq-ok}

module _ (s : Outside) (d : Bytes) where
  -- The intent to stop is durable when the session goes on to be stopped: the session was stopping
  -- already and nothing was written, or it now loads as stopping, with the generation it had.
  pub persist_stopping-durable :
      (r marked : SessionRecord) (w w' : World)
      → persist_stopping s d r w ≡ (ok marked, w')
      → ((is_stopping r.intended_state ≡ true) × (marked ≡ r) × (w' ≡ w))
        ⊎ ((is_stopping r.intended_state ≡ false)
            × (marked ≡ as_stopping s d r)
            × (load_record d r.name w' ≡ ok marked))
  unfolding persist_stopping write_stopping
  persist_stopping-durable r marked w w' h = elim (Bool-cases (is_stopping r.intended_state)) [
    | inl e ↦
        let k = rw (persist_stopping, e) at h in
        inl (e, sym (ok-injective r marked (ap (λ p. p.0) k)), sym (ap (λ p. p.1) k))
    | inr e ↦
        let k = rw (persist_stopping, e) at h in
        let (_, done, last) = then_with-eq-ok (save_record s.coerce d (as_stopping s d r) w) _ k in
        let m_is = ok-injective (as_stopping s d r) marked (ap (λ p. p.0) last) in
        let (loads_it, _) = load_record-save_record s.coerce d (as_stopping s d r) w done in
        inr (
          e,
          sym m_is,
          subst (λ x. load_record d r.name x ≡ ok marked) (ap (λ p. p.1) last)
              (loads_it ∙ ap ok (not_upgraded r ∙ m_is)),
        )
  ]
    where
      not_upgraded :
          (r : SessionRecord) → upgrade_record_for_store (as_stopping s d r) ≡ as_stopping s d r
      not_upgraded r = unfold upgrade_record_for_store in ground arith

  -- The states of a session that is not stopped yet and may be.
  pub data Live : IntendedState → Type 0 where
    starting : Live IntendedState.starting
    running : Live IntendedState.running
    stopping : Live IntendedState.stopping

  can_stop-Live : (i : IntendedState) → can_stop s d i ≡ true → Live i
  can_stop-Live IntendedState.starting h = starting
  can_stop-Live IntendedState.running h = running
  can_stop-Live IntendedState.stopping h = stopping
  can_stop-Live _ h = cc

  is_stopped-eq : (i : IntendedState) → is_stopped i ≡ true → i ≡ IntendedState.stopped
  is_stopped-eq IntendedState.stopped h = refl
  is_stopped-eq _ h = cc

  -- The identity of a session that a stop keeps.
  pub record SameSession (old r : SessionRecord) : Type 0 where
    pub domain_kept : r.domain ≡ old.domain
    pub name_kept : r.name ≡ old.name
    pub id_kept : r.id ≡ old.id
    pub mode_kept : r.mode ≡ old.mode
    pub object_kept : r.backend ≡ old.backend
    pub revision_kept : r.golden_revision ≡ old.golden_revision

  abbrev pub IsStopped : SessionRecord → SessionRecord → Type 0
  IsStopped old r = (r.intended_state ≡ IntendedState.stopped) × SameSession old r

  same_session : (r : SessionRecord) → SameSession r r
  same_session r = record {
    domain_kept = refl;
    name_kept = refl;
    id_kept = refl;
    mode_kept = refl;
    object_kept = refl;
    revision_kept = refl;
  }

  finished :
      (name diagnostic : Bytes) (expected r : SessionRecord) (w w' : World)
      → finish_stopped s d name expected diagnostic w ≡ (ok r, w')
      → IsStopped expected r
  finished name diagnostic expected r w w' h =
      let (_, _, settling) = finish_stopped-Settled s d name diagnostic expected w w' r h in
      elim settling [
        | inl (e, r_is, _) ↦
            subst (λ x. IsStopped expected x) (sym r_is)
              (is_stopped-eq expected.intended_state e, same_session expected)
        | inr (_, r_is, _, _) ↦
            subst (λ x. IsStopped expected x) (sym r_is)
              (
                refl,
                record {
                  domain_kept = refl;
                  name_kept = refl;
                  id_kept = refl;
                  mode_kept = refl;
                  object_kept = refl;
                  revision_kept = refl;
                },
              )
      ]

  live :
      (name : Bytes) (m r : SessionRecord) (w w' : World)
      → stop_live s d name m w ≡ (ok r, w')
      → IsStopped m r
  unfolding stop_live
  live name m r w w' h =
      let (_, _, h1) = then_with-eq-ok (s.release_session w) _ h in
      let (text, _, h2) = then_with-eq-ok (s.stop_generation m (s.release_session w).1) _ h1 in
      finished name text m r _ w' h2

  quiet :
      (name : Bytes) (m r : SessionRecord) (w w' : World)
      → stop_quiet s d name m w ≡ (ok r, w')
      → IsStopped m r
  unfolding stop_quiet
  quiet name m r w w' h =
      let (over, _, h1) = then_with-eq-ok (s.quiesced m w) _ h in settle over (s.quiesced m w).1 h1
    where
      settle :
          (over : Bool) (v : World)
          → (if over then finish_stopped s d name m [] else stop_live s d name m) v ≡ (ok r, w')
          → IsStopped m r
      settle true v k = finished name [] m r v w' k
      settle false v k = live name m r v w' k

  either :
      (b : Bool) (name : Bytes) (m r : SessionRecord) (w w' : World)
      → (if b then stop_quiet s d name m else stop_live s d name m) w ≡ (ok r, w')
      → IsStopped m r
  either true name m r w w' h = quiet name m r w w' h
  either false name m r w w' h = live name m r w w' h

  active :
      (name : Bytes) (old r : SessionRecord) (o : Observation) (w w' : World)
      → stop_active s d name old o w ≡ (ok r, w')
      → Live old.intended_state × (valid_uuid old.start_generation ≡ true) × IsStopped old r
  unfolding stop_active
  active name old r o w w' h =
      let (can, h1) = guard-passed (can_stop s d old.intended_state) _ h in
      let (generation, h2) = guard-passed (valid_uuid old.start_generation) _ h1 in
      let (m, persisted, h3) = then_with-eq-ok (persist_stopping s d old w) _ h2 in
      let w1 = (persist_stopping s d old w).1 in
      let stopped = either (is_stopped_object o.state) name m r w1 w' h3 in
      (
        can_stop-Live old.intended_state can,
        generation,
        elim (persist_stopping-durable old m w w1 (ap (λ z. (z, w1)) persisted)) [
          | inl (_, m_is, _) ↦ subst (λ x. IsStopped x r) m_is stopped
          | inr (_, m_is, _) ↦ of_marked old r (subst (λ x. IsStopped x r) m_is stopped)
        ],
      )
    where
      of_marked : (old r : SessionRecord) → IsStopped (as_stopping s d old) r → IsStopped old r
      of_marked old r (e, k) = (
        e,
        record {
          domain_kept = k.domain_kept;
          name_kept = k.name_kept;
          id_kept = k.id_kept;
          mode_kept = k.mode_kept;
          object_kept = k.object_kept;
          revision_kept = k.revision_kept;
        },
      )

  seen_stopped :
      (name : Bytes) (old : SessionRecord) (o : Observation) (w : World)
      → is_stopped old.intended_state ≡ true
      → stop_seen s d name old o w
        ≡ (lift (guard (is_stopped_object o.state)) >> finish_stopped s d name old []) w
  unfolding stop_seen
  seen_stopped name old o w e = rw e refl

  seen_active :
      (name : Bytes) (old : SessionRecord) (o : Observation) (w : World)
      → is_stopped old.intended_state ≡ false
      → stop_seen s d name old o w ≡ stop_active s d name old o w
  unfolding stop_seen
  seen_active name old o w e = rw e refl

  -- A stop that succeeds returns a stopped record of the session that was loaded, with its
  -- identity, mode, backend object and base revision; the session was stopped already, or it was
  -- starting, running or stopping under an exact generation.
  pub stop_locked-IsStopped :
      (name : Bytes) (w w' : World) (r : SessionRecord)
      → stop_locked s d name w ≡ (ok r, w')
      → (old : SessionRecord) × (load_record d name w ≡ ok old)
        × ((old.intended_state ≡ IntendedState.stopped)
            ⊎ (Live old.intended_state × (valid_uuid old.start_generation ≡ true)))
        × IsStopped old r
  unfolding stop_locked
  stop_locked-IsStopped name w w' r h =
      let (old, loads_it, h1) = then_with-eq-ok (load_record d name w, w) _ h in
      let (_, h2) =
        guard-passed (eqb old.backend.kind tart && not (is_empty old.backend.object_id)) _ h1 in
      let (o, _, h3) = then_with-eq-ok (observe_exact s d old.backend.object_id w) _ h2 in
      let w1 = (observe_exact s d old.backend.object_id w).1 in
      let (_, h4) =
        guard-passed (o.exists && (is_stopped_object o.state || is_running_object o.state)) _ h3 in
      elim (Bool-cases (is_stopped old.intended_state)) [
        | inl e ↦
            let (_, h5) =
              guard-passed (is_stopped_object o.state) _
                (sym (seen_stopped name old o w1 e) ∙ h4) in
            (
              old,
              loads_it,
              inl (is_stopped-eq old.intended_state e),
              finished name [] old r w1 w' h5,
            )
        | inr e ↦
            let (can, generation, stopped) =
              active name old r o w1 w' (sym (seen_active name old o w1 e) ∙ h4) in
            (old, loads_it, inr (can, generation), stopped)
      ]
