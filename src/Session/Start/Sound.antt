-- ===== src/Session/Start/Sound.antt =====
-- Every way through a start ends in what may be accepted.
use boxwarden.Prelude.{
  Bytes, Option, Outcome, ap, eqb, err, if◌then◌else◌, inl, inr, is_empty, not, ok, ok-injective,
  refl, same, subst, true, ◌&&◌, ◌==◌, ◌||◌, ◌∙◌, ◌≡◌,
}
use boxwarden.Backend.{Observation, is_running_intent, is_running_object, is_stopped_object}
use boxwarden.Ident.{valid_uuid}
use boxwarden.Session.Decode.{is_starting, is_stopped}
use boxwarden.Session.Rebuild.Journal.{RebuildJournal}
use boxwarden.Session.Start.{
  Step, accept_started, accept_step, admits_rebuild, finish_step, is_converged, is_fresh,
  persist_ready, relaunch_poisoned, resume_owner, resume_seen, same_launch_identity, seen_at_rest,
  start_binding, start_from, start_locked, start_starting, start_stopped, upgrade_stopped,
}
use boxwarden.Session.Start.Accepted.{
  Accepted, Accepted-ready, Reported, accept_started-Accepted, launch-Accepted,
  persist_ready-ReadyOn, reconcile_ready-Accepted,
}
use boxwarden.Session.Stop.{observe_exact}
use boxwarden.Session.Store.{load_record}
use boxwarden.Session.Supervised.{Snapshot, Supervised}
use boxwarden.Session.Types.{SessionRecord, SessionRecord-discrete, tart}
use boxwarden.World.{M, World, asks, pure, ◌>>=◌}
use boxwarden.World.Runs.{fail-never, guard-passed, if-runs, then_with-eq-ok}

module _ (s : Supervised) (d : Bytes) where
  finish_step-Accepted :
      (name : Bytes) (p : Step) (q : SessionRecord) (w w' : World)
      → ((r : SessionRecord) → p ≡ Step.accepted r → Accepted s d r w)
      → finish_step s d name p w ≡ (ok q, w')
      → Accepted s d q w'
  unfolding finish_step
  finish_step-Accepted name (Step.launches r) q w w' h k = launch-Accepted s d name r q w w' k
  finish_step-Accepted name (Step.accepted r) q w w' h k =
      subst (λ x. Accepted s d x w') (ok-injective r q (ap (λ p. p.0) k))
        (subst (Accepted s d r) (ap (λ p. p.1) k) (h r refl))

  -- What a step promises: if it has accepted a session, then rightly.
  abbrev Sound : Step → World → Type 0
  Sound p w = (r : SessionRecord) → p ≡ Step.accepted r → Accepted s d r w

  launches-Sound :
      (r : SessionRecord) (p : Step) (w w' w1 : World)
      → pure (Step.launches r) w1 ≡ (ok p, w')
      → Sound p w'
  launches-Sound r p w w' w1 h q e =
      let x : Step.launches r ≡ Step.accepted q = ok-injective _ _ (ap (λ y. y.0) h) ∙ e in cc

  accept_step-Sound :
      (m : M SessionRecord) (p : Step) (w w' : World)
      → ((q : SessionRecord) (w1 : World) → m w ≡ (ok q, w1) → Accepted s d q w1)
      → accept_step s d m w ≡ (ok p, w')
      → Sound p w'
  accept_step-Sound m p w w' h k q e =
      let (r, ran, last) = then_with-eq-ok (m w) _ k in
      let q_is : r ≡ q = accepted-injective (ok-injective _ _ (ap (λ y. y.0) last) ∙ e) in
      subst (λ x. Accepted s d x w') q_is
        (subst (Accepted s d r) (ap (λ y. y.1) last) (h r (m w).1 (ap (λ o. (o, (m w).1)) ran)))
    where
      accepted-injective : {a b : SessionRecord} → Step.accepted a ≡ Step.accepted b → a ≡ b
      accepted-injective {a} e = ap (λ x. elim x [ Step.accepted y ↦ y | Step.launches _ ↦ a ]) e

  relaunch_poisoned-Sound :
      (name : Bytes) (r : SessionRecord) (p : Step) (w w' : World)
      → relaunch_poisoned s d name r w ≡ (ok p, w')
      → Sound p w'
  unfolding relaunch_poisoned
  relaunch_poisoned-Sound name r p w w' h =
      let (_, _, h1) = then_with-eq-ok (s.outside.release_session w) _ h in
      let w1 = (s.outside.release_session w).1 in
      let (_, _, h2) = then_with-eq-ok (s.stop_exact (start_binding r) w1) _ h1 in
      let w2 = (s.stop_exact (start_binding r) w1).1 in
      let (_, _, h3) = then_with-eq-ok (s.outside.acquire_session d name w2) _ h2 in
      let w3 = (s.outside.acquire_session d name w2).1 in
      let (c, _, h4) = then_with-eq-ok (load_record d name w3, w3) _ h3 in
      let (_, h5) = guard-passed (same_launch_identity r c && is_starting c.intended_state) _ h4 in
      let (_, _, h6) = then_with-eq-ok (seen_at_rest s d c.backend.object_id w3) _ h5 in
      launches-Sound c p w3 w' _ h6

  resume_owner-Sound :
      (name : Bytes) (r : SessionRecord) (o : Observation) (x : Snapshot) (p : Step)
      (w w' v : World)
      → is_starting r.intended_state ≡ true
      → (s.snapshot (start_binding r) v).0 ≡ ok x
      → resume_owner s d name r o x w ≡ (ok p, w')
      → Sound p w'
  unfolding resume_owner
  resume_owner-Sound name r o x p w w' v starts said h =
      elim (if-runs (not x.backend_running) _ _ h) [
        | inl (_, h1) ↦ elim (if-runs (is_running_object o.state) _ _ h1) [
          | inl (_, h2) ↦ fail-never h2 (Sound p w')
          | inr (_, h2) ↦ launches-Sound r p w w' w h2
        ]
        | inr (_, h1) ↦ elim (if-runs (x.serial_healthy && x.pin_present) _ _ h1) [
          | inl (_, h2) ↦ elim (if-runs (is_converged x) _ _ h2) [
            | inl (_, h3) ↦
                accept_step-Sound (persist_ready s d r x) p w w'
                  (λ q w1 k.
                    Accepted-ready s d
                      (persist_ready-ReadyOn s d r q x w w1 (Reported.by_snapshot v said) k))
                  h3
            | inr (_, h3) ↦
                accept_step-Sound (s.ready (start_binding r) >>= accept_started s d r) p w w'
                  (λ q w1 k.
                    let (y, ready_y, k1) = then_with-eq-ok (s.ready (start_binding r) w) _ k in
                    accept_started-Accepted s d r q y _ w1 starts (Reported.by_ready w ready_y) k1)
                  h3
          ]
          | inr (_, h2) ↦ elim (if-runs (not x.serial_healthy) _ _ h2) [
            | inl (_, h3) ↦ relaunch_poisoned-Sound name r p w w' h3
            | inr (_, h3) ↦ launches-Sound r p w w' w h3
          ]
        ]
      ]

  start_starting-Sound :
      (name : Bytes) (r : SessionRecord) (p : Step) (w w' : World)
      → is_starting r.intended_state ≡ true
      → start_starting s d name r w ≡ (ok p, w')
      → Sound p w'
  unfolding start_starting resume_seen
  start_starting-Sound name r p w w' starts h =
      let (o, _, h1) = then_with-eq-ok (observe_exact s.outside d r.backend.object_id w) _ h in
      let w1 = (observe_exact s.outside d r.backend.object_id w).1 in
      let (_, h2) =
        guard-passed (o.exists && (is_running_object o.state || is_stopped_object o.state)) _ h1 in
      resumes o (s.snapshot (start_binding r) w1).0 (s.snapshot (start_binding r) w1).1 w1 refl h2
    where
      resumes :
          (o : Observation) (seen : Outcome Snapshot) (w2 v : World)
          → (s.snapshot (start_binding r) v).0 ≡ seen
          → resume_seen s d name r o seen w2 ≡ (ok p, w')
          → Sound p w'
      resumes o err w2 v e h = elim (if-runs (is_running_object o.state) _ _ h) [
        | inl (_, h2) ↦ fail-never h2 (Sound p w')
        | inr (_, h2) ↦ launches-Sound r p w2 w' w2 h2
      ]
      resumes o (ok x) w2 v e h =
          let (now, _, h1) = then_with-eq-ok (s.now w2) _ h in
          let (_, h2) = guard-passed (is_fresh now r x) _ h1 in
          resume_owner-Sound name r o x p (s.now w2).1 w' v starts e h2

  start_stopped-Sound :
      (name : Bytes) (r : SessionRecord) (rebuild : Option RebuildJournal) (p : Step) (w w' : World)
      → start_stopped s d name r rebuild w ≡ (ok p, w')
      → Sound p w'
  unfolding start_stopped
  start_stopped-Sound name r rebuild p w w' h =
      let (_, _, h1) = then_with-eq-ok (seen_at_rest s d r.backend.object_id w) _ h in
      let (q, _, h2) =
        then_with-eq-ok
          ((if r.version == 1 then upgrade_stopped s d name r else pure r)
            (seen_at_rest s d r.backend.object_id w).1)
          _ h1 in
      let (_, _, h3) = then_with-eq-ok (s.outside.release_session _) _ h2 in
      let (_, _, h4) = then_with-eq-ok (s.outside.release_uses q _) _ h3 in
      let (_, _, h5) = then_with-eq-ok (s.outside.acquire_session d name _) _ h4 in
      let (c, _, h6) = then_with-eq-ok (load_record d name _, _) _ h5 in
      let (_, h7) = guard-passed (same SessionRecord-discrete c q) _ h6 in
      let (g, _, h8) = then_with-eq-ok (s.new_generation _) _ h7 in
      let (_, h9) = guard-passed (valid_uuid g) _ h8 in
      let (_, _, h10) = then_with-eq-ok (s.outside.release_session _) _ h9 in
      let (started, _, h11) = then_with-eq-ok (s.prepare_start q g rebuild _) _ h10 in
      let (_, _, h12) = then_with-eq-ok (s.outside.acquire_session d name _) _ h11 in
      let (loaded, _, h13) = then_with-eq-ok (load_record d name _, _) _ h12 in
      let (_, h14) =
        guard-passed
          (same SessionRecord-discrete loaded started && is_starting loaded.intended_state) _ h13 in
      launches-Sound loaded p w w' _ h14

  start_from-Accepted :
      (name : Bytes) (r q : SessionRecord) (rebuild : Option RebuildJournal) (w w' : World)
      → start_from s d name r rebuild w ≡ (ok q, w')
      → Accepted s d q w'
  unfolding start_from
  start_from-Accepted name r q rebuild w w' h = elim (if-runs (is_stopped r.intended_state) _ _ h) [
    | inl (_, h1) ↦
        let (p, ran, h2) = then_with-eq-ok (start_stopped s d name r rebuild w) _ h1 in
        let w1 = (start_stopped s d name r rebuild w).1 in
        finish_step-Accepted name p q w1 w'
          (start_stopped-Sound name r rebuild p w w1 (ap (λ o. (o, w1)) ran)) h2
    | inr (_, h1) ↦ elim (if-runs (is_starting r.intended_state) _ _ h1) [
      | inl (starts, h2) ↦
          let (p, ran, h3) = then_with-eq-ok (start_starting s d name r w) _ h2 in
          let w1 = (start_starting s d name r w).1 in
          finish_step-Accepted name p q w1 w'
            (start_starting-Sound name r p w w1 starts (ap (λ o. (o, w1)) ran)) h3
      | inr (_, h2) ↦ elim (if-runs (is_running_intent r.intended_state) _ _ h2) [
        | inl (_, h3) ↦ reconcile_ready-Accepted s d r q w w' h3
        | inr (_, h3) ↦ fail-never h3 (Accepted s d q w')
      ]
    ]
  ]

  -- A start that succeeds, once it has the locks, returns a running session or one that is still
  -- starting, and in either case rests on the supervisor's own answer about exactly this
  -- generation, with the backend running, the serial line healthy and the host key pinned, dated
  -- not in the future and at most 90 seconds old by a clock that was asked last, but for the write
  -- of the running record. A running session, moreover, has a current certificate, a good probe and
  -- the right zone, is written with success right behind the clock, and is what its name loads.
  pub start_locked-Accepted :
      (name : Bytes) (q : SessionRecord) (rebuild : Option RebuildJournal) (w w' : World)
      → start_locked s d name rebuild w ≡ (ok q, w')
      → Accepted s d q w'
  unfolding start_locked
  start_locked-Accepted name q rebuild w w' h =
      let (r, _, h1) = then_with-eq-ok (load_record d name w, w) _ h in
      let (_, _, h2) =
        then_with-eq-ok
          ((if is_empty r.recipe_intent_digest
              then pure tt
              else asks (s.load_recipe_intent r.recipe_intent_digest))
            w)
          _ h1 in
      let (_, _, h3) = then_with-eq-ok (admits_rebuild s d name r rebuild _, _) _ h2 in
      let (_, _, h4) = then_with-eq-ok (s.admit_prerequisites _) _ h3 in
      let (_, h5) =
        guard-passed (eqb r.backend.kind tart && not (is_empty r.backend.object_id)) _ h4 in
      let (_, _, h6) =
        then_with-eq-ok
          ((if is_starting r.intended_state || is_running_intent r.intended_state
              then s.verify_uses r
              else pure tt)
            _)
          _ h5 in
      start_from-Accepted name r q rebuild _ w' h6
