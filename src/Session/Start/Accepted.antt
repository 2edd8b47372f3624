-- ===== src/Session/Start/Accepted.antt =====
-- What a start accepts: the supervisor's word on exactly this generation, recent by the clock.
use boxwarden.Prelude.{
  Bytes, ap, arith, eqb_iff, inl, inr, is_empty, not, ok, ok-injective, refl, same-eq, subst, true,
  ℕ, ◌&&◌, ◌+◌, ◌<◌, ◌∙◌, ◌≡◌, ◌≤◌, ◌⊎◌,
}
use boxwarden.Backend.{is_running_intent}
use boxwarden.Ident.{valid_uuid}
use boxwarden.Session.Decode.{is_starting}
use boxwarden.Session.Start.{
  accept_launched, accept_started, as_ready, is_bootstrapped, is_converged, is_fresh, launch,
  persist_ready, reconcile_ready, same_launch_identity, start_binding,
}
use boxwarden.Session.Store.{load_record, save_record, upgrade_record_for_store}
use boxwarden.Session.Store.Atomic.{load_record-save_record}
use boxwarden.Session.Supervised.{Binding, Binding-discrete, Snapshot, Supervised}
use boxwarden.Session.Types.{BackendRef-discrete, IntendedState, ReadinessStatus, SessionRecord}
use boxwarden.World.{World, pure}
use boxwarden.World.Runs.{fail-never, guard-passed, if-runs, then_with-eq-ok}

module _ (s : Supervised) (d : Bytes) where
  -- The supervisor's answers about one generation.
  pub data Reported (b : Binding) (x : Snapshot) : Type 0 where
    by_snapshot : (w : World) → (s.snapshot b w).0 ≡ ok x → Reported b x
    by_ready : (w : World) → (s.ready b w).0 ≡ ok x → Reported b x
    by_launch : (name : Bytes) (w : World) → (s.start_exact b name w).0 ≡ ok x → Reported b x

  -- The backend runs, the serial line is healthy, and the host key is pinned.
  pub record Bootstrapped (x : Snapshot) : Type 0 where
    pub running : x.backend_running ≡ true
    pub healthy : x.serial_healthy ≡ true
    pub pinned : x.pin_present ≡ true

  -- The certificate is current, the probe is good, and the zone is right.
  pub record Converged (x : Snapshot) : Type 0 where
    pub current : x.certificate_current ≡ true
    pub probed : x.probe_ok ≡ true
    pub in_zone : x.zone_matches ≡ true

  -- By the clock, when it is asked in a world, the snapshot of exactly this generation is not from
  -- the future, and at most 90 seconds old.
  pub record Fresh (r : SessionRecord) (x : Snapshot) (clock : World) : Type 0 where
    pub time : ℕ
    pub told : (s.now clock).0 ≡ ok time
    pub binding_is : x.binding ≡ start_binding r
    pub dated : 0 < x.observed_at
    pub past : x.observed_at ≤ time
    pub recent : time ≤ x.observed_at + 90000000000

  fresh :
      (r : SessionRecord) (x : Snapshot) (w : World) (now : ℕ)
      → (s.now w).0 ≡ ok now
      → is_fresh now r x ≡ true
      → Fresh r x w
  unfolding is_fresh
  fresh r x w now e h = record {
    time = now;
    told = e;
    binding_is = same-eq Binding-discrete x.binding (start_binding r) (ground arith);
    dated = ground arith;
    past = ground arith;
    recent = ground arith;
  }

  bootstrapped : (x : Snapshot) → is_bootstrapped x ≡ true → Bootstrapped x
  unfolding is_bootstrapped
  bootstrapped x h = record {
    running = ground arith;
    healthy = ground arith;
    pinned = ground arith;
  }

  converged : (x : Snapshot) → is_converged x ≡ true → Converged x
  unfolding is_converged
  converged x h = record { current = ground arith; probed = ground arith; in_zone = ground arith }

  -- A running session, on record, whose owner is bootstrapped and converged: the clock was asked,
  -- the record was written in the world that the clock left, and this write left the world.
  pub record ReadyOn (r : SessionRecord) (w : World) : Type 0 where
    pub running : r.intended_state ≡ IntendedState.running
    pub status : r.readiness.status ≡ ReadinessStatus.ready
    pub seen : Snapshot
    pub reported : Reported (start_binding r) seen
    pub clock : World
    pub is_recent : Fresh r seen clock
    pub owner_up : Bootstrapped seen
    pub owner_converged : Converged seen
    pub written : save_record s.outside.coerce r.domain r (s.now clock).1 ≡ (ok tt, w)
    pub on_record : load_record r.domain r.name w ≡ ok r

  -- A session that is still starting, whose owner is bootstrapped: the clock was asked, and left the
  -- world.
  pub record BootstrappedOn (r : SessionRecord) (w : World) : Type 0 where
    pub starting : r.intended_state ≡ IntendedState.starting
    pub seen : Snapshot
    pub reported : Reported (start_binding r) seen
    pub clock : World
    pub is_recent : Fresh r seen clock
    pub owner_up : Bootstrapped seen
    pub asked_last : (s.now clock).1 ≡ w

  pub Accepted : SessionRecord → World → Type 0
  Accepted r w = ReadyOn r w ⊎ BootstrappedOn r w

  is_starting-eq : (i : IntendedState) → is_starting i ≡ true → i ≡ IntendedState.starting
  is_starting-eq IntendedState.starting h = refl
  is_starting-eq _ h = cc

  not_upgraded : (r : SessionRecord) → upgrade_record_for_store (as_ready s d r) ≡ as_ready s d r
  unfolding upgrade_record_for_store
  not_upgraded r = ground arith

  pub persist_ready-ReadyOn :
      (r q : SessionRecord) (x : Snapshot) (w w' : World)
      → Reported (start_binding r) x
      → persist_ready s d r x w ≡ (ok q, w')
      → ReadyOn q w'
  unfolding persist_ready start_binding
  persist_ready-ReadyOn r q x w w' said h =
      let (now, told_now, h1) = then_with-eq-ok (s.now w) _ h in
      let w1 = (s.now w).1 in
      let (tests, h2) =
        guard-passed (is_fresh now r x && is_bootstrapped x && is_converged x) _ h1 in
      let next = as_ready s d r in
      let (_, done, last) = then_with-eq-ok (save_record s.outside.coerce r.domain next w1) _ h2 in
      let (back, _) = load_record-save_record s.outside.coerce r.domain next w1 done in
      let w_is = ap (λ p. p.1) last in
      subst (λ y. ReadyOn y w') (ok-injective next q (ap (λ p. p.0) last))
        (record {
          running = refl;
          status = refl;
          seen = x;
          reported = said;
          clock = w;
          is_recent = fresh next x w now told_now (ground arith);
          owner_up = bootstrapped x (ground arith);
          owner_converged = converged x (ground arith);
          written =
              ap (λ y. (y, (save_record s.outside.coerce r.domain next w1).1)) done
              ∙ ap (λ y. (ok tt, y)) w_is;
          on_record =
              subst (λ y. load_record r.domain r.name y ≡ ok next) w_is
                (back ∙ ap ok (not_upgraded r));
        })

  pub Accepted-ready : {r : SessionRecord} {w : World} → ReadyOn r w → Accepted r w
  unfolding Accepted
  Accepted-ready h = inl h

  pub accept_started-Accepted :
      (r q : SessionRecord) (x : Snapshot) (w w' : World)
      → is_starting r.intended_state ≡ true
      → Reported (start_binding r) x
      → accept_started s d r x w ≡ (ok q, w')
      → Accepted q w'
  unfolding accept_started Accepted
  accept_started-Accepted r q x w w' starts said h =
      let (now, told_now, h1) = then_with-eq-ok (s.now w) _ h in
      let w1 = (s.now w).1 in
      let (tests, h2) = guard-passed (is_fresh now r x && is_bootstrapped x) _ h1 in
      elim (if-runs (is_converged x) (persist_ready s d r x) (pure r) h2) [
        | inl (_, h3) ↦ inl (persist_ready-ReadyOn r q x w1 w' said h3)
        | inr (_, last) ↦ inr (
            subst (λ y. BootstrappedOn y w') (ok-injective r q (ap (λ p. p.0) last))
              (record {
                starting = is_starting-eq r.intended_state starts;
                seen = x;
                reported = said;
                clock = w;
                is_recent = fresh r x w now told_now (ground arith);
                owner_up = bootstrapped x (ground arith);
                asked_last = ap (λ p. p.1) last;
              }))
      ]

  pub reconcile_ready-Accepted :
      (r q : SessionRecord) (w w' : World) → reconcile_ready s d r w ≡ (ok q, w') → Accepted q w'
  unfolding reconcile_ready Accepted
  reconcile_ready-Accepted r q w w' h =
      let (x, seen_x, h1) = then_with-eq-ok (s.snapshot (start_binding r) w) _ h in
      inl (persist_ready-ReadyOn r q x _ w' (Reported.by_snapshot w seen_x) h1)

  same_launch_binding :
      (r c : SessionRecord) → same_launch_identity r c ≡ true → start_binding r ≡ start_binding c
  unfolding same_launch_identity start_binding
  same_launch_binding r c h =
      rw
        (
          (eqb_iff r.domain c.domain).0 (ground arith),
          (eqb_iff r.id c.id).0 (ground arith),
          same-eq BackendRef-discrete r.backend c.backend (ground arith),
          (eqb_iff r.start_generation c.start_generation).0 (ground arith),
        )
        refl

  accept_launched-Accepted :
      (r q : SessionRecord) (x : Snapshot) (w w' : World)
      → Reported (start_binding r) x
      → accept_launched s d r x w ≡ (ok q, w')
      → Accepted q w'
  unfolding accept_launched
  accept_launched-Accepted r q x w w' said h = elim (if-runs (is_starting r.intended_state) _ _ h) [
    | inl (e, h1) ↦ accept_started-Accepted r q x w w' e said h1
    | inr (_, h1) ↦ elim (if-runs (is_running_intent r.intended_state) _ _ h1) [
      | inl (_, h2) ↦ reconcile_ready-Accepted r q w w' h2
      | inr (_, h2) ↦ fail-never h2 (Accepted q w')
    ]
  ]

  pub launch-Accepted :
      (name : Bytes) (r q : SessionRecord) (w w' : World)
      → launch s d name r w ≡ (ok q, w')
      → Accepted q w'
  unfolding launch
  launch-Accepted name r q w w' h =
      let (_, h1) =
        guard-passed (not (is_empty r.start_generation) && valid_uuid r.start_generation) _ h in
      let (_, _, h2) = then_with-eq-ok (s.outside.release_session w) _ h1 in
      let w1 = (s.outside.release_session w).1 in
      let (x, launched, h3) = then_with-eq-ok (s.start_exact (start_binding r) r.name w1) _ h2 in
      let w2 = (s.start_exact (start_binding r) r.name w1).1 in
      let (_, _, h4) = then_with-eq-ok (s.outside.acquire_session d name w2) _ h3 in
      let w3 = (s.outside.acquire_session d name w2).1 in
      let (c, _, h5) = then_with-eq-ok (load_record d name w3, w3) _ h4 in
      let (same_one, h6) = guard-passed (same_launch_identity r c) _ h5 in
      accept_launched-Accepted c q x w3 w'
        (subst (λ b. Reported b x) (same_launch_binding r c same_one)
          (Reported.by_launch r.name w1 launched))
        h6
